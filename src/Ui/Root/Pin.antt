-- ===== src/Ui/Root/Pin.antt =====
-- internal/ui/root.go, `syncPin`, with the hub that it pins in: the job that a pane holds open.
use go_salt_events.Base.{
  Bytes, List, Option, Option-cases, arith, either_way, false, if◌then◌else◌, inl, inr, none, refl,
  some, true, ◌≡◌,
}
use go_salt_events.Model.Job.{is_some}
use go_salt_events.Saltipc.Value.{Value}
use go_salt_events.Saltipc.Reader.{Call}
use go_salt_events.Stats.Floats.{Floats}
use go_salt_events.Stats.Jobs.{JobIndex, Lookup, find_entry, find_job}
use go_salt_events.Stats.Jobs.Ingest.{is_empty}
use go_salt_events.Stats.Jobs.Valid.{IsValid}
use go_salt_events.Hub.{Hub, deliver_all}
use go_salt_events.Hub.View.{Readings, lookup_job, take_snapshot}
use go_salt_events.Hub.Pinned.{Held, deliver_all-Held, pin_job-Held}
use go_salt_events.Ui.Messages.{tick}
use go_salt_events.Ui.Detail.Render.{Formats}
use go_salt_events.Ui.Root.{Model, pin_on, pinned_of, sync_pin}
use go_salt_events.Ui.Root.Update.{pull, refresh, update}
use go_salt_events.Ui.Root.Session.{ingest, message, on_hub, take_step}

-- The source is a hub with a sound index, and the job `k` is in it.
abbrev pub Has : Bytes → Option Hub → Type 0
Has k none = ⊥
Has k (some h) = IsValid h.jobs × (is_some (find_entry h.jobs.order k) ≡ true)

abbrev SourceHeld : Bytes → Option Hub → Type 0
SourceHeld k none = ⊥
SourceHeld k (some h) = Held k h.jobs

-- The source can still look the job up.
abbrev pub Finds : Bytes → Option Hub → Type 0
Finds k none = ⊥
Finds k (some h) = (lookup_job h k).1 ≡ Lookup.found

pin_on-SourceHeld :
    {F : Type 0} (m : Model F) (src : Option Hub)
    → is_empty (pinned_of m.panes) ≡ false
    → Has (pinned_of m.panes) src
    → SourceHeld (pinned_of m.panes) (pin_on m src).src
unfolding pin_on
pin_on-SourceHeld m none named has = absurd has
pin_on-SourceHeld m (some h) named (valid, there) =
    pin_job-Held h (pinned_of m.panes) valid named there

find_job-found :
    (idx : JobIndex) (k : Bytes)
    → is_some (find_entry idx.order k) ≡ true
    → (find_job idx k).1 ≡ Lookup.found
unfolding find_job
find_job-found idx k there = elim (Option-cases (find_entry idx.order k)) [
  | inl missing ↦ absurd (ground (arith, there, missing))
  | inr (e, hit) ↦ rw (find_job, hit) refl
]

Held-Finds : (k : Bytes) (src : Option Hub) → SourceHeld k src → Finds k src
unfolding lookup_job
Held-Finds k none h = h
Held-Finds k (some h) held = find_job-found h.jobs k held.there

module _ (fl : Floats) (fmt : Formats) (decode : Option (Bytes → Option Value)) where
  open fl use {Float}

  pull-SourceHeld :
      (t : Readings) (k : Bytes) (m : Model Float) (src : Option Hub)
      → SourceHeld k src
      → SourceHeld k (pull fl t m src).src
  unfolding pull take_snapshot
  pull-SourceHeld t k m none h = elim h [ ]
  pull-SourceHeld t k m (some hub) h = h

  on_hub-SourceHeld :
      (k : Bytes) (src : Option Hub) (cs : List Call)
      → SourceHeld k src
      → SourceHeld k (on_hub (λ h. deliver_all decode h cs) src)
  unfolding on_hub
  on_hub-SourceHeld k none cs h = h
  on_hub-SourceHeld k (some hub) cs h = deliver_all-Held decode k hub cs h

  record StillHeld (k : Bytes) (m : Model Float) : Type 0 where
    held : SourceHeld k m.src

  -- When a pane holds a job open and the index is sound and has it, then after the next tick, and whatever the
  -- reader delivers before the one after it, the hub still has the job, paused or not.
  pub tick_protects :
      (t : Readings) (m : Model Float) (cs : List Call)
      → is_empty (pinned_of m.panes) ≡ false
      → Has (pinned_of m.panes) m.src
      → Finds
          (pinned_of m.panes)
          (take_step fl fmt decode (take_step fl fmt decode m (message t tick)) (ingest cs)).src
  unfolding take_step update sync_pin refresh
  tick_protects t m cs named has =
      let k = pinned_of m.panes in
      let pinned = pin_on-SourceHeld m m.src named has in
      let n = sync_pin m in
      let kept : StillHeld k (if n.paused then n else refresh fl t n) =
        either_way (StillHeld k) n.paused (record { held = pinned })
          (record { held = pull-SourceHeld t k n n.src pinned }) in
      Held-Finds k _ (on_hub-SourceHeld k _ cs kept.held)
