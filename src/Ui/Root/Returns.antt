-- ===== src/Ui/Root/Returns.antt =====
-- internal/ui/root.go, `openJobReturn`: which return it opens.
use go_salt_events.Base.{
  Bool-cases, Bytes, List, Option, [], ap, append_assoc, arith, false, get_elem?, inl, inr, none,
  refl, reverse, reverse-append, reverse-reverse, some, subst, suc, sym, true, ℕ, ◌++◌, ◌+◌, ◌∙◌,
  ◌∷◌, ◌≡◌,
}
use mathlib.Core.List.{reverse-cons}
use go_salt_events.Model.Event.{Event}
use go_salt_events.Stats.Floats.{Floats}
use go_salt_events.Hub.View.{Readings}
use go_salt_events.Ui.Messages.{no_cached_return, open_job_return_msg}
use go_salt_events.Ui.Detail.{set_event}
use go_salt_events.Ui.Detail.Render.{Formats}
use go_salt_events.Ui.Root.{
  Model, Pane, detail_pane, events_of, first_return, further, is_return_of, jobs_pane, land,
  live_pane, open_detail, open_job_return, place, rate_pane, show_event, summary_pane,
}
use go_salt_events.Ui.Root.Update.{update}

-- No event of the list is a return of the minion for the job.
abbrev pub NoneOf : Bytes → Bytes → List Event → Type 0
NoneOf jid minion [] = Unit {0}
NoneOf jid minion (e ∷ es) = (is_return_of jid minion e ≡ false) × NoneOf jid minion es

NoneOf-append :
    (jid minion : Bytes) (a b : List Event)
    → NoneOf jid minion a
    → NoneOf jid minion b
    → NoneOf jid minion (a ++ b)
NoneOf-append jid minion [] b ha hb = hb
NoneOf-append jid minion (e ∷ es) b (h, hs) hb = (h, NoneOf-append jid minion es b hs hb)

NoneOf-reverse :
    (jid minion : Bytes) (es : List Event) → NoneOf jid minion es → NoneOf jid minion (reverse es)
NoneOf-reverse jid minion [] h = tt
NoneOf-reverse jid minion (e ∷ es) (h, hs) =
    rw (reverse-cons e es)
      (NoneOf-append jid minion (reverse es) (e ∷ []) (NoneOf-reverse jid minion es hs) (h, tt))

-- The last return in the list, or that there is none.
pub data LastReturn (jid minion : Bytes) (es : List Event) : Option Event → Type 0 where
  absent : NoneOf jid minion es → LastReturn jid minion es none
  last :
      (before : List Event) (e : Event) (after : List Event)
      → es ≡ before ++ e ∷ after
      → is_return_of jid minion e ≡ true
      → NoneOf jid minion after
      → LastReturn jid minion es (some e)

-- What the scan finds, in the order that it goes.
data Scan (jid minion : Bytes) (es : List Event) : Option Event → Type 0 where
  nowhere : NoneOf jid minion es → Scan jid minion es none
  here :
      (skipped : List Event) (e : Event) (rest : List Event)
      → es ≡ skipped ++ e ∷ rest
      → is_return_of jid minion e ≡ true
      → NoneOf jid minion skipped
      → Scan jid minion es (some e)

Scan-cons :
    (jid minion : Bytes) (e : Event) (es : List Event) (o : Option Event)
    → is_return_of jid minion e ≡ false
    → Scan jid minion es o
    → Scan jid minion (e ∷ es) o
Scan-cons jid minion e es none skips (nowhere h) = nowhere (skips, h)
Scan-cons jid minion e es (some x) skips (here before _ rest eq hit h) =
    here (e ∷ before) x rest (ap (λ l. e ∷ l) eq) hit (skips, h)

first_return-Scan :
    (jid minion : Bytes) (es : List Event) → Scan jid minion es (first_return jid minion es)
unfolding first_return
first_return-Scan jid minion [] = nowhere tt
first_return-Scan jid minion (e ∷ es) = elim (Bool-cases (is_return_of jid minion e)) [
  | inl hit ↦ rw hit (here [] e es refl hit tt)
  | inr skips ↦ rw skips (Scan-cons jid minion e es _ skips (first_return-Scan jid minion es))
]

reverse_around :
    (a : List Event) (e : Event) (b : List Event)
    → reverse (a ++ e ∷ b) ≡ reverse b ++ e ∷ reverse a
reverse_around a e b = simp (reverse-append, reverse-cons, append_assoc) refl

Scan-reverse :
    (jid minion : Bytes) (es : List Event) (o : Option Event)
    → Scan jid minion (reverse es) o
    → LastReturn jid minion es o
Scan-reverse jid minion es none (nowhere h) =
    absent
      (subst (NoneOf jid minion) (reverse-reverse es) (NoneOf-reverse jid minion (reverse es) h))
Scan-reverse jid minion es (some e) (here skipped _ rest eq hit h) =
    last (reverse rest) e (reverse skipped)
      (sym (reverse-reverse es) ∙ ap reverse eq ∙ reverse_around skipped e rest) hit
      (NoneOf-reverse jid minion skipped h)

-- Some pane is a Detail pane.
abbrev pub HasDetail : List Pane → Type 0
HasDetail [] = ⊥
HasDetail (detail_pane _ ∷ ps) = Unit {0}
HasDetail (live_pane _ ∷ ps) = HasDetail ps
HasDetail (rate_pane _ ∷ ps) = HasDetail ps
HasDetail (summary_pane ∷ ps) = HasDetail ps
HasDetail (jobs_pane _ ∷ ps) = HasDetail ps

-- A Detail pane that shows the event from its first line.
abbrev pub Shows : Event → Option Pane → Type 0
Shows e (some (detail_pane p)) = (p.event ≡ some e) × (p.offset ≡ 0)
Shows e (some (live_pane _)) = ⊥
Shows e (some (rate_pane _)) = ⊥
Shows e (some summary_pane) = ⊥
Shows e (some (jobs_pane _)) = ⊥
Shows e none = ⊥

abbrev ShownAt : Event → Option (ℕ × List Pane) → Type 0
ShownAt e none = ⊥
ShownAt e (some (i, ps)) = Shows e (get_elem? ps i)

further-ShownAt :
    (e : Event) (p : Pane) (o : Option (ℕ × List Pane)) → ShownAt e o → ShownAt e (further p o)
further-ShownAt e p none h = h
further-ShownAt e p (some (i, ps)) h =
    let next_one : i + 1 ≡ suc i = omega arith in
    subst (λ j. Shows e (get_elem? (p ∷ ps) j)) (sym next_one) h

show_event-ShownAt : (e : Event) (ps : List Pane) → HasDetail ps → ShownAt e (show_event ps e)
unfolding show_event set_event
show_event-ShownAt e [] h = h
show_event-ShownAt e (detail_pane p ∷ ps) h = (refl, refl)
show_event-ShownAt e (live_pane p ∷ ps) h =
    further-ShownAt e (live_pane p) (show_event ps e) (show_event-ShownAt e ps h)
show_event-ShownAt e (rate_pane b ∷ ps) h =
    further-ShownAt e (rate_pane b) (show_event ps e) (show_event-ShownAt e ps h)
show_event-ShownAt e (summary_pane ∷ ps) h =
    further-ShownAt e summary_pane (show_event ps e) (show_event-ShownAt e ps h)
show_event-ShownAt e (jobs_pane p ∷ ps) h =
    further-ShownAt e (jobs_pane p) (show_event ps e) (show_event-ShownAt e ps h)

module _ {F : Type 0} where
  -- What becomes of the model: the pane in focus shows the return and the help is gone, or a notice is all
  -- that changes.
  abbrev pub Opened : Bytes → Bytes → Model F → Model F → Option Event → Type 0
  Opened jid minion before after none =
      after ≡ record before { notice = some (no_cached_return minion jid) }
  Opened jid minion before after (some e) =
      Shows e (get_elem? after.panes after.focus)
      × (after.show_help ≡ false)
      × (after.snap ≡ before.snap)

  place-Opened :
      (jid minion : Bytes) (m : Model F) (e : Event) (o : Option (ℕ × List Pane))
      → ShownAt e o
      → Opened jid minion m (place m o) (some e)
  unfolding place
  place-Opened jid minion m e none h = absurd h
  place-Opened jid minion m e (some (i, ps)) h = (h, refl, refl)

  land-Opened :
      (jid minion : Bytes) (m : Model F) (o : Option Event)
      → HasDetail m.panes
      → Opened jid minion m (land m jid minion o) o
  unfolding land open_detail
  land-Opened jid minion m none has = refl
  land-Opened jid minion m (some e) has =
      place-Opened jid minion m e (show_event m.panes e) (show_event-ShownAt e m.panes has)

module _ (fl : Floats) (fmt : Formats) where
  open fl use {Float}

  -- On a build with a Detail pane, the message to open a minion's return brings into focus a Detail pane that
  -- shows, from its first line, the last return of the snapshot from that minion for that job, and no earlier
  -- one; when there is none, a notice says so and nothing else changes.
  pub open_job_return-last :
      (t : Readings) (m : Model Float) (jid minion : Bytes)
      → HasDetail m.panes
      → (o : Option Event) × LastReturn jid minion (events_of m.snap) o
        × Opened jid minion m (update fl fmt t m (open_job_return_msg jid minion)).0 o
  unfolding update open_job_return
  open_job_return-last t m jid minion has =
      let es = events_of m.snap in
      let o = first_return jid minion (reverse es) in
      (
        o,
        Scan-reverse jid minion es o (first_return-Scan jid minion (reverse es)),
        land-Opened jid minion m o has,
      )
