-- ===== src/Ui/Root/InJob.antt =====
-- internal/ui/root.go with internal/ui/jobs/jobs.go: the way out of a job's drill-down.
use go_salt_events.Base.{
  Bytes, List, Option, [], ap, codes, either_way, false, get_elem?, none, set, some, subst, suc,
  zero, ℕ, ◌∙◌, ◌∷◌, ◌≡◌,
}
use go_salt_events.Model.Event.{Event}
use go_salt_events.Stats.Jobs.Ingest.{is_empty}
use go_salt_events.Hub.{Hub}
use go_salt_events.Ui.Theme.{is_registered, next}
use go_salt_events.Ui.Messages.{Cmd, Frame, Key, is_key, one_of}
use go_salt_events.Ui.Jobs.{JobsPane, drilled_key, jobs_key}
use go_salt_events.Ui.Root.{
  Model, Pane, cycle_theme, detail_pane, further, jobs_pane, land, live_pane, open_detail, pin_on,
  place, rate_pane, show_event, summary_pane,
}

-- A pane that is the Jobs pane, drilled into the job.
abbrev pub InJob : Bytes → Option Pane → Type 0
InJob jid (some (jobs_pane p)) = p.drilled ≡ jid
InJob jid (some (live_pane _)) = ⊥
InJob jid (some (detail_pane _)) = ⊥
InJob jid (some (rate_pane _)) = ⊥
InJob jid (some summary_pane) = ⊥
InJob jid none = ⊥

pub record DrilledTo (jid : Bytes) (x : JobsPane × Option Cmd) : Type 0 where
  pub same : x.0.drilled ≡ jid

-- The only key that leaves the drill-down is `esc`.
drilled_key-DrilledTo :
    (jid : Bytes) (p : JobsPane) (k : Key) (s : Frame)
    → p.drilled ≡ jid
    → is_key k (codes "esc") ≡ false
    → DrilledTo jid (drilled_key p k s)
unfolding drilled_key
drilled_key-DrilledTo jid p k s h not_esc = rw not_esc (
    either_way (DrilledTo jid) (is_key k (codes "f")) (record { same = h })
      (either_way (DrilledTo jid) (one_of k (codes "down") (codes "j")) (record { same = h })
        (either_way (DrilledTo jid) (one_of k (codes "up") (codes "k")) (record { same = h })
          (either_way (DrilledTo jid) (is_key k (codes "enter")) (record { same = h })
            (record { same = h })))))

pub jobs_key-DrilledTo :
    (jid : Bytes) (p : JobsPane) (k : Key) (s : Frame)
    → is_empty jid ≡ false
    → p.drilled ≡ jid
    → is_key k (codes "esc") ≡ false
    → DrilledTo jid (jobs_key p k s)
unfolding jobs_key
jobs_key-DrilledTo jid p k s named h not_esc =
    rw (jobs_key, ap is_empty h ∙ named) (drilled_key-DrilledTo jid p k s h not_esc)

-- The pane at `i` of those of a model.
pub record Drilled {F : Type 0} (i : ℕ) (jid : Bytes) (m : Model F) : Type 0 where
  pub there : InJob jid (get_elem? m.panes i)

pub record DrilledAfter {F : Type 0} (i : ℕ) (jid : Bytes) (x : Model F × Option Cmd) : Type 0 where
  pub there : InJob jid (get_elem? x.0.panes i)

abbrev pub InJobAfter : ℕ → Bytes → Option (ℕ × List Pane) → Type 0
InJobAfter i jid none = Unit {0}
InJobAfter i jid (some (j, panes)) = InJob jid (get_elem? panes i)

further-InJob :
    (i : ℕ) (jid : Bytes) (p : Pane) (o : Option (ℕ × List Pane))
    → InJobAfter i jid o
    → InJobAfter (suc i) jid (further p o)
further-InJob i jid p none h = tt
further-InJob i jid p (some (j, panes)) h = h

further_first-InJob :
    (jid : Bytes) (p : Pane) (o : Option (ℕ × List Pane))
    → InJob jid (some p)
    → InJobAfter zero jid (further p o)
further_first-InJob jid p none h = tt
further_first-InJob jid p (some (j, panes)) h = h

-- Setting the event of the Detail pane leaves the Jobs pane as it is.
pub show_event-InJob :
    (i : ℕ) (jid : Bytes) (panes : List Pane) (e : Event)
    → InJob jid (get_elem? panes i)
    → InJobAfter i jid (show_event panes e)
unfolding show_event
show_event-InJob i jid [] e h = tt
show_event-InJob zero jid (detail_pane p ∷ ps) e h = h
show_event-InJob (suc i) jid (detail_pane p ∷ ps) e h = h
show_event-InJob zero jid (live_pane p ∷ ps) e h = absurd h
show_event-InJob zero jid (rate_pane b ∷ ps) e h = absurd h
show_event-InJob zero jid (summary_pane ∷ ps) e h = absurd h
show_event-InJob zero jid (jobs_pane p ∷ ps) e h =
    further_first-InJob jid (jobs_pane p) (show_event ps e) h
show_event-InJob (suc i) jid (live_pane p ∷ ps) e h =
    further-InJob i jid _ _ (show_event-InJob i jid ps e h)
show_event-InJob (suc i) jid (rate_pane b ∷ ps) e h =
    further-InJob i jid _ _ (show_event-InJob i jid ps e h)
show_event-InJob (suc i) jid (summary_pane ∷ ps) e h =
    further-InJob i jid _ _ (show_event-InJob i jid ps e h)
show_event-InJob (suc i) jid (jobs_pane p ∷ ps) e h =
    further-InJob i jid _ _ (show_event-InJob i jid ps e h)

-- What a message makes of the pane in focus.
pub set-InJob :
    (i : ℕ) (jid : Bytes) (panes : List Pane) (f : ℕ) (p q : Pane)
    → get_elem? panes f ≡ some p
    → (InJob jid (some p) → InJob jid (some q))
    → InJob jid (get_elem? panes i)
    → InJob jid (get_elem? (set panes f q) i)
set-InJob i jid [] f p q at keeps h = absurd h
set-InJob zero jid (x ∷ xs) zero p q at keeps h = keeps (subst (InJob jid) at h)
set-InJob (suc i) jid (x ∷ xs) zero p q at keeps h = h
set-InJob zero jid (x ∷ xs) (suc f) p q at keeps h = h
set-InJob (suc i) jid (x ∷ xs) (suc f) p q at keeps h = set-InJob i jid xs f p q at keeps h

module _ {F : Type 0} (i : ℕ) (jid : Bytes) where
  place-Drilled :
      (m : Model F) (o : Option (ℕ × List Pane))
      → InJobAfter i jid o
      → Drilled i jid m
      → Drilled i jid (place m o)
  unfolding place
  place-Drilled m none after h = record { there = h.there }
  place-Drilled m (some (j, panes)) after h = record { there = after }

  pub open_detail-Drilled :
      (m : Model F) (e : Event) → Drilled i jid m → Drilled i jid (open_detail m e)
  unfolding open_detail
  open_detail-Drilled m e h =
      place-Drilled m (show_event m.panes e) (show_event-InJob i jid m.panes e h.there) h

  pub land-Drilled :
      (m : Model F) (j minion : Bytes) (o : Option Event)
      → Drilled i jid m
      → Drilled i jid (land m j minion o)
  unfolding land
  land-Drilled m j minion none h = record { there = h.there }
  land-Drilled m j minion (some e) h = open_detail-Drilled m e h

  pub pin_on-Drilled :
      (m : Model F) (src : Option Hub) → Drilled i jid m → Drilled i jid (pin_on m src)
  unfolding pin_on
  pin_on-Drilled m none h = h
  pin_on-Drilled m (some hub) h = record { there = h.there }

  pub cycle_theme-Drilled : (m : Model F) → Drilled i jid m → Drilled i jid (cycle_theme m)
  unfolding cycle_theme
  cycle_theme-Drilled m h =
      either_way (Drilled i jid) (is_registered (next m.theme_name)) (record { there = h.there }) h
