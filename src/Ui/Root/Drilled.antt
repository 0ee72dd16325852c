-- ===== src/Ui/Root/Drilled.antt =====
-- internal/ui/root.go with internal/ui/jobs/jobs.go: the way out of a job's drill-down.
use go_salt_events.Base.{
  Bool-cases, Bytes, List, Option, codes, either_way, false, get_elem?, inl, inr, length, none, not,
  refl, some, ℕ, ◌≡◌,
}
use go_salt_events.Saltipc.Value.{Value}
use go_salt_events.Filter.Query.Parse.{ParsedQuery, accepted, parse, refused}
use go_salt_events.Stats.Floats.{Floats}
use go_salt_events.Stats.Jobs.Ingest.{is_empty}
use go_salt_events.Hub.{Hub}
use go_salt_events.Hub.View.{Readings}
use go_salt_events.Ui.Messages.{
  Frame, Key, Msg, frame_of, is_key, key_msg, notice_msg, one_of, open_detail_msg,
  open_job_return_msg, other_msg, pane_index, reader_error_msg, tick, window_size,
}
use go_salt_events.Ui.Detail.Render.{Formats}
use go_salt_events.Ui.Root.{
  Model, Pane, detail_pane, jobs_pane, live_pane, open_job_return, rate_pane, summary_pane,
  sync_pin,
}
use go_salt_events.Ui.Root.Update.{
  commit, commit_filter, filter_key, global_key, handle_key, jump_or, pull, refresh, route,
  route_to_pane, update, update_pane,
}
use go_salt_events.Ui.Root.Session.{Step, ingest, message, session, session-keeps, take_step}
use go_salt_events.Ui.Root.InJob.{
  Drilled, DrilledAfter, InJob, cycle_theme-Drilled, jobs_key-DrilledTo, land-Drilled,
  open_detail-Drilled, pin_on-Drilled, set-InJob,
}

module _ (fl : Floats) (fmt : Formats) (i : ℕ) (jid : Bytes) (named : is_empty jid ≡ false) where
  open fl use {Float}

  -- What a pane becomes of a message that is not the key `esc`.
  update_pane-InJob :
      (p : Pane) (k : Key) (s : Frame)
      → is_key k (codes "esc") ≡ false
      → InJob jid (some p)
      → InJob jid (some (update_pane fl fmt p (key_msg k) s).0)
  unfolding update_pane
  update_pane-InJob (jobs_pane p) k s not_esc h =
      (jobs_key-DrilledTo jid p k s named h not_esc).same
  update_pane-InJob (live_pane p) k s not_esc h = h
  update_pane-InJob (detail_pane p) k s not_esc h = h
  update_pane-InJob (rate_pane p) k s not_esc h = h
  update_pane-InJob summary_pane k s not_esc h = h

  pull-Drilled :
      (t : Readings) (m : Model Float) (src : Option Hub)
      → Drilled i jid m
      → Drilled i jid (pull fl t m src)
  unfolding pull
  pull-Drilled t m none h = h
  pull-Drilled t m (some hub) h = record { there = h.there }

  refresh-Drilled :
      (t : Readings) (m : Model Float) → Drilled i jid m → Drilled i jid (refresh fl t m)
  unfolding refresh
  refresh-Drilled t m h = pull-Drilled t m m.src h

  commit-Drilled :
      (t : Readings) (m : Model Float) (q : ParsedQuery)
      → Drilled i jid m
      → Drilled i jid (commit fl t m q)
  unfolding commit
  commit-Drilled t m (refused err) h = record { there = h.there }
  commit-Drilled t m (accepted q) h =
      refresh-Drilled t (record m { query = q; filtering = false; filter_err = none })
        (record { there = h.there })

  filter_key-Drilled :
      (t : Readings) (m : Model Float) (k : Key)
      → Drilled i jid m
      → Drilled i jid (filter_key fl t m k)
  unfolding filter_key commit_filter
  filter_key-Drilled t m k h =
      either_way (Drilled i jid) (is_key k (codes "esc")) (record { there = h.there })
        (either_way (Drilled i jid) (is_key k (codes "enter"))
          (commit-Drilled t m (parse m.filter_buf) h)
          (either_way (Drilled i jid) (is_key k (codes "backspace")) (record { there = h.there })
            (either_way (Drilled i jid) (not (is_empty k.typed)) (record { there = h.there })
              (either_way (Drilled i jid) (is_key k (codes " ")) (record { there = h.there }) h))))

  route-Drilled :
      (m : Model Float) (k : Key) (o : Option Pane)
      → get_elem? m.panes m.focus ≡ o
      → is_key k (codes "esc") ≡ false
      → Drilled i jid m
      → DrilledAfter i jid (route fl fmt m (key_msg k) o)
  unfolding route
  route-Drilled m k none at not_esc h = record { there = h.there }
  route-Drilled m k (some p) at not_esc h = record {
    there =
        set-InJob i jid m.panes m.focus p _ at
          (update_pane-InJob p k (frame_of m.src m.snap) not_esc) h.there;
  }

  -- `esc` is taken by the root, so no key is left that leaves the drill-down.
  global_key-Drilled :
      (m : Model Float) (k : Key) → Drilled i jid m → DrilledAfter i jid (global_key fl fmt m k)
  unfolding global_key route_to_pane
  global_key-Drilled m k h =
      either_way (DrilledAfter i jid) (one_of k (codes "q") (codes "ctrl+c"))
        (record { there = h.there })
        (elim (Bool-cases (is_key k (codes "esc"))) [
          | inl esc ↦ rw esc (record { there = h.there })
          | inr not_esc ↦ rw not_esc (
              either_way (DrilledAfter i jid) (one_of k (codes "tab") (codes "shift+tab"))
                (record { there = h.there })
                (either_way (DrilledAfter i jid) (is_key k (codes "t"))
                  (record { there = (cycle_theme-Drilled i jid m h).there })
                  (either_way (DrilledAfter i jid) (is_key k (codes " "))
                    (record { there = h.there })
                    (either_way (DrilledAfter i jid) (is_key k (codes "/"))
                      (record { there = h.there })
                      (either_way (DrilledAfter i jid) (is_key k (codes "?"))
                        (record { there = h.there })
                        (either_way (DrilledAfter i jid) (is_key k (codes "w"))
                          (record { there = h.there })
                          (route-Drilled m k (get_elem? m.panes m.focus) refl not_esc h)))))))
        ])

  jump_or-Drilled :
      (m : Model Float) (k : Key) (o : Option ℕ)
      → Drilled i jid m
      → DrilledAfter i jid (jump_or fl fmt m k o)
  unfolding jump_or
  jump_or-Drilled m k none h = global_key-Drilled m k h
  jump_or-Drilled m k (some j) h = record { there = h.there }

  idle-InJob :
      (p : Pane) (s : Frame)
      → InJob jid (some p)
      → InJob jid (some (update_pane fl fmt p other_msg s).0)
  unfolding update_pane
  idle-InJob (jobs_pane p) s h = h
  idle-InJob (live_pane p) s h = h
  idle-InJob (detail_pane p) s h = h
  idle-InJob (rate_pane p) s h = h
  idle-InJob summary_pane s h = h

  route_idle-Drilled :
      (m : Model Float) (o : Option Pane)
      → get_elem? m.panes m.focus ≡ o
      → Drilled i jid m
      → DrilledAfter i jid (route fl fmt m other_msg o)
  unfolding route
  route_idle-Drilled m none at h = record { there = h.there }
  route_idle-Drilled m (some p) at h = record {
    there = set-InJob i jid m.panes m.focus p _ at (idle-InJob p (frame_of m.src m.snap)) h.there;
  }

  update-Drilled :
      (t : Readings) (m : Model Float) (msg : Msg)
      → Drilled i jid m
      → Drilled i jid (update fl fmt t m msg).0
  unfolding update handle_key open_job_return route_to_pane sync_pin
  update-Drilled t m (window_size w h) d = record { there = d.there }
  update-Drilled t m tick d =
      let pinned = pin_on-Drilled i jid m m.src d in
      either_way (Drilled i jid) (sync_pin m).paused pinned (refresh-Drilled t (sync_pin m) pinned)
  update-Drilled t m (key_msg k) d =
      let typed_in : DrilledAfter i jid (handle_key fl fmt t m k) =
        either_way (DrilledAfter i jid) m.filtering
          (record { there = (filter_key-Drilled t m k d).there })
          (jump_or-Drilled (record m { notice = none }) k (pane_index k.name (length m.panes))
            (record { there = d.there })) in
      record { there = typed_in.there }
  update-Drilled t m (open_detail_msg e) d = open_detail-Drilled i jid m e d
  update-Drilled t m (open_job_return_msg j minion) d = land-Drilled i jid m j minion _ d
  update-Drilled t m (notice_msg x) d = record { there = d.there }
  update-Drilled t m (reader_error_msg s) d = record { there = d.there }
  update-Drilled t m other_msg d = record {
    there = (route_idle-Drilled m (get_elem? m.panes m.focus) refl d).there;
  }

  take_step-Drilled :
      (decode : Option (Bytes → Option Value)) (m : Model Float) (s : Step)
      → Drilled i jid m
      → Drilled i jid (take_step fl fmt decode m s)
  unfolding take_step
  take_step-Drilled decode m (message t msg) d = update-Drilled t m msg d
  take_step-Drilled decode m (ingest cs) d = record { there = d.there }

  -- A Jobs pane that is drilled into a job stays drilled into that job, whatever messages the root gets,
  -- every key among them, and whatever the reader delivers: `esc`, which the pane's key list says leaves the job, does
  -- not come to the pane.
  session-drilled :
      (decode : Option (Bytes → Option Value)) (m : Model Float) (ss : List Step)
      → InJob jid (get_elem? m.panes i)
      → InJob jid (get_elem? (session fl fmt decode m ss).panes i)
  session-drilled decode m ss h =
      (session-keeps fl fmt decode (Drilled i jid) (take_step-Drilled decode) m ss
        (record { there = h })).there
