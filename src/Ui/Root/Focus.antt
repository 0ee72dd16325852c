-- ===== src/Ui/Root/Focus.antt =====
-- internal/ui/root.go: the focus is on a pane, and the styles are of a registered palette, after any run.
use go_salt_events.Base.{
  Bool-cases, Bytes, List, Option, arith, codes, either_way, false, get_elem?, inl, inr, length,
  length-set, none, not, refl, some, true, ℕ, ◌<◌, ◌∙◌, ◌∷◌, ◌≡◌,
}
use go_salt_events.Stats.Jobs.Ingest.{is_empty}
use go_salt_events.Saltipc.Value.{Value}
use go_salt_events.Filter.Query.Parse.{ParsedQuery, accepted, parse, refused}
use go_salt_events.Stats.Floats.{Floats}
use go_salt_events.Hub.{Hub}
use go_salt_events.Hub.View.{Readings}
use go_salt_events.Ui.Messages.{
  Key, Msg, is_key, key_msg, notice_msg, one_of, open_detail_msg, open_job_return_msg, other_msg,
  pane_index, reader_error_msg, tick, window_size,
}
use go_salt_events.Ui.Detail.Render.{Formats}
use go_salt_events.Ui.Root.Update.{
  commit, commit_filter, filter_key, global_key, handle_key, jump_or, pull, refresh, route,
  route_to_pane, update,
}
use go_salt_events.Ui.Root.Session.{Step, ingest, message, session, session-keeps, take_step}
use go_salt_events.Ui.Theme.Cycle.{default_registered}
use go_salt_events.Ui.Theme.{is_registered}
use go_salt_events.Ui.Root.{Model, Options, Pane, new_model, open_job_return, step, sync_pin}
use go_salt_events.Ui.Root.Sound.{
  Sound, SoundAfter, cycle_theme-Sound, jump-Sound, land-Sound, like, moved-Sound,
  open_detail-Sound, step-fits, sync_pin-Sound,
}

module _ (fl : Floats) (n : ℕ) where
  open fl use {Float}

  pull-Sound :
      (t : Readings) (m : Model Float) (o : Option Hub) → Sound n m → Sound n (pull fl t m o)
  unfolding pull
  pull-Sound t m none h = h
  pull-Sound t m (some hub) h = record { parts = h.parts }

  refresh-Sound : (t : Readings) (m : Model Float) → Sound n m → Sound n (refresh fl t m)
  unfolding refresh
  refresh-Sound t m h = pull-Sound t m m.src h

  commit-Sound :
      (t : Readings) (m : Model Float) (q : ParsedQuery) → Sound n m → Sound n (commit fl t m q)
  unfolding commit
  commit-Sound t m (refused err) h = record { parts = h.parts }
  commit-Sound t m (accepted q) h =
      refresh-Sound t (record m { query = q; filtering = false; filter_err = none })
        (record { parts = h.parts })

  filter_key-Sound :
      (t : Readings) (m : Model Float) (k : Key) → Sound n m → Sound n (filter_key fl t m k)
  unfolding filter_key commit_filter
  filter_key-Sound t m k h =
      either_way (Sound n) (is_key k (codes "esc")) (record { parts = h.parts })
        (either_way (Sound n) (is_key k (codes "enter")) (commit-Sound t m (parse m.filter_buf) h) (
          either_way (Sound n) (is_key k (codes "backspace")) (record { parts = h.parts })
            (either_way (Sound n) (not (is_empty k.typed)) (record { parts = h.parts })
              (either_way (Sound n) (is_key k (codes " ")) (record { parts = h.parts }) h))))

  module _ (fmt : Formats) where
    route-Sound :
        (m : Model Float) (msg : Msg) (o : Option Pane)
        → Sound n m
        → Sound n (route fl fmt m msg o).0
    unfolding route
    route-Sound m msg none h = h
    route-Sound m msg (some p) h = like _ (record {
      count = length-set m.panes m.focus _ ∙ h.parts.count;
      bound = h.parts.bound;
      compiled = h.parts.compiled;
      registered = h.parts.registered;
    })

    global_key-Sound :
        (m : Model Float) (k : Key) → Sound n m → SoundAfter n (global_key fl fmt m k)
    unfolding global_key route_to_pane
    global_key-Sound m k h =
        either_way (SoundAfter n) (one_of k (codes "q") (codes "ctrl+c")) (record { model = h })
          (either_way (SoundAfter n) (is_key k (codes "esc"))
            (record { model = record { parts = h.parts } })
            (either_way (SoundAfter n) (one_of k (codes "tab") (codes "shift+tab"))
              (record { model = moved-Sound n m (step m k) (step-fits n m k h.parts.count) h })
              (either_way (SoundAfter n) (is_key k (codes "t"))
                (record { model = cycle_theme-Sound n m h })
                (either_way (SoundAfter n) (is_key k (codes " "))
                  (record { model = record { parts = h.parts } })
                  (either_way (SoundAfter n) (is_key k (codes "/"))
                    (record { model = record { parts = h.parts } })
                    (either_way (SoundAfter n) (is_key k (codes "?"))
                      (record { model = record { parts = h.parts } })
                      (either_way (SoundAfter n) (is_key k (codes "w")) (record { model = h })
                        (record {
                          model = route-Sound m (key_msg k) (get_elem? m.panes m.focus) h;
                        }))))))))

    jump_or-Sound :
        (m : Model Float) (k : Key) (o : Option ℕ)
        → pane_index k.name (length m.panes) ≡ o
        → Sound n m
        → Sound n (jump_or fl fmt m k o).0
    unfolding jump_or
    jump_or-Sound m k none eq h = (global_key-Sound m k h).model
    jump_or-Sound m k (some i) eq h = jump-Sound n m k.name i eq h

    update-Sound :
        (t : Readings) (m : Model Float) (msg : Msg) → Sound n m → Sound n (update fl fmt t m msg).0
    unfolding update handle_key open_job_return route_to_pane
    update-Sound t m (window_size w h) ok = record { parts = ok.parts }
    update-Sound t m tick ok =
        either_way (Sound n) _ (sync_pin-Sound n m ok)
          (refresh-Sound t (sync_pin m) (sync_pin-Sound n m ok))
    update-Sound t m (key_msg k) ok =
        let typed : SoundAfter n (handle_key fl fmt t m k) =
          either_way (SoundAfter n) m.filtering (record { model = filter_key-Sound t m k ok })
            (record {
              model =
                  jump_or-Sound (record m { notice = none }) k _ refl (record { parts = ok.parts });
            }) in
        typed.model
    update-Sound t m (open_detail_msg e) ok = open_detail-Sound n m e ok
    update-Sound t m (open_job_return_msg jid minion) ok = land-Sound n m jid minion _ ok
    update-Sound t m (notice_msg x) ok = record { parts = ok.parts }
    update-Sound t m (reader_error_msg s) ok = record { parts = ok.parts }
    update-Sound t m other_msg ok = route-Sound m other_msg (get_elem? m.panes m.focus) ok

new_model-Sound :
    {F : Type 0} (src : Option Hub) (panes : List Pane) (opts : Options)
    → Sound (length panes) (new_model {F = F} src panes opts)
unfolding new_model
new_model-Sound src panes opts = elim (Bool-cases (is_registered opts.theme)) [
  | inl known ↦
      rw known
        (like _ (record { count = refl; bound = omega arith; compiled = refl; registered = known }))
  | inr unknown ↦ rw unknown (
      like _ (record {
        count = refl;
        bound = omega arith;
        compiled = refl;
        registered = default_registered;
      }))
]

module _ (fl : Floats) (fmt : Formats) (decode : Option (Bytes → Option Value)) where
  open fl use {Float}

  take_step-Sound :
      (n : ℕ) (m : Model Float) (s : Step) → Sound n m → Sound n (take_step fl fmt decode m s)
  unfolding take_step
  take_step-Sound n m (message t msg) h = update-Sound fl n fmt t m msg h
  take_step-Sound n m (ingest cs) h = record { parts = h.parts }

  -- After any session that starts with a new model over some panes, there are as many panes, the focus is on
  -- one of them, and the styles are those of the palette named, which is registered.
  pub session-focus :
      (src : Option Hub) (first : Pane) (others : List Pane) (opts : Options) (ss : List Step)
      → let m = session fl fmt decode (new_model src (first ∷ others) opts) ss in
        (length m.panes ≡ length (first ∷ others))
        × (m.focus < length m.panes)
        × (m.styles ≡ m.theme_name)
        × (is_registered m.theme_name ≡ true)
  session-focus src first others opts ss =
      let n = length (first ∷ others) in
      let h =
        session-keeps fl fmt decode (Sound n) (take_step-Sound n)
          (new_model src (first ∷ others) opts) ss (new_model-Sound src (first ∷ others) opts) in
      (
        h.parts.count,
        omega (arith, h.parts.count, h.parts.bound),
        h.parts.compiled,
        h.parts.registered,
      )
