-- ===== src/Ui/Root.antt =====
-- internal/ui/root.go: the root model and what it does by itself. `Update` runs on one goroutine, so it is a function of the model,
-- the source and a message. The styles are compiled from a palette, and are its name here.
pub mod Update
pub mod Session
pub mod Sound
pub mod Focus
pub mod Pin
pub mod InJob
pub mod Drilled
pub mod Returns
pub mod Paused
pub mod Editing
pub mod Palettes
use go_salt_events.Base.{
  Bool, Bytes, List, Option, [], bytes_eq, codes, false, if◌then◌else◌, length, ltb, negsuc, none,
  pos, reverse, some, suc, zero, ℕ, ℤ, ◌%◌, ◌&&◌, ◌+◌, ◌-◌, ◌==◌, ◌∷◌,
}
use go_salt_events.Model.Event.{Event, Kind}
use go_salt_events.Filter.Query.Parse.{Query, QueryError}
use go_salt_events.Stats.Jobs.Ingest.{is_empty}
use go_salt_events.Hub.{Hub, pin_job}
use go_salt_events.Hub.View.{Snapshot}
use go_salt_events.Ui.Theme.{default_name, is_registered, next}
use go_salt_events.Ui.Messages.{
  Cmd, ExportFunc, Key, Notice, default_interval, is_key, no_cached_return, no_detail_pane,
  not_wired, notice_msg, run_export, send,
}
use go_salt_events.Ui.Live.{LivePane}
use go_salt_events.Ui.Jobs.{JobsPane, pinned_jid}
use go_salt_events.Ui.Detail.{DetailPane, set_event}

-- The panes of the program. The Rate pane is its `fixedScale`; the Summary pane keeps nothing.
pub data Pane : Type 0 where
  live_pane : LivePane → Pane
  detail_pane : DetailPane → Pane
  rate_pane : Bool → Pane
  summary_pane : Pane
  jobs_pane : JobsPane → Pane

-- `Options`
pub record Options : Type 0 where
  pub theme : Bytes
  pub interval : ℤ
  pub filter : Query
  pub sock_path : Bytes
  pub config_path : Bytes
  pub export : Option ExportFunc

-- `Model`, at the type of the snapshot's floats. An empty `filterErr` or `notice` is none.
pub record Model (F : Type 0) : Type 0 where
  pub src : Option Hub
  pub panes : List Pane
  pub focus : ℕ
  pub styles : Bytes
  pub theme_name : Bytes
  pub query : Query
  pub filtering : Bool
  pub filter_buf : Bytes
  pub filter_err : Option QueryError
  pub snap : Option (Snapshot F)
  pub notice : Option Notice
  pub reader_err : Bytes
  pub interval : ℕ
  pub sock_path : Bytes
  pub config_path : Bytes
  pub export : Option ExportFunc
  pub width : ℤ
  pub height : ℤ
  pub ready : Bool
  pub paused : Bool
  pub show_help : Bool

abbrev pub is_positive : ℤ → Bool
is_positive (pos n) = ltb 0 n
is_positive (negsuc n) = false

-- `interval <= 0`
abbrev pub interval_of : ℤ → ℕ
interval_of (pos zero) = default_interval
interval_of (pos (suc n)) = suc n
interval_of (negsuc n) = default_interval

-- `NewModel`. `SetStyles` does nothing in any of the panes.
unfoldable pub new_model : {F : Type 0} → Option Hub → List Pane → Options → Model F
new_model src panes opts =
    let name = if is_registered opts.theme then opts.theme else default_name in
    record {
      src = src;
      panes = panes;
      focus = 0;
      styles = name;
      theme_name = name;
      query = opts.filter;
      filtering = false;
      filter_buf = [];
      filter_err = none;
      snap = none;
      notice = none;
      reader_err = [];
      interval = interval_of opts.interval;
      sock_path = opts.sock_path;
      config_path = opts.config_path;
      export = opts.export;
      width = pos 0;
      height = pos 0;
      ready = false;
      paused = false;
      show_help = false;
    }

-- `pinnedJID`
unfoldable pub pinned_of : List Pane → Bytes
pinned_of [] = []
pinned_of (jobs_pane p ∷ ps) = if is_empty (pinned_jid p) then pinned_of ps else pinned_jid p
pinned_of (live_pane _ ∷ ps) = pinned_of ps
pinned_of (detail_pane _ ∷ ps) = pinned_of ps
pinned_of (rate_pane _ ∷ ps) = pinned_of ps
pinned_of (summary_pane ∷ ps) = pinned_of ps

abbrev pub further : Pane → Option (ℕ × List Pane) → Option (ℕ × List Pane)
further p none = none
further p (some (i, ps)) = some (i + 1, p ∷ ps)

-- The loop of `openDetail`: the index of the first viewer, and the panes with its event set.
unfoldable pub show_event : List Pane → Event → Option (ℕ × List Pane)
show_event [] e = none
show_event (detail_pane p ∷ ps) e = some (0, detail_pane (set_event p e) ∷ ps)
show_event (live_pane p ∷ ps) e = further (live_pane p) (show_event ps e)
show_event (rate_pane b ∷ ps) e = further (rate_pane b) (show_event ps e)
show_event (summary_pane ∷ ps) e = further summary_pane (show_event ps e)
show_event (jobs_pane p ∷ ps) e = further (jobs_pane p) (show_event ps e)

-- What `openJobReturn` looks for.
unfoldable pub is_return_of : Bytes → Bytes → Event → Bool
is_return_of jid minion e = elim e.kind [
  | Kind.ret ↦ bytes_eq e.jid jid && bytes_eq e.minion minion
  | _ ↦ false
]

unfoldable pub first_return : Bytes → Bytes → List Event → Option Event
unfolding is_return_of
first_return jid minion [] = none
first_return jid minion (e ∷ es) =
    if is_return_of jid minion e then some e else first_return jid minion es

module _ {F : Type 0} where
  -- `syncPin`, for the source that there is.
  unfoldable pub pin_on : Model F → Option Hub → Model F
  unfolding pinned_of
  pin_on m none = m
  pin_on m (some h) = record m { src = some (pin_job h (pinned_of m.panes)) }

  unfoldable pub sync_pin : Model F → Model F
  unfolding pin_on
  sync_pin m = pin_on m m.src

  -- `openDetail`, from where its loop ends.
  unfoldable pub place : Model F → Option (ℕ × List Pane) → Model F
  place m none = record m { notice = some no_detail_pane }
  place m (some (i, panes)) = record m { panes = panes; focus = i; show_help = false }

  unfoldable pub open_detail : Model F → Event → Model F
  unfolding show_event place
  open_detail m e = place m (show_event m.panes e)

  -- `m.snap.Events`
  abbrev pub events_of : Option (Snapshot F) → List Event
  events_of none = []
  events_of (some s) = s.events

  -- `openJobReturn`, from where its loop ends; it runs from the newest event to the oldest.
  unfoldable pub land : Model F → Bytes → Bytes → Option Event → Model F
  unfolding open_detail
  land m jid minion none = record m { notice = some (no_cached_return minion jid) }
  land m jid minion (some e) = open_detail m e

  unfoldable pub open_job_return : Model F → Bytes → Bytes → Model F
  unfolding first_return land
  open_job_return m jid minion =
      land m jid minion (first_return jid minion (reverse (events_of m.snap)))

  -- `step`
  unfoldable pub step : Model F → Key → ℕ
  step m k =
      let n = length m.panes in
      if n == 0
      then 0
      else if is_key k (codes "shift+tab")
      then (m.focus + n - 1) % n
      else (m.focus + 1) % n

  -- `cycleTheme`
  unfoldable pub cycle_theme : Model F → Model F
  cycle_theme m =
      let name = next m.theme_name in
      if is_registered name then record m { theme_name = name; styles = name } else m

  -- `exportCmd`
  unfoldable pub export_cmd : Model F → Cmd
  export_cmd m = elim m.export [
    | none ↦ send (notice_msg not_wired)
    | some f ↦ run_export f m.query
  ]
