-- ===== src/Ui/Messages.antt =====
-- internal/ui/msg.go, pane.go, keymap.go and snapshot.go: what the root, the panes and the source say to
-- each other.
use go_salt_events.Base.{
  Bool, Bytes, List, Option, [], bytes_eq, if◌then◌else◌, ltb, none, some, true, ℕ, ℤ, ◌%◌, ◌+◌,
  ◌-◌, ◌∷◌,
}
use go_salt_events.Model.Event.{Event, Time}
use go_salt_events.Model.Job.{Job, JobRow}
use go_salt_events.Filter.Query.Parse.{Query}
use go_salt_events.Stats.Jobs.{Lookup}
use go_salt_events.Export.Options.{ExportError, Written}
use go_salt_events.Hub.{Hub}
use go_salt_events.Hub.View.{Snapshot, lookup_job}

-- A `tea.KeyMsg`: what `String` says of it, and its `Runes` as the text that they spell.
pub record Key : Type 0 where
  pub name : Bytes
  pub typed : Bytes

-- `msg.String() == name`
abbrev pub is_key : Key → Bytes → Bool
is_key k name = bytes_eq k.name name

-- `case a, b:`
abbrev pub one_of : Key → Bytes → Bytes → Bool
one_of k a b = if is_key k a then true else is_key k b

abbrev pub first_pane_digit : ℕ
first_pane_digit = 49

-- `paneIndex`; a byte less a byte wraps around.
unfoldable pub pane_index : Bytes → ℕ → Option ℕ
pane_index [] n = none
pane_index (b ∷ []) n =
    let i = (b + 256 - first_pane_digit) % 256 in if ltb i n then some i else none
pane_index (_ ∷ _ ∷ _) n = none

-- The one-line messages of the chrome, by what they say.
pub data Notice : Type 0 where
  no_detail_pane : Notice
  no_cached_return : Bytes → Bytes → Notice
  has_not_returned : Bytes → Bytes → Notice
  not_wired : Notice
  exported : Written → Notice
  exported_not_owned : Written → Notice
  export_refused : ExportError → Notice

-- The messages that `Update` can be handed; `other_msg` is any that it has no case for.
pub data Msg : Type 0 where
  window_size : ℤ → ℤ → Msg
  tick : Msg
  key_msg : Key → Msg
  open_detail_msg : Event → Msg
  open_job_return_msg : Bytes → Bytes → Msg
  notice_msg : Notice → Msg
  reader_error_msg : Bytes → Msg
  other_msg : Msg

-- What an `ExportFunc` answers.
pub data Exported : Type 0 where
  wrote : Written → Exported
  wrote_not_owned : Written → Exported
  wrote_nothing : ExportError → Exported

abbrev pub ExportFunc : Type 0
ExportFunc = Hub → Query → Exported

-- A `tea.Cmd` that is not nil: what runs outside the render loop, and answers with a message.
pub data Cmd : Type 0 where
  quit : Cmd
  tick_after : ℕ → Cmd
  send : Msg → Cmd
  run_export : ExportFunc → Query → Cmd

abbrev pub snapshot_limit : ℕ
snapshot_limit = 2000

-- 100 ms
abbrev pub default_interval : ℕ
default_interval = 100000000

-- The fields of `ui.Snapshot` that an `Update` reads. The lookup is a method of the hub, so it answers
-- from the hub of the moment it is called, and not from that of the snapshot.
pub record Frame : Type 0 where
  pub now : Time
  pub events : List Event
  pub jobs : List JobRow
  pub job_lookup : Option (Bytes → Option Job × Lookup)

-- The zero `Snapshot`.
abbrev pub no_frame : Frame
no_frame = record { now = 0; events = []; jobs = []; job_lookup = none }

-- What a snapshot shows beside the source it came from.
unfoldable pub frame_of : {F : Type 0} → Option Hub → Option (Snapshot F) → Frame
frame_of src none = no_frame
frame_of none (some s) = record { now = s.now; events = s.events; jobs = s.jobs; job_lookup = none }
frame_of (some h) (some s) = record {
  now = s.now;
  events = s.events;
  jobs = s.jobs;
  job_lookup = some (lookup_job h);
}
