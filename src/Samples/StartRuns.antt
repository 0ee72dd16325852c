-- ===== src/Samples/StartRuns.antt =====
-- cmd/salt-events: a start on a host with one socket, and a recording of two frames.
use go_salt_events.Base.{
  Bool, Bytes, [], bytes_eq, codes, false, if◌then◌else◌, none, refl, some, true, ℕ, ◌==◌, ◌∷◌, ◌≡◌,
}
use go_salt_events.Saltipc.Value.{null}
use go_salt_events.Export.Options.{no_dir}
use go_salt_events.Config.Settings.{given, not_exist}
use go_salt_events.Config.Load.{load}
use go_salt_events.Base.Utf8.{fields}
use go_salt_events.Filter.Query.Parse.{parse}
use go_salt_events.Ui.Detail.Render.{Decoded, value}
use go_salt_events.Ui.Messages.{ExportFunc, wrote_nothing}
use go_salt_events.Cmd.Capture.{Answers, body_not_written, copied, copy_frames, split_capture_args}
use go_salt_events.Cmd.Capture.Frames.{Recorded, copy_frames-Recorded}
use go_salt_events.Cmd.Run.{Host, Run, no_stat, run, serve, split_version_arg}

-- Two frames and the start of a third.
abbrev stream : Bytes
stream = 0 ∷ 0 ∷ 0 ∷ 1 ∷ 7 ∷ 0 ∷ 0 ∷ 0 ∷ 2 ∷ 8 ∷ 9 ∷ 0 ∷ 0 ∷ []

-- A destination that takes all, and one whose fourth write stops after a byte.
abbrev takes_all : Answers
takes_all w = none

abbrev fills_up : Answers
fills_up w = if w == 3 then some 1 else none

copy_frames-Recorded_example : Recorded fills_up 2 stream (copy_frames fills_up 0 2 stream)
copy_frames-Recorded_example = copy_frames-Recorded fills_up 0 2 stream

both_copied : (copy_frames takes_all 0 2 stream).0 ≡ copied
unfolding copy_frames
both_copied = refl

second_torn :
    copy_frames fills_up 0 2 stream
    ≡ (body_not_written, 0 ∷ 0 ∷ 0 ∷ 1 ∷ 7 ∷ 0 ∷ 0 ∷ 0 ∷ 2 ∷ 8 ∷ [], 0 ∷ 0 ∷ [])
unfolding copy_frames
second_torn = refl

-- No variables and no files, and every socket; and a host with none that can be read.
abbrev host : Host
host = record {
  env = λ name. [];
  home_for = λ user. none;
  files = λ path. not_exist;
  parse_toml = λ text. none;
  parse_args = λ args. given (record {
    config = none;
    sock_dir = some (codes "/run/salt");
    theme = some (codes "no such palette");
    export_dir = none;
    filter = none;
    max_memory = none;
    export_max = none;
    max_jobs = none;
    no_color = none;
  });
  stat = λ path. none;
}

abbrev no_value : Bytes → Decoded
no_value b = value null

abbrev exports : ExportFunc
exports h q = wrote_nothing no_dir

abbrev shut : Host
shut = record host { stat = λ path. some (codes "permission denied") }

abbrev is_served : Run ℕ → Bool
is_served (serve h m) = true
is_served r = false

it_serves : is_served (run host no_value (λ cfg. exports) []) ≡ true
unfolding run split_version_arg split_capture_args load bytes_eq parse fields
it_serves = refl

it_stops :
    Path (Run ℕ) (run shut no_value (λ cfg. exports) []) (no_stat (codes "permission denied"))
unfolding run split_version_arg split_capture_args load bytes_eq parse fields
it_stops = refl
