-- ===== src/Cmd/Run.antt =====
-- cmd/salt-events/main.go and version.go: the order in which a run starts, and what it serves.
use go_salt_events.Base.{
  Bool, Bytes, List, Option, [], bytes_eq, codes, false, if◌then◌else◌, ltb, none, not, pos, some,
  true, ℕ, ◌&&◌, ◌∷◌,
}
use go_salt_events.Model.Event.{Time}
use go_salt_events.Model.Job.{is_some}
use go_salt_events.Saltipc.Value.{Value}
use go_salt_events.Config.Paths.{socket_path}
use go_salt_events.Config.Settings.{
  Arguments, Config, FileConfig, FileRead, LoadError, Loaded, loaded, rejected,
}
use go_salt_events.Config.Load.{load}
use go_salt_events.Export.Disk.{Disk, System}
use go_salt_events.Export.Options.{Library, Outcome, resolve_dir}
use go_salt_events.Export.Write.{write}
use go_salt_events.Filter.Query.Parse.{ParsedQuery, Query, QueryError, accepted, parse, refused}
use go_salt_events.Hub.{Hub, new_hub}
use go_salt_events.Hub.View.{all_events}
use go_salt_events.Ui.Theme.{mono_name}
use go_salt_events.Ui.Live.{new_live}
use go_salt_events.Ui.Jobs.{new_jobs}
use go_salt_events.Ui.Detail.{new_detail}
use go_salt_events.Ui.Detail.Render.{Decoded}
use go_salt_events.Ui.Messages.{
  ExportFunc, Exported, Msg, reader_error_msg, wrote, wrote_not_owned, wrote_nothing,
}
use go_salt_events.Ui.Root.{
  Model, Options, Pane, detail_pane, jobs_pane, live_pane, new_model, rate_pane, summary_pane,
}
use go_salt_events.Cmd.Capture
use go_salt_events.Cmd.Capture.{
  CaptureError, CaptureOptions, Captured, split_capture_args, split_flag,
}

abbrev pub flag_version : Bytes
flag_version = codes "version"

-- `splitVersionArg`
unfoldable pub split_version_arg : List Bytes → Bool
split_version_arg [] = false
split_version_arg (a ∷ args) =
    let (name, assigned) = split_flag a in
    if bytes_eq name flag_version && not (is_some assigned) then true else split_version_arg args

-- `panesFor`, with the decoder that it injects.
unfoldable pub panes_for : (Bytes → Decoded) → List Pane
panes_for decode_value =
    live_pane new_live
    ∷ detail_pane (new_detail (some decode_value))
    ∷ rate_pane false
    ∷ summary_pane
    ∷ jobs_pane new_jobs
    ∷ []

-- `themeName`
unfoldable pub theme_name : Config → Bytes
theme_name cfg = if cfg.no_color then mono_name else cfg.theme

-- What `exporter` answers for what `Write` returns.
unfoldable pub answer : Outcome → Exported
answer (Outcome.exported w) = wrote w
answer (Outcome.not_chowned w) = wrote_not_owned w
answer (Outcome.failed e) = wrote_nothing e

-- What a run meets outside the program: the environment, the passwd database, the files, the parser of
-- TOML, the flag package on the arguments; and, for a path that `os.Stat` fails on, for whatever reason,
-- what `Diagnose` says of that.
pub record Host : Type 0 where
  pub env : Bytes → Bytes
  pub home_for : Bytes → Option Bytes
  pub files : Bytes → FileRead
  pub parse_toml : Bytes → Option FileConfig
  pub parse_args : List Bytes → Arguments
  pub stat : Bytes → Option Bytes

-- And what an export meets: the clock, the free space, the ownership, the disk.
pub record ExportHost : Type 0 where
  pub lib : Library
  pub system : System
  pub disk : Disk
  pub now : Time
  pub space : Bytes → Option (ℕ × ℕ)
  pub chown : Bytes → Bool

-- `exporter`, on a host as it is when it runs.
unfoldable pub exporter : Host → ExportHost → (Bytes → Option Value) → Config → ExportFunc
unfolding answer
exporter host at decode_value cfg h q =
    answer
      (write at.lib at.system at.disk
        (record {
          dir = resolve_dir cfg.export_dir host.env host.home_for;
          max = cfg.export_max;
          now = at.now;
          space = some at.space;
          chown = some at.chown;
          decode = some decode_value;
        })
        (all_events h q)).0

-- What `run` does.
pub data Run (F : Type 0) : Type 0 where
  print_version : Run F
  bad_capture : CaptureError → Run F
  bad_config : LoadError → Run F
  capture_frames : Bytes → Bytes → ℕ → Run F
  bad_filter : QueryError → Run F
  no_stat : Bytes → Run F
  serve : Hub → Model F → Run F

-- The options that `serve` gives the root model.
unfoldable pub options_for : (Config → ExportFunc) → Config → Query → Options
unfolding theme_name
options_for export cfg query = record {
  theme = theme_name cfg;
  interval = pos 100000000;
  filter = query;
  sock_path = socket_path cfg.sock_dir;
  config_path = cfg.config_path;
  export = some (export cfg);
}

-- `serve`, up to the start of the reader and the program.
unfoldable pub serving :
    {F : Type 0} → (Bytes → Decoded) → (Config → ExportFunc) → Config → Query → Run F
unfolding panes_for options_for
serving decode_value export cfg query =
    let h = new_hub cfg.max_memory cfg.max_jobs in
    serve h (new_model (some h) (panes_for decode_value) (options_for export cfg query))

module _ {F : Type 0} (host : Host) (decode_value : Bytes → Decoded)
    (export : Config → ExportFunc) where
  -- `run`, from where the filter is parsed.
  unfoldable pub run_filtered : Config → ParsedQuery → Run F
  unfolding serving
  run_filtered cfg (refused err) = bad_filter err
  run_filtered cfg (accepted query) = elim (host.stat (socket_path cfg.sock_dir)) [
    | some diagnosis ↦ no_stat diagnosis
    | none ↦ serving decode_value export cfg query
  ]

  -- `run`, from where the configuration is loaded.
  unfoldable pub run_loaded : CaptureOptions → Loaded Config → Run F
  unfolding run_filtered
  run_loaded capture (rejected err) = bad_config err
  run_loaded capture (loaded cfg) =
      if ltb 0 capture.frames
      then capture_frames cfg.sock_dir capture.out capture.frames
      else run_filtered cfg (parse cfg.filter)

  -- `run`, from where the capture flags are split off.
  unfoldable pub run_split : Captured (CaptureOptions × List Bytes) → Run F
  unfolding run_loaded
  run_split (Capture.refused err) = bad_capture err
  run_split (Capture.ok (capture, rest)) =
      run_loaded capture
        (load host.env host.home_for host.files host.parse_toml (host.parse_args rest))

  -- `run`
  unfoldable pub run : List Bytes → Run F
  unfolding split_version_arg run_split
  run args = if split_version_arg args then print_version else run_split (split_capture_args args)

-- `reportReaderFailure`, for what `Diagnose` says of the error, if there is one.
unfoldable pub report_reader_failure : Option Bytes → Option Msg
report_reader_failure none = none
report_reader_failure (some diagnosis) = some (reader_error_msg diagnosis)
