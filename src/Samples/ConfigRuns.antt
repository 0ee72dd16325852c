-- ===== src/Samples/ConfigRuns.antt =====
-- internal/config: loading with one flag, one variable and a file.
use go_salt_events.Base.{
  Bytes, Option, [], bytes_eq, codes, if◌then◌else◌, none, pos, refl, some, ◌≡◌,
}
use go_salt_events.Config.Settings.{
  FileConfig, FileRead, Given, bad_env, bad_export_max, contents, given, rejected,
}
use go_salt_events.Config.Load.{empty_file, load}
use go_salt_events.Base.Strconv.{parse_int}
use go_salt_events.Config.Paths.{resolve_sock_dir}
use go_salt_events.Config.Load.Outcome.{Yields, load-Yields}

abbrev one_flag : Given
one_flag = record {
  config = some (codes "/etc/a.toml");
  sock_dir = none;
  theme = some (codes "plain");
  export_dir = none;
  filter = none;
  max_memory = none;
  export_max = none;
  max_jobs = none;
  no_color = none;
}

abbrev jobs_set : Bytes → Bytes
jobs_set name = if bytes_eq name (codes "SALTEV_MAX_JOBS") then codes "12" else []

abbrev jobs_bad : Bytes → Bytes
jobs_bad name = if bytes_eq name (codes "SALTEV_MAX_JOBS") then codes "1x" else []

abbrev nobody : Bytes → Option Bytes
nobody user = none

abbrev one_file : Bytes → FileRead
one_file path = contents (codes "theme")

abbrev themed : Bytes → Option FileConfig
themed b = some (record empty_file { theme = some (codes "dark"); export_max = some (pos 0) })

load-Yields_example :
    Yields jobs_set nobody one_file themed one_flag
      (load jobs_set nobody one_file themed (given one_flag))
load-Yields_example = load-Yields jobs_set nobody one_file themed one_flag

no_export_room :
    load jobs_set nobody one_file themed (given one_flag) ≡ rejected (bad_export_max (pos 0))
unfolding load bytes_eq parse_int resolve_sock_dir
no_export_room = refl

bad_jobs :
    load jobs_bad nobody one_file themed (given one_flag)
    ≡ rejected (bad_env (codes "SALTEV_MAX_JOBS"))
unfolding load bytes_eq parse_int
bad_jobs = refl
