-- ===== src/Config/Load.antt =====
-- internal/config/config.go: the layers of the configuration, from the defaults to the flags.
pub mod Environment
pub mod Layers
pub mod Outcome
use go_salt_events.Base.{
  Bool, Bytes, Option, [], bytes_eq, false, if◌then◌else◌, negsuc, none, not, pos, set, some, ℤ,
  ◌&&◌, ◌==◌, ◌∷◌,
}
use go_salt_events.Base.Strconv.{parse_bool, parse_int}
use go_salt_events.Model.Job.{is_some}
use go_salt_events.Config.Paths.{
  clean, default_cache_dir, default_sock_dir, resolve_config_path, resolve_sock_dir,
}
use go_salt_events.Config.Settings.{
  Arguments, Config, FileConfig, FileRead, Given, LoadError, Loaded, bad_env, bad_export_max,
  bad_flags, bad_max_jobs, bad_max_memory, contents, default_export_max, default_max_jobs,
  default_max_memory, default_theme, defaults, empty_sock_dir, env_export_dir, env_export_max,
  env_filter, env_max_jobs, env_max_memory, env_no_color, env_sock_dir, env_theme, flag_export_dir,
  flag_export_max, flag_filter, flag_max_jobs, flag_max_memory, flag_no_color, flag_sock_dir,
  flag_theme, given, help, loaded, malformed, not_exist, not_readable, rejected, unparseable,
  unreadable, wants_help, ◌>>=◌,
}

pub record FlagValues : Type 0 where
  pub cfg : Config
  pub set : Bytes → Bool

-- `if v != nil { dst = *v }`
abbrev pub over {ℓ} : {A : Type ℓ} → Option A → A → A
over none old = old
over (some v) old = v

-- The map of the flags that were given; a missing key reads as false.
unfoldable pub visited : Given → Bytes → Bool
visited g name =
    if bytes_eq name flag_sock_dir
    then is_some g.sock_dir
    else if bytes_eq name flag_theme
    then is_some g.theme
    else if bytes_eq name flag_export_dir
    then is_some g.export_dir
    else if bytes_eq name flag_filter
    then is_some g.filter
    else if bytes_eq name flag_max_memory
    then is_some g.max_memory
    else if bytes_eq name flag_export_max
    then is_some g.export_max
    else if bytes_eq name flag_max_jobs
    then is_some g.max_jobs
    else if bytes_eq name flag_no_color
    then is_some g.no_color
    else false

-- The end of `parseFlags`: the flags start from the defaults.
unfoldable pub flag_values : Given → FlagValues
unfolding visited
flag_values g = record {
  cfg = record defaults {
    sock_dir = over g.sock_dir default_sock_dir;
    theme = over g.theme default_theme;
    export_dir = over g.export_dir [];
    filter = over g.filter [];
    max_memory = over g.max_memory (pos default_max_memory);
    export_max = over g.export_max (pos default_export_max);
    max_jobs = over g.max_jobs (pos default_max_jobs);
    no_color = over g.no_color false;
  };
  set = visited g;
}

-- `parseFlags`
unfoldable pub parse_flags : Arguments → Loaded (FlagValues × Bytes)
unfolding flag_values
parse_flags (given g) = loaded (flag_values g, over g.config [])
parse_flags wants_help = rejected help
parse_flags malformed = rejected bad_flags

-- `applyFlags`
unfoldable pub apply_flags : Config → FlagValues → Config
apply_flags cfg flags = record cfg {
  sock_dir = if flags.set flag_sock_dir then flags.cfg.sock_dir else cfg.sock_dir;
  theme = if flags.set flag_theme then flags.cfg.theme else cfg.theme;
  export_dir = if flags.set flag_export_dir then flags.cfg.export_dir else cfg.export_dir;
  filter = if flags.set flag_filter then flags.cfg.filter else cfg.filter;
  max_memory = if flags.set flag_max_memory then flags.cfg.max_memory else cfg.max_memory;
  export_max = if flags.set flag_export_max then flags.cfg.export_max else cfg.export_max;
  max_jobs = if flags.set flag_max_jobs then flags.cfg.max_jobs else cfg.max_jobs;
  no_color = if flags.set flag_no_color then flags.cfg.no_color else cfg.no_color;
}

-- `if v := env(key); v != "" { dst = v }`
abbrev pub over_text : Bytes → Bytes → Bytes
over_text [] old = old
over_text (c ∷ v) old = c ∷ v

-- `envInt64`, `envInt` and `envBool` on the value of a variable: the new setting, or an error that names
-- the variable.
unfoldable pub read_value {ℓ} : {A : Type ℓ} → (Bytes → Option A) → Bytes → Bytes → A → Loaded A
read_value parse name [] old = loaded old
read_value parse name (c ∷ v) old = elim (parse (c ∷ v)) [
  | none ↦ rejected (bad_env name)
  | some x ↦ loaded x
]

abbrev pub env_value {ℓ} :
    {A : Type ℓ} → (Bytes → Option A) → (Bytes → Bytes) → Bytes → A → Loaded A
env_value parse env name old = read_value parse name (env name) old

-- `applyEnv`
unfoldable pub apply_env : Config → (Bytes → Bytes) → Loaded Config
unfolding read_value
apply_env cfg env = do
  let texts = record cfg {
    sock_dir = over_text (env env_sock_dir) cfg.sock_dir;
    theme = over_text (env env_theme) cfg.theme;
    export_dir = over_text (env env_export_dir) cfg.export_dir;
    filter = over_text (env env_filter) cfg.filter;
  }
  max_memory ← env_value parse_int env env_max_memory cfg.max_memory
  export_max ← env_value parse_int env env_export_max cfg.export_max
  max_jobs ← env_value parse_int env env_max_jobs cfg.max_jobs
  no_color ← env_value parse_bool env env_no_color cfg.no_color
  loaded (record texts {
    max_memory = max_memory;
    export_max = export_max;
    max_jobs = max_jobs;
    no_color = no_color;
  })

-- `applyFile`
unfoldable pub apply_file : Config → FileConfig → Config
apply_file cfg file = record cfg {
  sock_dir = over file.sock_dir cfg.sock_dir;
  theme = over file.theme cfg.theme;
  export_dir = over file.export_dir cfg.export_dir;
  filter = over file.filter cfg.filter;
  max_memory = over file.max_memory cfg.max_memory;
  export_max = over file.export_max cfg.export_max;
  max_jobs = over file.max_jobs cfg.max_jobs;
  no_color = over file.no_color cfg.no_color;
}

abbrev pub is_positive : ℤ → Bool
is_positive (pos n) = not (n == 0)
is_positive (negsuc _) = false

-- `validate`
unfoldable pub validate : Config → Option LoadError
validate cfg =
    if bytes_eq cfg.sock_dir []
    then some empty_sock_dir
    else if not (is_positive cfg.max_memory)
    then some (bad_max_memory cfg.max_memory)
    else if not (is_positive cfg.max_jobs)
    then some (bad_max_jobs cfg.max_jobs)
    else if not (is_positive cfg.export_max)
    then some (bad_export_max cfg.export_max)
    else none

abbrev pub empty_file : FileConfig
empty_file = record {
  sock_dir = none;
  theme = none;
  export_dir = none;
  filter = none;
  max_memory = none;
  export_max = none;
  max_jobs = none;
  no_color = none;
}

-- `readConfigFile`; `files` is what reading each path yields, and the parser is a library's.
unfoldable pub read_config_file :
    (Bytes → FileRead) → (Bytes → Option FileConfig) → Bytes → Loaded FileConfig
read_config_file files parse_toml path = elim (files (clean path)) [
  | not_exist ↦ loaded empty_file
  | not_readable ↦ rejected (unreadable path)
  | contents data_of ↦ elim (parse_toml data_of) [
    | none ↦ rejected (unparseable path)
    | some file ↦ loaded file
  ]
]

-- The sock_dir that `Load` derives when nobody has named one.
unfoldable pub derive_sock_dir : (Bytes → Bytes) → FileConfig → FlagValues → Config → Config
derive_sock_dir env file flags cfg = record cfg {
  sock_dir =
      if not (is_some file.sock_dir)
        && (bytes_eq (env env_sock_dir) [] && not (flags.set flag_sock_dir))
      then resolve_sock_dir cfg.sock_dir default_cache_dir
      else cfg.sock_dir;
}

-- The end of `Load`.
abbrev pub checked : Config → Loaded Config
checked cfg = elim (validate cfg) [ none ↦ loaded cfg | some err ↦ rejected err ]

-- `Load`, with the environment, the lookup of a user's home, the files and the parser.
unfoldable pub load :
    (Bytes → Bytes)
    → (Bytes → Option Bytes)
    → (Bytes → FileRead)
    → (Bytes → Option FileConfig)
    → Arguments
    → Loaded Config
unfolding parse_flags read_config_file apply_file apply_env apply_flags derive_sock_dir validate
load env home_for files parse_toml args = do
  (flags, explicit) ← parse_flags args
  let path = resolve_config_path explicit env home_for
  file ← read_config_file files parse_toml path
  cfg ← apply_env (apply_file (record defaults { config_path = path }) file) env
  checked (derive_sock_dir env file flags (apply_flags cfg flags))
