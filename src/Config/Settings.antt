-- ===== src/Config/Settings.antt =====
-- internal/config/config.go: the settings, where they come from, and the errors of loading them.
use go_salt_events.Base.{Bool, Bytes, Option, [], codes, false, pos, ℕ, ℤ}
use go_salt_events.Config.Paths.{default_sock_dir}

abbrev pub default_max_memory : ℕ
default_max_memory = 268435456

abbrev pub default_max_jobs : ℕ
default_max_jobs = 500

abbrev pub default_export_max : ℕ
default_export_max = 1073741824

abbrev pub default_theme : Bytes
default_theme = codes "gruvbox-dark"

abbrev pub flag_sock_dir : Bytes
flag_sock_dir = codes "sock-dir"

abbrev pub flag_theme : Bytes
flag_theme = codes "theme"

abbrev pub flag_export_dir : Bytes
flag_export_dir = codes "export-dir"

abbrev pub flag_filter : Bytes
flag_filter = codes "filter"

abbrev pub flag_max_memory : Bytes
flag_max_memory = codes "max-memory"

abbrev pub flag_export_max : Bytes
flag_export_max = codes "export-max"

abbrev pub flag_max_jobs : Bytes
flag_max_jobs = codes "max-jobs"

abbrev pub flag_no_color : Bytes
flag_no_color = codes "no-color"

abbrev pub env_sock_dir : Bytes
env_sock_dir = codes "SALTEV_SOCK_DIR"

abbrev pub env_theme : Bytes
env_theme = codes "SALTEV_THEME"

abbrev pub env_export_dir : Bytes
env_export_dir = codes "SALTEV_EXPORT_DIR"

abbrev pub env_filter : Bytes
env_filter = codes "SALTEV_FILTER"

abbrev pub env_max_memory : Bytes
env_max_memory = codes "SALTEV_MAX_MEMORY"

abbrev pub env_export_max : Bytes
env_export_max = codes "SALTEV_EXPORT_MAX"

abbrev pub env_max_jobs : Bytes
env_max_jobs = codes "SALTEV_MAX_JOBS"

abbrev pub env_no_color : Bytes
env_no_color = codes "SALTEV_NO_COLOR"

pub record Config : Type 0 where
  pub sock_dir : Bytes
  pub config_path : Bytes
  pub export_dir : Bytes
  pub theme : Bytes
  pub filter : Bytes
  pub max_memory : ℤ
  pub export_max : ℤ
  pub max_jobs : ℤ
  pub no_color : Bool

-- `fileConfig`: a key that the file does not have is `none`.
pub record FileConfig : Type 0 where
  pub sock_dir : Option Bytes
  pub theme : Option Bytes
  pub export_dir : Option Bytes
  pub filter : Option Bytes
  pub max_memory : Option ℤ
  pub export_max : Option ℤ
  pub max_jobs : Option ℤ
  pub no_color : Option Bool

-- What `fset.Parse` and `fset.Visit` make of the arguments: the last value given to each flag, and none
-- for a flag that is not given.
pub record Given : Type 0 where
  pub config : Option Bytes
  pub sock_dir : Option Bytes
  pub theme : Option Bytes
  pub export_dir : Option Bytes
  pub filter : Option Bytes
  pub max_memory : Option ℤ
  pub export_max : Option ℤ
  pub max_jobs : Option ℤ
  pub no_color : Option Bool

-- Or an error: `ErrHelp`, or that the arguments do not parse.
pub data Arguments : Type 0 where
  given : Given → Arguments
  wants_help : Arguments
  malformed : Arguments

-- What reading a file yields.
pub data FileRead : Type 0 where
  contents : Bytes → FileRead
  not_exist : FileRead
  not_readable : FileRead

pub data LoadError : Type 0 where
  help : LoadError
  bad_flags : LoadError
  unreadable : Bytes → LoadError
  unparseable : Bytes → LoadError
  bad_env : Bytes → LoadError
  empty_sock_dir : LoadError
  bad_max_memory : ℤ → LoadError
  bad_max_jobs : ℤ → LoadError
  bad_export_max : ℤ → LoadError

pub data Loaded {ℓ} (A : Type ℓ) : Type ℓ where
  loaded : A → Loaded A
  rejected : LoadError → Loaded A

infixl 5 ◌>>=◌
abbrev pub ◌>>=◌ {ℓ κ} : {A : Type ℓ} {B : Type κ} → Loaded A → (A → Loaded B) → Loaded B
loaded a >>= f = f a
rejected e >>= f = rejected e

-- `defaults`
abbrev pub defaults : Config
defaults = record {
  sock_dir = default_sock_dir;
  config_path = [];
  export_dir = [];
  theme = default_theme;
  filter = [];
  max_memory = pos default_max_memory;
  export_max = pos default_export_max;
  max_jobs = pos default_max_jobs;
  no_color = false;
}
