-- ===== src/Config/Load/Layers.antt =====
-- internal/config/config.go: which layer each setting comes from.
use go_salt_events.Base.{
  Bytes, Option, [], bytes_eq, false, if◌then◌else◌, none, not, pos, refl, some, ◌&&◌, ◌∷◌, ◌≡◌,
}
use go_salt_events.Base.Strconv.{parse_bool, parse_int}
use go_salt_events.Model.Job.{is_some}
use go_salt_events.Config.Paths.{default_cache_dir, default_sock_dir, resolve_sock_dir}
use go_salt_events.Config.Settings.{
  Config, FileConfig, Given, default_export_max, default_max_jobs, default_max_memory,
  default_theme, defaults, env_export_dir, env_export_max, env_filter, env_max_jobs, env_max_memory,
  env_no_color, env_sock_dir, env_theme,
}
use go_salt_events.Config.Load.{
  apply_file, apply_flags, derive_sock_dir, flag_values, over, over_text, visited,
}
use go_salt_events.Config.Load.Environment.{Applied, set_text, set_value}

-- The first that is there: a flag, the environment, the file, the default.
abbrev pub first_of {ℓ} : {A : Type ℓ} → Option A → Option A → Option A → A → A
first_of (some x) _ _ _ = x
first_of none (some x) _ _ = x
first_of none none (some x) _ = x
first_of none none none x = x

module _ (env : Bytes → Bytes) (g : Given) (file : FileConfig) where
  -- Each setting is the one of the first layer that has it.
  pub record Layered (path : Bytes) (cfg : Config) : Type 0 where
    pub sock_dir :
        cfg.sock_dir
        ≡ first_of g.sock_dir (set_text (env env_sock_dir)) file.sock_dir default_sock_dir
    pub config_path : cfg.config_path ≡ path
    pub theme : cfg.theme ≡ first_of g.theme (set_text (env env_theme)) file.theme default_theme
    pub export_dir :
        cfg.export_dir ≡ first_of g.export_dir (set_text (env env_export_dir)) file.export_dir []
    pub filter : cfg.filter ≡ first_of g.filter (set_text (env env_filter)) file.filter []
    pub max_memory :
        cfg.max_memory
        ≡ first_of g.max_memory
            (set_value parse_int (env env_max_memory))
            file.max_memory
            (pos default_max_memory)
    pub export_max :
        cfg.export_max
        ≡ first_of g.export_max
            (set_value parse_int (env env_export_max))
            file.export_max
            (pos default_export_max)
    pub max_jobs :
        cfg.max_jobs
        ≡ first_of g.max_jobs
            (set_value parse_int (env env_max_jobs))
            file.max_jobs
            (pos default_max_jobs)
    pub no_color :
        cfg.no_color
        ≡ first_of g.no_color (set_value parse_bool (env env_no_color)) file.no_color false

-- The environment over the file over the default, under a flag.
flag_over {ℓ} :
    {A : Type ℓ} (f e p : Option A) (d : A)
    → (if is_some f then over f d else over e (over p d)) ≡ first_of f e p d
flag_over (some x) e p d = refl
flag_over none (some x) p d = refl
flag_over none none (some x) d = refl
flag_over none none none d = refl

over_text-set : (v old : Bytes) → over_text v old ≡ over (set_text v) old
over_text-set [] old = refl
over_text-set (c ∷ v) old = refl

-- The derivation of the socket's directory leaves Salt's own default as it is.
derived-first :
    (f : Option Bytes) (v : Bytes) (p : Option Bytes)
    → (let x =
          if is_some f then over f default_sock_dir else over_text v (over p default_sock_dir) in
        if not (is_some p) && (bytes_eq v [] && not (is_some f))
        then resolve_sock_dir x default_cache_dir
        else x)
      ≡ first_of f (set_text v) p default_sock_dir
unfolding resolve_sock_dir bytes_eq
derived-first (some x) [] none = refl
derived-first (some x) (c ∷ v) none = refl
derived-first (some x) v (some y) = refl
derived-first none [] none = refl
derived-first none (c ∷ v) none = refl
derived-first none [] (some y) = refl
derived-first none (c ∷ v) (some y) = refl

module _ (env : Bytes → Bytes) (g : Given) (file : FileConfig) (path : Bytes) where
  -- The settings after the flags, and after the directory is derived.
  pub derived-Layered :
      (cfg : Config)
      → Applied env (apply_file (record defaults { config_path = path }) file) cfg
      → Layered env g file path
          (derive_sock_dir env file (flag_values g) (apply_flags cfg (flag_values g)))
  unfolding derive_sock_dir apply_flags flag_values visited apply_file bytes_eq
  derived-Layered cfg a = record {
    sock_dir = rw a.sock_dir (derived-first g.sock_dir (env env_sock_dir) file.sock_dir);
    config_path = a.config_path;
    theme =
        rw (a.theme, over_text-set (env env_theme) (over file.theme default_theme))
          (flag_over g.theme (set_text (env env_theme)) file.theme default_theme);
    export_dir =
        rw (a.export_dir, over_text-set (env env_export_dir) (over file.export_dir []))
          (flag_over g.export_dir (set_text (env env_export_dir)) file.export_dir []);
    filter =
        rw (a.filter, over_text-set (env env_filter) (over file.filter []))
          (flag_over g.filter (set_text (env env_filter)) file.filter []);
    max_memory = rw a.max_memory (
        flag_over g.max_memory (set_value parse_int (env env_max_memory)) file.max_memory
          (pos default_max_memory));
    export_max = rw a.export_max (
        flag_over g.export_max (set_value parse_int (env env_export_max)) file.export_max
          (pos default_export_max));
    max_jobs = rw a.max_jobs (
        flag_over g.max_jobs (set_value parse_int (env env_max_jobs)) file.max_jobs
          (pos default_max_jobs));
    no_color =
        rw a.no_color
          (flag_over g.no_color (set_value parse_bool (env env_no_color)) file.no_color false);
  }
