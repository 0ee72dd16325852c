-- ===== src/Config/Load/Outcome.antt =====
-- internal/config/config.go: what `Load` yields, a usable configuration or an error with its reason.
use go_salt_events.Base.{
  Bytes, Option, Option-cases, [], ap, arith, bytes_eq, inl, inr, none, refl, some, subst, sym,
  true, ◌∙◌, ◌≡◌, ◌≢◌, ◌⊎◌,
}
use go_salt_events.Config.Paths.{clean, resolve_config_path}
use go_salt_events.Config.Settings.{
  Config, FileConfig, FileRead, Given, LoadError, Loaded, bad_env, contents, defaults, given,
  loaded, not_exist, not_readable, rejected, unparseable, unreadable,
}
use go_salt_events.Config.Load.{
  apply_env, apply_file, checked, is_positive, load, over, parse_flags, read_config_file, validate,
}
use go_salt_events.Config.Load.Environment.{Applies, Unreadable, apply_env-Applies, bind-Holds}
use go_salt_events.Config.Load.Layers.{Layered, derived-Layered}

-- A configuration that `validate` lets pass.
pub record IsUsable (cfg : Config) : Type 0 where
  pub sock_dir : cfg.sock_dir ≢ []
  pub max_memory : is_positive cfg.max_memory ≡ true
  pub max_jobs : is_positive cfg.max_jobs ≡ true
  pub export_max : is_positive cfg.export_max ≡ true

validate-IsUsable : (cfg : Config) → validate cfg ≡ none → IsUsable cfg
unfolding validate bytes_eq
validate-IsUsable cfg h = record {
  sock_dir = λ e. ground (arith, h, ap (λ s. bytes_eq s []) e);
  max_memory = ground (arith, h);
  max_jobs = ground (arith, h);
  export_max = ground (arith, h);
}

module _ (env : Bytes → Bytes) (home_for : Bytes → Option Bytes) (files : Bytes → FileRead)
    (parse_toml : Bytes → Option FileConfig) (g : Given) where
  abbrev pub path_of : Bytes
  path_of = resolve_config_path (over g.config []) env home_for

  -- Why loading fails once the arguments parse.
  pub data Fault : LoadError → Type 0 where
    no_read : files (clean path_of) ≡ not_readable → Fault (unreadable path_of)
    no_parse :
        (b : Bytes)
        → files (clean path_of) ≡ contents b
        → parse_toml b ≡ none
        → Fault (unparseable path_of)
    no_value : (name : Bytes) → Unreadable env name → Fault (bad_env name)
    no_use :
        (file : FileConfig) (cfg : Config) (err : LoadError)
        → read_config_file files parse_toml path_of ≡ loaded file
        → Layered env g file path_of cfg
        → validate cfg ≡ some err
        → Fault err

  -- What `Load` yields.
  abbrev pub Yields : Loaded Config → Type 0
  Yields (rejected err) = Fault err
  Yields (loaded cfg) =
      (file : FileConfig) × (read_config_file files parse_toml path_of ≡ loaded file)
      × Layered env g file path_of cfg
      × IsUsable cfg

checked-Yields :
    (env : Bytes → Bytes) (home_for : Bytes → Option Bytes) (files : Bytes → FileRead)
    (parse_toml : Bytes → Option FileConfig) (g : Given) (file : FileConfig) (cfg : Config)
    → read_config_file files parse_toml (path_of env home_for files parse_toml g) ≡ loaded file
    → Layered env g file (path_of env home_for files parse_toml g) cfg
    → Yields env home_for files parse_toml g (checked cfg)
checked-Yields env home_for files parse_toml g file cfg reads h =
    elim (Option-cases (validate cfg)) [
      | inl fine ↦ rw (checked, fine) (file, reads, h, validate-IsUsable cfg fine)
      | inr (err, bad) ↦ rw (checked, bad) (no_use file cfg err reads h bad)
    ]

rejected_inj {ℓ} :
    {A : Type ℓ} {d e : LoadError} → Path (Loaded A) (rejected d) (rejected e) → d ≡ e
rejected_inj h = cc

FileRead-cases :
    (r : FileRead) → (r ≡ not_exist) ⊎ ((r ≡ not_readable) ⊎ ((b : Bytes) × (r ≡ contents b)))
FileRead-cases not_exist = inl refl
FileRead-cases not_readable = inr (inl refl)
FileRead-cases (contents b) = inr (inr (b, refl))

-- Reading the file fails for one of two reasons.
read-Fault :
    (env : Bytes → Bytes) (home_for : Bytes → Option Bytes) (files : Bytes → FileRead)
    (parse_toml : Bytes → Option FileConfig) (g : Given) (e : LoadError)
    → read_config_file files parse_toml (path_of env home_for files parse_toml g) ≡ rejected e
    → Fault env home_for files parse_toml g e
unfolding read_config_file
read-Fault env home_for files parse_toml g e h =
    let path = path_of env home_for files parse_toml g in
    let F = Fault env home_for files parse_toml g in
    elim (FileRead-cases (files (clean path))) [
      | inl absent ↦ ground (arith, h, absent)
      | inr (inl shut) ↦
          subst F (rejected_inj (sym (rw (read_config_file, shut) refl) ∙ h)) (no_read shut)
      | inr (inr (b, holds)) ↦ elim (Option-cases (parse_toml b)) [
        | inl bad ↦
            subst F (rejected_inj (sym (rw (read_config_file, holds, bad) refl) ∙ h))
              (no_parse b holds bad)
        | inr (file, good) ↦ ground (arith, h, holds, good)
      ]
    ]

-- Whatever the flags, the environment and the file say, loading yields a configuration in which each
-- setting is that of the first layer that has it (the flag, then the environment, the file and the
-- default), whose socket directory is not empty and whose three limits are positive; or an error with
-- its reason: the file cannot be read or parsed, a variable is set to what its parser refuses, or the
-- settings so layered are not usable. A file that does not exist is no error.
pub load-Yields :
    (env : Bytes → Bytes) (home_for : Bytes → Option Bytes) (files : Bytes → FileRead)
    (parse_toml : Bytes → Option FileConfig) (g : Given)
    → Yields env home_for files parse_toml g (load env home_for files parse_toml (given g))
unfolding load parse_flags
load-Yields env home_for files parse_toml g =
    let path = path_of env home_for files parse_toml g in
    let P = Yields env home_for files parse_toml g in
    bind-Holds P (read_config_file files parse_toml path) _
      (λ file reads.
        let start = apply_file (record defaults { config_path = path }) file in
        let a = apply_env-Applies env start in
        bind-Holds P (apply_env start env) _
          (λ cfg eq.
            checked-Yields env home_for files parse_toml g file _ reads
              (derived-Layered env g file path cfg (subst (Applies env start) eq a)))
          (λ e eq.
            let (name, same, why) = subst (Applies env start) eq a in
            subst (Fault env home_for files parse_toml g) (sym same) (no_value name why)))
      (read-Fault env home_for files parse_toml g)
