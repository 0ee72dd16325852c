-- ===== src/Config/Load/Environment.antt =====
-- internal/config/config.go: what `applyEnv` makes of the environment.
use go_salt_events.Base.{
  Bytes, Option, Option-cases, [], inl, inr, none, refl, some, subst, sym, ◌∷◌, ◌≡◌, ◌≢◌,
}
use go_salt_events.Base.Strconv.{parse_bool, parse_int}
use go_salt_events.Config.Settings.{
  Config, LoadError, Loaded, bad_env, env_export_dir, env_export_max, env_filter, env_max_jobs,
  env_max_memory, env_no_color, env_sock_dir, env_theme, loaded, rejected, ◌>>=◌,
}
use go_salt_events.Config.Load.{apply_env, env_value, over, over_text, read_value}

-- A variable that is set to something, and one that is and parses.
abbrev pub set_text : Bytes → Option Bytes
set_text [] = none
set_text (c ∷ v) = some (c ∷ v)

abbrev pub set_value {ℓ} : {A : Type ℓ} → (Bytes → Option A) → Bytes → Option A
set_value parse [] = none
set_value parse (c ∷ v) = parse (c ∷ v)

-- What reading a variable yields: its value, the setting of before where it is empty, or an error.
abbrev Reads : {A : Type 0} → (Bytes → Option A) → Bytes → Bytes → A → Loaded A → Type 0
Reads parse name v old (loaded x) = x ≡ over (set_value parse v) old
Reads parse name v old (rejected e) = (e ≡ bad_env name) × (v ≢ []) × (parse v ≡ none)

read_value-Reads :
    {A : Type 0} (parse : Bytes → Option A) (name v : Bytes) (old : A)
    → Reads parse name v old (read_value parse name v old)
unfolding read_value
read_value-Reads parse name [] old = refl
read_value-Reads parse name (c ∷ v) old = elim (Option-cases (parse (c ∷ v))) [
  | inl bad ↦ rw (read_value, bad) (refl, (λ e. cc), bad)
  | inr (x, good) ↦ rw (read_value, good) (sym (rw (Reads, good) refl))
]

pub bind-Holds :
    {A : Type 0} (P : Loaded Config → Type 0) (m : Loaded A) (f : A → Loaded Config)
    → ((a : A) → m ≡ loaded a → P (f a))
    → ((e : LoadError) → m ≡ rejected e → P (rejected e))
    → P (m >>= f)
bind-Holds P (loaded a) f goes_on stops = goes_on a refl
bind-Holds P (rejected e) f goes_on stops = stops e refl

module _ (env : Bytes → Bytes) where
  -- The environment over a configuration.
  pub record Applied (old cfg : Config) : Type 0 where
    pub sock_dir : cfg.sock_dir ≡ over_text (env env_sock_dir) old.sock_dir
    pub config_path : cfg.config_path ≡ old.config_path
    pub theme : cfg.theme ≡ over_text (env env_theme) old.theme
    pub export_dir : cfg.export_dir ≡ over_text (env env_export_dir) old.export_dir
    pub filter : cfg.filter ≡ over_text (env env_filter) old.filter
    pub max_memory : cfg.max_memory ≡ over (set_value parse_int (env env_max_memory)) old.max_memory
    pub export_max : cfg.export_max ≡ over (set_value parse_int (env env_export_max)) old.export_max
    pub max_jobs : cfg.max_jobs ≡ over (set_value parse_int (env env_max_jobs)) old.max_jobs
    pub no_color : cfg.no_color ≡ over (set_value parse_bool (env env_no_color)) old.no_color

  -- The variables that do not parse: one that is set, and that its parser refuses.
  pub data Unreadable : Bytes → Type 0 where
    bad_memory :
        env env_max_memory ≢ [] → parse_int (env env_max_memory) ≡ none → Unreadable env_max_memory
    bad_room :
        env env_export_max ≢ [] → parse_int (env env_export_max) ≡ none → Unreadable env_export_max
    bad_jobs : env env_max_jobs ≢ [] → parse_int (env env_max_jobs) ≡ none → Unreadable env_max_jobs
    bad_color :
        env env_no_color ≢ [] → parse_bool (env env_no_color) ≡ none → Unreadable env_no_color

  abbrev pub Applies : Config → Loaded Config → Type 0
  Applies old (loaded cfg) = Applied old cfg
  Applies old (rejected e) = (name : Bytes) × (e ≡ bad_env name) × Unreadable name

  fails-Applies :
      {A : Type 0} (parse : Bytes → Option A) (name : Bytes) (old : A) (cfg : Config)
      (e : LoadError)
      → (env name ≢ [] → parse (env name) ≡ none → Unreadable name)
      → env_value parse env name old ≡ rejected e
      → Applies cfg (rejected e)
  fails-Applies parse name old cfg e reason h =
      let (same, there, refused) =
        subst (Reads parse name (env name) old) h (read_value-Reads parse name (env name) old) in
      (name, same, reason there refused)

  value_of :
      {A : Type 0} (parse : Bytes → Option A) (name : Bytes) (old x : A)
      → env_value parse env name old ≡ loaded x
      → x ≡ over (set_value parse (env name)) old
  value_of parse name old x h =
      subst (Reads parse name (env name) old) h (read_value-Reads parse name (env name) old)

  pub apply_env-Applies : (cfg : Config) → Applies cfg (apply_env cfg env)
  unfolding apply_env
  apply_env-Applies cfg =
      bind-Holds (Applies cfg) (env_value parse_int env env_max_memory cfg.max_memory) _
        (λ m hm.
          bind-Holds (Applies cfg) (env_value parse_int env env_export_max cfg.export_max) _
            (λ x hx.
              bind-Holds (Applies cfg) (env_value parse_int env env_max_jobs cfg.max_jobs) _
                (λ j hj.
                  bind-Holds (Applies cfg) (env_value parse_bool env env_no_color cfg.no_color) _
                    (λ c hc. record {
                      sock_dir = refl;
                      config_path = refl;
                      theme = refl;
                      export_dir = refl;
                      filter = refl;
                      max_memory = value_of parse_int env_max_memory cfg.max_memory m hm;
                      export_max = value_of parse_int env_export_max cfg.export_max x hx;
                      max_jobs = value_of parse_int env_max_jobs cfg.max_jobs j hj;
                      no_color = value_of parse_bool env_no_color cfg.no_color c hc;
                    })
                    (λ e. fails-Applies parse_bool env_no_color cfg.no_color cfg e bad_color))
                (λ e. fails-Applies parse_int env_max_jobs cfg.max_jobs cfg e bad_jobs))
            (λ e. fails-Applies parse_int env_export_max cfg.export_max cfg e bad_room))
        (λ e. fails-Applies parse_int env_max_memory cfg.max_memory cfg e bad_memory)
