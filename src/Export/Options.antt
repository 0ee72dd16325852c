-- ===== src/Export/Options.antt =====
-- internal/export/export.go: the options, the record of a line and the results, with what the code takes from
-- Go's library.
use go_salt_events.Base.{Bool, Bytes, Option, [], codes, none, some, ℕ, ℤ, ◌∷◌}
use go_salt_events.Model.Event.{Event, Time}
use go_salt_events.Saltipc.Value.{Value}
use go_salt_events.Export.JsonSafe.{Formats}

abbrev pub record_overhead : ℕ
record_overhead = 160

abbrev pub min_headroom : ℕ
min_headroom = 1073741824

abbrev pub partial_suffix : Bytes
partial_suffix = codes ".partial"

abbrev pub max_attempts : ℕ
max_attempts = 100

-- `record`, one line of an export; a nil field is `none`.
pub record Line : Type 0 where
  pub arrival : Bytes
  pub stamp : Bytes
  pub tag : Bytes
  pub namespace : Bytes
  pub category : Bytes
  pub jid : Bytes
  pub minion : Bytes
  pub fun : Bytes
  pub ret_code : Option ℤ
  pub success : Option Bool
  pub payload : Option Value
  pub payload_truncated : Bool
  pub master_trimmed : Bool

-- What the code takes from Go's library: two formats of an instant, `json.Marshal`, an int64 as the nearest
-- float64 (a whole number), and the int64 of a tenth of it.
pub record Library : Type 0 where
  pub formats : Formats
  pub rfc3339 : Time → Bytes
  pub file_stamp : Time → Bytes
  pub marshal : Line → Option Bytes
  pub as_float : ℕ → ℕ
  pub tenth : ℕ → ℕ

pub record Options : Type 0 where
  pub dir : Bytes
  pub max : ℤ
  pub now : Time
  pub space : Option (Bytes → Option (ℕ × ℕ))
  pub chown : Option (Bytes → Bool)
  pub decode : Option (Bytes → Option Value)

pub data ExportError : Type 0 where
  no_dir bad_max no_space_checker no_decoder : ExportError
  over_max : ExportError
  no_free_space : ExportError
  insufficient_space : ExportError
  no_name : ExportError
  not_created not_written not_synced not_closed not_renamed : ExportError
  not_encoded : Event → ExportError
  not_removed : ExportError → ExportError

pub record Written : Type 0 where
  pub path : Bytes
  pub events : ℕ
  pub bytes : ℕ

pub data Outcome : Type 0 where
  exported : Written → Outcome
  not_chowned : Written → Outcome
  failed : ExportError → Outcome

-- `ResolveDir`; `home_for` is the lookup of a user's home.
unfoldable pub resolve_dir : Bytes → (Bytes → Bytes) → (Bytes → Option Bytes) → Bytes
resolve_dir (c ∷ explicit) env home_for = c ∷ explicit
resolve_dir [] env home_for =
    let home : Bytes = elim (env (codes "HOME")) [ [] ↦ codes "/var/tmp" | c ∷ h ↦ c ∷ h ] in
    elim (env (codes "SUDO_USER")) [
      | [] ↦ home
      | c ∷ user ↦ elim (home_for (c ∷ user)) [
        | none ↦ home
        | some [] ↦ home
        | some (h ∷ rest) ↦ h ∷ rest
      ]
    ]
