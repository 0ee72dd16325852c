-- ===== src/Export/Disk.antt =====
-- The file system that internal/export/export.go writes to, as far as it uses it.
use go_salt_events.Base.{
  Bool, Bytes, List, Option, [], arith, bytes_eq, bytes_eq_refl, bytes_eq→eq, if◌then◌else◌, none,
  some, ℕ, ◌∷◌, ◌≡◌,
}

-- The files, by their paths.
abbrev pub Disk : Type 0
Disk = List (Bytes × Bytes)

unfoldable pub find : Disk → Bytes → Option Bytes
find [] p = none
find ((q, b) ∷ d) p = if bytes_eq q p then some b else find d p

unfoldable pub remove : Disk → Bytes → Disk
remove [] p = []
remove ((q, b) ∷ d) p = let rest = remove d p in if bytes_eq q p then rest else (q, b) ∷ rest

unfoldable pub overwrite : Disk → Bytes → Bytes → Disk
unfolding remove
overwrite d p b = (p, b) ∷ remove d p

pub find-remove :
    (d : Disk) (q p : Bytes) → find (remove d q) p ≡ (if bytes_eq q p then none else find d p)
unfolding find remove
find-remove [] q p = ground arith
find-remove ((r, b) ∷ d) q p =
    ground (arith, find-remove d q p, bytes_eq→eq r q, bytes_eq→eq q p, bytes_eq_refl p)

pub find-overwrite :
    (d : Disk) (q p b : Bytes)
    → find (overwrite d q b) p ≡ (if bytes_eq q p then some b else find d p)
unfolding find overwrite
find-overwrite d q p b = ground (arith, find-remove d q p)

-- What the system answers in one run: which paths cannot be looked at, and which calls fail; and what then
-- stands in a file whose writing failed.
pub record System : Type 0 where
  pub hidden : Bytes → Bool
  pub creates : Bool
  pub writes : ℕ → Bool
  pub flushes : Bool
  pub syncs : Bool
  pub closes : Bool
  pub removes : Bool
  pub renames : Bool
  pub torn : Bytes
