-- ===== src/Export/Space.antt =====
-- internal/export/space.go: a statfs block count in bytes.
use go_salt_events.Base.{
  Bool-cases, arith, if◌then◌else◌, inl, inr, leb, ltb, min, negsuc, pos, suc, zero, ℕ, ℤ, ◌*◌, ◌/◌,
  ◌<◌, ◌==◌, ◌≡◌, ◌≤◌,
}
use native.Mathlib.Nat.{div-lt_iff_lt-mul}

-- `math.MaxInt64`
abbrev pub max_int64 : ℕ
max_int64 = 9223372036854775807

-- `bytesFrom`
unfoldable pub bytes_from : ℕ → ℤ → ℕ
bytes_from blocks (negsuc _) = 0
bytes_from blocks (pos size) =
    if size == 0
    then 0
    else let count = if leb blocks max_int64 then blocks else max_int64 in
      if ltb (max_int64 / size) count then max_int64 else count * size

-- A product that is too large for the count is too large for the blocks.
mul-grows : (a b : ℕ) → 0 < b → a ≤ a * b
mul-grows a zero h = omega arith
mul-grows a (suc b) h = omega arith

-- The count of bytes saturates and never wraps: it is the exact product of blocks and block size, or
-- the largest int64 where that is less.
pub bytes_from-saturates :
    (blocks size : ℕ) → 0 < size → bytes_from blocks (pos size) ≡ min (blocks * size) max_int64
unfolding bytes_from
bytes_from-saturates blocks size some_size = elim (Bool-cases (leb blocks max_int64)) [
  | inl small ↦
      ground (arith, small, div-lt_iff_lt-mul {k = size} {x = max_int64} {y = blocks} some_size)
  | inr large ↦ ground (
    arith,
    large,
    div-lt_iff_lt-mul {k = size} {x = max_int64} {y = max_int64} some_size,
    mul-grows blocks size some_size,
    mul-grows max_int64 size some_size,
  )
]
