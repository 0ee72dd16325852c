-- ===== src/Stats/Rings/Index.antt =====
-- internal/stats/rings.go: reading a ring by absolute index.
use native.Mathlib.Nat.{div-add-mod, mod-lt}
use go_salt_events.Base.{
  List, arith, dec_le, dec_lt, get_or, get_or-set_ne, get_or-set_self, length, set, sym, ℕ, ◌%◌,
  ◌+◌, ◌/◌, ◌<◌, ◌≡◌, ◌≢◌,
}
use go_salt_events.Stats.Rings.{Bucket, zero_bucket}

-- The bucket that stands for an absolute index.
abbrev pub at : ℕ → List Bucket → ℕ → Bucket
at n ring i = get_or ring (i % n) zero_bucket

-- Two indices less than a ring apart have places of their own.
pub mod-ne : (n i j : ℕ) → i < j → j < i + n → i % n ≢ j % n
mod-ne n i j lt near e = elim (dec_le (j / n) (i / n)) [
  | yes le ↦ grind (arith, div-add-mod i n, div-add-mod j n)
  | no gt ↦ grind (arith, div-add-mod i n, div-add-mod j n)
]

pub at-set_self :
    (n : ℕ) (ring : List Bucket) (i : ℕ) (b : Bucket)
    → 0 < n
    → length ring ≡ n
    → at n (set ring (i % n) b) i ≡ b
at-set_self n ring i b some_room full =
    get_or-set_self ring (i % n) b zero_bucket (omega (arith, mod-lt i some_room))

pub at-set_ne :
    (n : ℕ) (ring : List Bucket) (i j : ℕ) (b : Bucket)
    → i ≢ j
    → i < j + n
    → j < i + n
    → at n (set ring (i % n) b) j ≡ at n ring j
at-set_ne n ring i j b ne le ge =
    get_or-set_ne ring (i % n) (j % n) b zero_bucket (elim (dec_lt i j) [
      | yes lt ↦ mod-ne n i j lt ge
      | no nlt ↦ λ e. mod-ne n j i (omega arith) le (sym e)
    ])
