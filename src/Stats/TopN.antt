-- ===== src/Stats/TopN.antt =====
-- internal/stats/topn.go: a top-N counter of bounded cardinality. The map is an association list in
-- some order, which is the order in which `Top` walks it.
pub mod Counts
pub mod Ranking
use go_salt_events.Base.{
  Bool, Bytes, List, Option, [], bytes_eq, bytes_ltb, codes, if◌then◌else◌, length, ltb, map, none,
  reaches, some, sort, take, ℕ, ℤ, ◌%◌, ◌++◌, ◌+◌, ◌==◌, ◌^◌, ◌∷◌,
}
use go_salt_events.Stats.Floats.{Floats}

pub record Entry (F : Type 0) : Type 0 where
  pub key : Bytes
  pub count : ℕ
  pub pct : F

pub record Counter : Type 0 where
  pub max_keys : ℤ
  pub counts : List (Bytes × ℕ)
  pub other : ℕ
  pub total : ℕ

-- `NewCounter`
unfoldable pub new_counter : ℤ → Counter
new_counter max_keys = record { max_keys = max_keys; counts = []; other = 0; total = 0 }

-- `n++` on a uint64.
unfoldable pub inc64 : ℕ → ℕ
inc64 n = (n + 1) % 2 ^ 64

unfoldable pub lookup : Bytes → List (Bytes × ℕ) → Option ℕ
lookup k [] = none
lookup k ((j, n) ∷ m) = if bytes_eq j k then some n else lookup k m

-- `counts[key]++` for a key that is there.
unfoldable pub bump : Bytes → List (Bytes × ℕ) → List (Bytes × ℕ)
bump k [] = []
bump k ((j, n) ∷ m) = if bytes_eq j k then (j, inc64 n) ∷ m else (j, n) ∷ bump k m

-- `Add`
unfoldable pub add : Counter → Bytes → Counter
unfolding lookup bump inc64
add c key =
    let c' = record c { total = inc64 c.total } in
    elim (lookup key c.counts) [
      | some _ ↦ record c' { counts = bump key c.counts }
      | none ↦
          if reaches (length c.counts) c.max_keys
          then record c' { other = inc64 c.other }
          else record c' { counts = (key, 1) ∷ c.counts }
    ]

-- The order of `Top`: higher counts first, ties by key.
unfoldable pub ranks_before : Bytes × ℕ → Bytes × ℕ → Bool
ranks_before (k, v) (j, w) = if v == w then bytes_ltb k j else ltb w v

abbrev pub other_key : Bytes
other_key = codes "other"

-- The entries of `Top` before percentages: the ranked keys, cut at `n`, and the folded tail.
unfoldable pub ranked : ℕ → Counter → List (Bytes × ℕ)
unfolding ranks_before sort
ranked n c =
    take n (sort ranks_before c.counts) ++ (if ltb 0 c.other then (other_key, c.other) ∷ [] else [])

module _ (fl : Floats) where
  open fl use {Float, of_uint, div, mul}

  -- The last loop of `Top`, at one entry; `Pct` is the zero float until it is set.
  unfoldable pub with_pct : ℕ → Bytes × ℕ → Entry Float
  with_pct total (k, v) = record {
    key = k;
    count = v;
    pct = if ltb 0 total then mul (div (of_uint v) (of_uint total)) (of_uint 100) else of_uint 0;
  }

  -- `Top`
  unfoldable pub top : ℕ → Counter → List (Entry Float)
  unfolding ranked with_pct
  top n c = map (with_pct c.total) (ranked n c)

-- The counter after the keys of a list, in order.
unfoldable pub add_all : Counter → List Bytes → Counter
add_all c [] = c
add_all c (k ∷ ks) = add_all (add c k) ks
