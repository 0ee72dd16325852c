-- ===== src/Stats/TopN/Ranking.antt =====
-- internal/stats/topn.go, `Top`: the ranking, and that the order of Go's map does not show in it.
use go_salt_events.Base.{
  Bool, Bytes, IsSorted, IsStrict, List, Perm, [], arith, bytes_ltb_asymm, bytes_ltb_total,
  bytes_ltb_trans, if◌then◌else◌, insert_sorted, length, length-append, length-sort, length-take,
  ltb, refl, sort, sort-IsSorted, sort-perm, sort-perm_eq, suc, take, take_all, zero, ℕ, ◌++◌, ◌+◌,
  ◌∷◌, ◌≡◌, ◌≤◌,
}
use go_salt_events.Stats.Floats.{Floats}
use go_salt_events.Stats.TopN.{Counter, other_key, ranked, ranks_before, top}
use go_salt_events.Stats.TopN.Counts.{sum}

pub ranks_before-IsStrict : IsStrict ranks_before
unfolding ranks_before
ranks_before-IsStrict = record {
  trans = λ a b c h k. ground (arith, bytes_ltb_trans a.0 b.0 c.0);
  asymm = λ a b h. ground (arith, bytes_ltb_asymm a.0 b.0);
  total = λ a b h k. ground (arith, bytes_ltb_total a.0 b.0);
}

counts-set : IsSet (List (Bytes × ℕ))
counts-set = hlevel

-- The rows that a pane draws are the same in whatever order the map yields its keys.
pub top-perm :
    (fl : Floats) (n : ℕ) (c d : Counter)
    → Perm c.counts d.counts
    → c.other ≡ d.other
    → c.total ≡ d.total
    → top fl n c ≡ top fl n d
unfolding top ranked
top-perm fl n c d p o t =
    rw (sort-perm_eq ranks_before-IsStrict counts-set c.counts d.counts p, o, t)

-- `Top` ranks: before the tail stand the first `n` of a permutation of the tracked keys in which no
-- entry stands before one of a higher count, or of the same count and a lesser key. The folded tail
-- is last, and there exactly if something was folded.
pub ranked_lem :
    (n : ℕ) (c : Counter)
    → (s : List (Bytes × ℕ)) × Perm s c.counts
      × IsSorted ranks_before s
      × (ranked n c ≡ take n s ++ (if ltb 0 c.other then (other_key, c.other) ∷ [] else []))
unfolding ranked
ranked_lem n c = (
  sort ranks_before c.counts,
  sort-perm ranks_before c.counts,
  sort-IsSorted ranks_before-IsStrict c.counts,
  refl,
)

sum-append : (xs ys : List (Bytes × ℕ)) → sum (xs ++ ys) ≡ sum xs + sum ys
sum-append [] ys = omega arith
sum-append ((k, v) ∷ xs) ys = omega (arith, sum-append xs ys)

sum-insert_sorted :
    (less : Bytes × ℕ → Bytes × ℕ → Bool) (x : Bytes × ℕ) (xs : List (Bytes × ℕ))
    → sum (insert_sorted less x xs) ≡ x.1 + sum xs
unfolding insert_sorted
sum-insert_sorted less (k, v) [] = refl
sum-insert_sorted less (k, v) ((j, w) ∷ xs) = ground (arith, sum-insert_sorted less (k, v) xs)

sum-sort :
    (less : Bytes × ℕ → Bytes × ℕ → Bool) (xs : List (Bytes × ℕ)) → sum (sort less xs) ≡ sum xs
unfolding sort
sum-sort less [] = refl
sum-sort less ((k, v) ∷ xs) =
    omega (arith, sum-insert_sorted less (k, v) (sort less xs), sum-sort less xs)

sum-take-le : (n : ℕ) (xs : List (Bytes × ℕ)) → sum (take n xs) ≤ sum xs
sum-take-le zero xs = omega arith
sum-take-le (suc n) [] = omega arith
sum-take-le (suc n) ((k, v) ∷ xs) = omega (arith, sum-take-le n xs)

abbrev folded : Counter → List (Bytes × ℕ)
folded c = if ltb 0 c.other then (other_key, c.other) ∷ [] else []

sum-folded : (c : Counter) → sum (folded c) ≡ c.other
sum-folded c = ground arith

-- The rows shown count at most what was counted, and there are at most `n` of them and the tail.
pub ranked-le :
    (n : ℕ) (c : Counter)
    → sum c.counts + c.other ≡ c.total
    → (sum (ranked n c) ≤ c.total) × (length (ranked n c) ≤ n + 1)
unfolding ranked
ranked-le n c h =
    let s = sort ranks_before c.counts in
    let l : length (folded c) ≤ 1 = ground arith in
    (
      omega (
        arith,
        sum-append (take n s) (folded c),
        sum-take-le n s,
        sum-sort ranks_before c.counts,
        sum-folded c,
      ),
      omega (arith, length-append (take n s) (folded c), length-take n s),
    )

-- With `n` no less than the number of tracked keys the rows shown add up to the total.
pub ranked-conserves :
    (n : ℕ) (c : Counter)
    → sum c.counts + c.other ≡ c.total
    → length c.counts ≤ n
    → sum (ranked n c) ≡ c.total
unfolding ranked
ranked-conserves n c h all =
    let s = sort ranks_before c.counts in
    rw (take_all n s (omega (arith, length-sort ranks_before c.counts)))
      (omega (arith, sum-append s (folded c), sum-sort ranks_before c.counts, sum-folded c))
