-- ===== src/Stats/TopN/Counts.antt =====
-- internal/stats/topn.go, `Add`: no count is lost, and every tracked key has its exact count.
use go_salt_events.Base.{
  Bool-cases, Bytes, List, Option-cases, [], ap, append-nil, append_assoc, arith, bytes_eq,
  bytes_eq_iff, false, if◌then◌else◌, inl, inr, length, length-append, none, pos, reaches, refl,
  some, sym, true, ℕ, ℤ, ◌++◌, ◌+◌, ◌<◌, ◌^◌, ◌∙◌, ◌∷◌, ◌≡◌, ◌≤◌, ◌⊎◌,
}
use go_salt_events.Stats.TopN.{Counter, add, add_all, bump, inc64, lookup, new_counter}

abbrev pub sum : List (Bytes × ℕ) → ℕ
sum [] = 0
sum ((k, n) ∷ m) = n + sum m

-- How often a key was added.
abbrev pub occurrences : Bytes → List Bytes → ℕ
occurrences k [] = 0
occurrences k (j ∷ js) = (if bytes_eq j k then 1 else 0) + occurrences k js

lookup-le-sum : (k : Bytes) (m : List (Bytes × ℕ)) (n : ℕ) → lookup k m ≡ some n → n ≤ sum m
unfolding lookup
lookup-le-sum k [] n h = cc
lookup-le-sum k ((j, v) ∷ m) n h = ground (arith, lookup-le-sum k m n)

sum-bump :
    (k : Bytes) (m : List (Bytes × ℕ)) (n : ℕ)
    → lookup k m ≡ some n
    → n + 1 < 2 ^ 64
    → sum (bump k m) ≡ sum m + 1
unfolding lookup bump inc64
sum-bump k [] n h lt = cc
sum-bump k ((j, v) ∷ m) n h lt = ground (arith, sum-bump k m n)

length-bump : (k : Bytes) (m : List (Bytes × ℕ)) → length (bump k m) ≡ length m
unfolding bump
length-bump k [] = refl
length-bump k ((j, v) ∷ m) = ground (arith, length-bump k m)

lookup-bump :
    (k j : Bytes) (m : List (Bytes × ℕ))
    → lookup j (bump k m) ≡ (
        if bytes_eq k j
        then elim (lookup j m) [ none ↦ none | some n ↦ some (inc64 n) ]
        else lookup j m)
unfolding lookup bump
lookup-bump k j [] = ground arith
lookup-bump k j ((i, v) ∷ m) =
    ground (arith, bytes_eq_iff i k, bytes_eq_iff i j, bytes_eq_iff k j, lookup-bump k j m)

-- What is true after the keys `ks`: nothing is lost, a tracked key has exactly its count, and a key
-- is untracked only when the counter is full or the key never came.
pub record Counted (m : ℤ) (ks : List Bytes) (c : Counter) : Type 0 where
  pub max_keys : c.max_keys ≡ m
  pub total : c.total ≡ length ks
  pub kept : sum c.counts + c.other ≡ c.total
  pub exact : (k : Bytes) (n : ℕ) → lookup k c.counts ≡ some n → n ≡ occurrences k ks
  pub full :
      (k : Bytes)
      → lookup k c.counts ≡ none
      → (occurrences k ks ≡ 0) ⊎ (reaches (length c.counts) m ≡ true)

occurrences-snoc :
    (k j : Bytes) (ks : List Bytes)
    → occurrences k (ks ++ j ∷ []) ≡ occurrences k ks + (if bytes_eq j k then 1 else 0)
occurrences-snoc k j [] = ground arith
occurrences-snoc k j (i ∷ ks) = omega (arith, occurrences-snoc k j ks)

new_counter-Counted : (m : ℤ) → Counted m [] (new_counter m)
unfolding new_counter lookup
new_counter-Counted m = record {
  max_keys = refl;
  total = refl;
  kept = omega arith;
  exact = λ k n h. cc;
  full = λ k h. inl refl;
}

add-known :
    (c : Counter) (key : Bytes) (v : ℕ)
    → lookup key c.counts ≡ some v
    → add c key ≡ record c { total = inc64 c.total; counts = bump key c.counts }
unfolding add
add-known c key v h = rw (h, add)

add-folds :
    (c : Counter) (key : Bytes)
    → lookup key c.counts ≡ none
    → reaches (length c.counts) c.max_keys ≡ true
    → add c key ≡ record c { total = inc64 c.total; other = inc64 c.other }
unfolding add
add-folds c key h full = rw (h, full, add)

add-fresh :
    (c : Counter) (key : Bytes)
    → lookup key c.counts ≡ none
    → reaches (length c.counts) c.max_keys ≡ false
    → add c key ≡ record c { total = inc64 c.total; counts = (key, 1) ∷ c.counts }
unfolding add
add-fresh c key h room = rw (h, room, add)

module _ (m : ℤ) (ks : List Bytes) (c : Counter) (key : Bytes) (h : Counted m ks c)
    (small : length ks + 1 < 2 ^ 64) where
  known-Counted : (v : ℕ) → lookup key c.counts ≡ some v → Counted m (ks ++ key ∷ []) (add c key)
  known-Counted v known =
      let le : v ≤ sum c.counts = lookup-le-sum key c.counts v known in
      rw (add-known c key v known) record {
        max_keys = h.max_keys;
        total = unfold inc64 in omega (arith, h.total, length-append ks (key ∷ []));
        kept = unfold inc64 in omega (arith, h.total, h.kept, sum-bump key c.counts v known);
        exact = λ k n e. exact k n (sym (lookup-bump key k c.counts) ∙ e);
        full = λ k e. full k (sym (lookup-bump key k c.counts) ∙ e);
      }
    where
      exact :
          (k : Bytes) (n : ℕ)
          → (if bytes_eq key k
              then elim (lookup k c.counts) [ none ↦ none | some w ↦ some (inc64 w) ]
              else lookup k c.counts)
            ≡ some n
          → n ≡ occurrences k (ks ++ key ∷ [])
      exact k n e =
          unfold inc64 in
          ground (
            arith,
            bytes_eq_iff key k,
            occurrences-snoc k key ks,
            h.exact k v,
            h.exact k n,
            h.total,
            h.kept,
            lookup-le-sum key c.counts v,
          )

      full :
          (k : Bytes)
          → (if bytes_eq key k
              then elim (lookup k c.counts) [ none ↦ none | some w ↦ some (inc64 w) ]
              else lookup k c.counts)
            ≡ none
          → (occurrences k (ks ++ key ∷ []) ≡ 0) ⊎ (reaches (length (bump key c.counts)) m ≡ true)
      full k e =
          ground (
            arith,
            bytes_eq_iff key k,
            occurrences-snoc k key ks,
            h.full k,
            length-bump key c.counts,
          )

  folds-Counted :
      lookup key c.counts ≡ none
      → reaches (length c.counts) m ≡ true
      → Counted m (ks ++ key ∷ []) (add c key)
  folds-Counted new full = rw (add-folds c key new (rw h.max_keys full)) record {
    max_keys = h.max_keys;
    total = unfold inc64 in omega (arith, h.total, length-append ks (key ∷ []));
    kept = unfold inc64 in omega (arith, h.total, h.kept);
    exact = λ k n e. ground (arith, bytes_eq_iff key k, occurrences-snoc k key ks, h.exact k n);
    full = λ k e. inr full;
  }

  fresh-Counted :
      lookup key c.counts ≡ none
      → reaches (length c.counts) m ≡ false
      → Counted m (ks ++ key ∷ []) (add c key)
  fresh-Counted new room = rw (add-fresh c key new (rw h.max_keys room)) record {
    max_keys = h.max_keys;
    total = unfold inc64 in omega (arith, h.total, length-append ks (key ∷ []));
    kept = unfold inc64 in omega (arith, h.total, h.kept);
    exact = λ k n e.
        unfold lookup in
        ground (arith, bytes_eq_iff key k, occurrences-snoc k key ks, h.exact k n, h.full k);
    full = λ k e.
        unfold lookup in ground (arith, bytes_eq_iff key k, occurrences-snoc k key ks, h.full k);
  }

add-Counted :
    (m : ℤ) (ks : List Bytes) (c : Counter) (key : Bytes)
    → Counted m ks c
    → length ks + 1 < 2 ^ 64
    → Counted m (ks ++ key ∷ []) (add c key)
add-Counted m ks c key h small = elim (Option-cases (lookup key c.counts)) [
  | inr (v, known) ↦ known-Counted m ks c key h small v known
  | inl new ↦ elim (Bool-cases (reaches (length c.counts) m)) [
    | inl full ↦ folds-Counted m ks c key h small new full
    | inr room ↦ fresh-Counted m ks c key h small new room
  ]
]

add_all-from :
    (m : ℤ) (old ks : List Bytes) (c : Counter)
    → Counted m old c
    → length old + length ks < 2 ^ 64
    → Counted m (old ++ ks) (add_all c ks)
unfolding add_all
add_all-from m old [] c h small = rw (append-nil old) h
add_all-from m old (k ∷ ks) c h small = rw (← append_assoc old (k ∷ []) ks) (
    add_all-from m (old ++ k ∷ []) ks (add c k) (add-Counted m old c k h (omega arith))
      (omega (arith, length-append old (k ∷ []))))

-- What a counter with cap `m` shows after the keys `ks`.
pub record Tallies (m : ℤ) (ks : List Bytes) (c : Counter) : Type 0 where
  pub total : c.total ≡ length ks
  pub kept : sum c.counts + c.other ≡ length ks
  pub each :
      (k : Bytes)
      → (lookup k c.counts ≡ some (occurrences k ks))
        ⊎ ((lookup k c.counts ≡ none)
            × ((occurrences k ks ≡ 0) ⊎ (reaches (length c.counts) m ≡ true)))

Counted→Tallies : (m : ℤ) (ks : List Bytes) (c : Counter) → Counted m ks c → Tallies m ks c
Counted→Tallies m ks c h = record {
  total = h.total;
  kept = h.kept ∙ h.total;
  each = λ k. elim (Option-cases (lookup k c.counts)) [
    | inl e ↦ inr (e, h.full k e)
    | inr (n, e) ↦ inl (e ∙ ap some (h.exact k n e))
  ];
}

-- After any keys, fewer than 2^64, a counter's total is their number, the tracked counts and the
-- folded tail add up to it, and every key either is tracked with exactly its number of occurrences,
-- or is untracked and never came or found the counter full.
pub add_all-Tallies :
    (m : ℤ) (ks : List Bytes) → length ks < 2 ^ 64 → Tallies m ks (add_all (new_counter m) ks)
add_all-Tallies m ks small =
    Counted→Tallies m ks _
      (add_all-from m [] ks (new_counter m) (new_counter-Counted m) (omega arith))

-- A counter never tracks more keys than its cap.
pub add-within_cap :
    (c : Counter) (key : Bytes) (m : ℕ)
    → c.max_keys ≡ pos m
    → length c.counts ≤ m
    → length (add c key).counts ≤ m
unfolding add
add-within_cap c key m e h = ground (arith, length-bump key c.counts)
