-- ===== src/Base/Sort.antt =====
-- `sort.Slice` and `sort.Strings`: an insertion sort by a `less` function. The laws hold for a `less`
-- that orders all values strictly.
use Prim.Native.Nat.{suc}
use mathlib.Core.Path.{ap, refl, ◌∙◌, ◌≡◌}
use mathlib.Core.Bool.{Bool, false, true}
use mathlib.Core.Logic.{inl, inr, ∥∥₁_elim}
use mathlib.Core.List.{List, Perm, Permᴰ, [], ◌∷◌}
use mathlib.Core.List.Perm
use native.Mathlib.Omega.{arith}
use go_salt_events.Base.Tests.{Bool-cases, if◌then◌else◌}
use go_salt_events.Base.Lists.{length}

module _ {ℓ} {A : Type ℓ} (less : A → A → Bool) where
  unfoldable pub insert_sorted : A → List A → List A
  insert_sorted x [] = x ∷ []
  insert_sorted x (y ∷ ys) = if less y x then y ∷ insert_sorted x ys else x ∷ y ∷ ys

  unfoldable pub sort : List A → List A
  unfolding insert_sorted
  sort [] = []
  sort (x ∷ xs) = insert_sorted x (sort xs)

  pub length-insert_sorted : (x : A) (xs : List A) → length (insert_sorted x xs) ≡ suc (length xs)
  unfolding insert_sorted
  length-insert_sorted x [] = refl
  length-insert_sorted x (y ∷ ys) = ground (arith, length-insert_sorted x ys)

  pub length-sort : (xs : List A) → length (sort xs) ≡ length xs
  unfolding sort
  length-sort [] = refl
  length-sort (x ∷ xs) = length-insert_sorted x (sort xs) ∙ ap suc (length-sort xs)

  pub insert_sorted-perm : (x : A) (xs : List A) → Perm (insert_sorted x xs) (x ∷ xs)
  unfolding insert_sorted
  insert_sorted-perm x [] = Perm.refl (x ∷ [])
  insert_sorted-perm x (y ∷ ys) = elim (Bool-cases (less y x)) [
    | inl h ↦ rw h (Perm.trans (Perm.cons y (insert_sorted-perm x ys)) (Perm.swap x y ys))
    | inr h ↦ rw h (Perm.refl (x ∷ y ∷ ys))
  ]

  pub sort-perm : (xs : List A) → Perm (sort xs) xs
  unfolding sort
  sort-perm [] = Perm.refl []
  sort-perm (x ∷ xs) = Perm.trans (insert_sorted-perm x (sort xs)) (Perm.cons x (sort-perm xs))

  -- No entry stands before a lesser one next to it.
  abbrev pub IsSorted : List A → Type 0
  IsSorted [] = Unit {0}
  IsSorted (x ∷ []) = Unit {0}
  IsSorted (x ∷ y ∷ xs) = (less y x ≡ false) × IsSorted (y ∷ xs)

-- What `less` has to be.
pub record IsStrict {ℓ} {A : Type ℓ} (less : A → A → Bool) : Type ℓ where
  pub trans : (a b c : A) → less a b ≡ true → less b c ≡ true → less a c ≡ true
  pub asymm : (a b : A) → less a b ≡ true → less b a ≡ false
  pub total : (a b : A) → less a b ≡ false → less b a ≡ false → a ≡ b

module _ {ℓ} {A : Type ℓ} {less : A → A → Bool} (strict : IsStrict less) where
  insert_sorted_comm :
      (x y : A) (s : List A)
      → insert_sorted less x (insert_sorted less y s)
        ≡ insert_sorted less y (insert_sorted less x s)
  unfolding insert_sorted
  insert_sorted_comm x y [] = ground (arith, strict.asymm x y, strict.total x y)
  insert_sorted_comm x y (z ∷ s) = ground (
    arith,
    insert_sorted_comm x y s,
    strict.asymm x y,
    strict.total x y,
    strict.trans z x y,
    strict.trans z y x,
    strict.asymm z x,
    strict.asymm z y,
  )

  insert_sorted-IsSorted :
      (x : A) (s : List A) → IsSorted less s → IsSorted less (insert_sorted less x s)
  unfolding insert_sorted
  insert_sorted-IsSorted x [] h = tt
  insert_sorted-IsSorted x (y ∷ []) h = ground (arith, strict.asymm y x)
  insert_sorted-IsSorted x (y ∷ z ∷ s) h =
      ground (arith, strict.asymm y x, insert_sorted-IsSorted x (z ∷ s) h.1)

  pub sort-IsSorted : (xs : List A) → IsSorted less (sort less xs)
  unfolding sort
  sort-IsSorted [] = tt
  sort-IsSorted (x ∷ xs) = insert_sorted-IsSorted x (sort less xs) (sort-IsSorted xs)

  sort-Permᴰ : {xs ys : List A} → Permᴰ xs ys → sort less xs ≡ sort less ys
  unfolding sort
  sort-Permᴰ Permᴰ.nil = refl
  sort-Permᴰ (Permᴰ.cons {l₁ = l₁} {l₂ = l₂} e p) = rw (e, sort-Permᴰ p)
  sort-Permᴰ (Permᴰ.swap {a} {b} {l = l} e e') = rw (e, e') (insert_sorted_comm _ _ (sort less l))
  sort-Permᴰ (Permᴰ.trans p q) = sort-Permᴰ p ∙ sort-Permᴰ q

  -- The result does not depend on the order in which the values came.
  pub sort-perm_eq : IsSet (List A) → (xs ys : List A) → Perm xs ys → sort less xs ≡ sort less ys
  sort-perm_eq is_set xs ys p = ∥∥₁_elim p (is_set _ _) sort-Permᴰ
