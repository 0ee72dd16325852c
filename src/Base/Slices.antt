-- ===== src/Base/Slices.antt =====
-- `xs[a:b]` of a slice, for bounds in range.
use Prim.Native.Nat.{suc, zero, ℕ, ◌+◌, ◌-◌, ◌<◌, ◌≤◌}
use mathlib.Core.Path.{ap, ◌∙◌, ◌≡◌, refl}
use mathlib.Core.List.{List, [], ◌∷◌}
use native.Mathlib.Omega.{arith}
use go_salt_events.Base.Lists.{drop, get_elem?, length, length-drop, length-take, take}

module _ {ℓ} {A : Type ℓ} where
  unfoldable pub slice : ℕ → ℕ → List A → List A
  slice a b xs = take (b - a) (drop a xs)

  get_elem?-drop : (a i : ℕ) (xs : List A) → get_elem? (drop a xs) i ≡ get_elem? xs (a + i)
  get_elem?-drop zero i xs = ap (get_elem? xs) (omega arith)
  get_elem?-drop (suc a) i [] = refl
  get_elem?-drop (suc a) i (x ∷ xs) =
      get_elem?-drop a i xs ∙ ap (get_elem? (x ∷ xs)) {x = suc (a + i)} (omega arith)

  get_elem?-take : (n i : ℕ) (xs : List A) → i < n → get_elem? (take n xs) i ≡ get_elem? xs i
  get_elem?-take zero i xs h = elim h [ ]
  get_elem?-take (suc n) i [] h = refl
  get_elem?-take (suc n) zero (x ∷ xs) h = refl
  get_elem?-take (suc n) (suc i) (x ∷ xs) h = get_elem?-take n i xs (omega arith)

module _ {ℓ} {A : Type ℓ} where
  pub length-slice : (a b : ℕ) (xs : List A) → a ≤ b → b ≤ length xs → length (slice a b xs) ≡ b - a
  unfolding slice
  length-slice a b xs le fits = omega (arith, length-take (b - a) (drop a xs), length-drop a xs)

  -- An element in range keeps its value, counted from the first of the slice.
  pub get_elem?-slice :
      (a b i : ℕ) (xs : List A) → a ≤ i → i < b → get_elem? (slice a b xs) (i - a) ≡ get_elem? xs i
  unfolding slice
  get_elem?-slice a b i xs le lt =
      let e : a + (i - a) ≡ i = omega arith in
      rw (get_elem?-take (b - a) (i - a) (drop a xs) (omega arith), get_elem?-drop a (i - a) xs, e)
        refl
