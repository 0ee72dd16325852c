-- ===== src/SaltTag/Split.antt =====
-- `strings.SplitN(s, "/", n)` and `strings.Join(segs, "/")`.
use go_salt_events.Base.{
  Bytes, List, Option, Option-cases, [], ap, ap₂, arith, if◌then◌else◌, inl, inr, length, none,
  refl, some, suc, zero, ℕ, ◌++◌, ◌<◌, ◌==◌, ◌∙◌, ◌∷◌, ◌≡◌, ◌≢◌, ◌≤◌,
}

-- The text before the first "/", and the text after it if there is one.
unfoldable pub cut : Bytes → Bytes × Option Bytes
cut [] = ([], none)
cut (c ∷ s) = let (before, rest) = cut s in if c == b'/' then ([], some s) else (c ∷ before, rest)

-- At most `n` pieces; the last keeps every further separator.
unfoldable pub split_n : ℕ → Bytes → List Bytes
unfolding cut
split_n zero s = []
split_n (suc zero) s = s ∷ []
split_n (suc (suc n)) s = elim (cut s).1 [
  | none ↦ s ∷ []
  | some rest ↦ (cut s).0 ∷ split_n (suc n) rest
]

unfoldable pub join : List Bytes → Bytes
join [] = []
join (s ∷ []) = s
join (s ∷ t ∷ segs) = s ++ b'/' ∷ join (t ∷ segs)

cut-join : (s rest : Bytes) → (cut s).1 ≡ some rest → (cut s).0 ++ b'/' ∷ rest ≡ s
unfolding cut
cut-join [] rest h = cc
cut-join (c ∷ s) rest h = ground (arith, cut-join s rest)

join-cons :
    (s : Bytes) (n : ℕ) (t : Bytes)
    → join (s ∷ split_n (suc n) t) ≡ s ++ b'/' ∷ join (split_n (suc n) t)
unfolding split_n
join-cons s zero t = unfold join in refl
join-cons s (suc n) t = unfold join in ground arith

pub split_n-none : (n : ℕ) (s : Bytes) → (cut s).1 ≡ none → split_n (suc (suc n)) s ≡ s ∷ []
unfolding split_n
split_n-none n s e = ground arith

pub split_n-some :
    (n : ℕ) (s rest : Bytes)
    → (cut s).1 ≡ some rest
    → split_n (suc (suc n)) s ≡ (cut s).0 ∷ split_n (suc n) rest
unfolding split_n
split_n-some n s rest e = rw (e, split_n)

-- Splitting and joining gives the text back, whatever the bound.
pub join-split_n : (n : ℕ) (s : Bytes) → join (split_n (suc n) s) ≡ s
join-split_n zero s = unfold join split_n in refl
join-split_n (suc n) s = elim (Option-cases (cut s).1) [
  | inl e ↦ rw (split_n-none n s e) (unfold join in refl)
  | inr (rest, e) ↦ rw (split_n-some n s rest e) (
      join-cons (cut s).0 n rest
      ∙ ap (λ t. (cut s).0 ++ b'/' ∷ t) (join-split_n n rest)
      ∙ cut-join s rest e)
]

pub length-split_n : (n : ℕ) (s : Bytes) → length (split_n n s) ≤ n
unfolding split_n
length-split_n zero s = omega arith
length-split_n (suc zero) s = omega arith
length-split_n (suc (suc n)) s = elim (Option-cases (cut s).1) [
  | inl e ↦ ground arith
  | inr (rest, e) ↦ ground (arith, length-split_n (suc n) rest)
]

pub split_n-nonempty : (n : ℕ) (s : Bytes) → 0 < length (split_n (suc n) s)
split_n-nonempty zero s = unfold split_n in omega arith
split_n-nonempty (suc n) s = elim (Option-cases (cut s).1) [
  | inl e ↦ rw (split_n-none n s e) (omega arith)
  | inr (rest, e) ↦ rw (split_n-some n s rest e) (omega arith)
]

-- One piece is the whole text.
pub split_n-single :
    (n : ℕ) (s : Bytes) → length (split_n (suc (suc n)) s) ≡ 1 → split_n (suc (suc n)) s ≡ s ∷ []
split_n-single n s h = elim (Option-cases (cut s).1) [
  | inl e ↦ split_n-none n s e
  | inr (rest, e) ↦
      absurd (omega (arith, ap length (split_n-some n s rest e), h, split_n-nonempty n rest))
]

-- A text without a separator.
abbrev pub NoSlash : Bytes → Type 0
NoSlash [] = Unit {0}
NoSlash (c ∷ s) = (c ≢ b'/') × NoSlash s

abbrev pub NoSlashes : List Bytes → Type 0
NoSlashes [] = Unit {0}
NoSlashes (s ∷ segs) = NoSlash s × NoSlashes segs

cut-NoSlash : (s : Bytes) → NoSlash s → (cut s).1 ≡ none
unfolding cut
cut-NoSlash [] h = refl
cut-NoSlash (c ∷ s) h = ground (arith, cut-NoSlash s h.1)

cut-at : (s t : Bytes) → NoSlash s → cut (s ++ b'/' ∷ t) ≡ (s, some t)
unfolding cut
cut-at [] t h = refl
cut-at (c ∷ s) t h = ground (arith, cut-at s t h.1)

-- Joining and splitting gives the pieces back, if no piece has a separator and they are few enough.
pub split_n-join :
    (n : ℕ) (s : Bytes) (segs : List Bytes)
    → NoSlashes (s ∷ segs)
    → length segs ≤ n
    → split_n (suc n) (join (s ∷ segs)) ≡ s ∷ segs
unfolding split_n join
split_n-join zero s [] h le = refl
split_n-join zero s (t ∷ segs) h le = absurd (omega arith)
split_n-join (suc n) s [] h le = split_n-none n s (cut-NoSlash s h.0)
split_n-join (suc n) s (t ∷ segs) h le =
    let e = cut-at s (join (t ∷ segs)) h.0 in
    split_n-some n (s ++ b'/' ∷ join (t ∷ segs)) (join (t ∷ segs)) (ap (λ r. r.1) e)
    ∙ ap₂ (λ b r. b ∷ r) (ap (λ r. r.0) e) (split_n-join n t segs h.1 (omega arith))
