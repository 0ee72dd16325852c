-- ===== src/Filter/Glob/Matches.antt =====
-- What it means for a text to match a glob, with no search order in it.
use go_salt_events.Base.{
  [], ap, arith, false, inl, inr, refl, subst, sym, true, ℕ, ℕ_discrete, ◌∙◌, ◌∷◌, ◌≡◌, ◌≢◌, ◌⊎◌,
}
use go_salt_events.Filter.Glob.{Runes, match_class, match_one, only_stars}

pub data Matches : Runes → Runes → Type 0 where
  done : Matches [] []
  -- a star that absorbs nothing more, and one that absorbs a rune
  leave : {x : ℕ} {p s : Runes} → x ≡ b'*' → Matches p s → Matches (x ∷ p) s
  absorb : {x c : ℕ} {p s : Runes} → x ≡ b'*' → Matches (x ∷ p) s → Matches (x ∷ p) (c ∷ s)
  -- any other element, which takes one rune
  one :
      {x c : ℕ} {p q s : Runes}
      → match_one (x ∷ p) c ≡ (q, true)
      → Matches q s
      → Matches (x ∷ p) (c ∷ s)

-- A star is no element that takes a rune.
match_one-star : (x c : ℕ) (p : Runes) → x ≡ b'*' → (match_one (x ∷ p) c).1 ≡ false
unfolding match_one
match_one-star x c p e = ground arith

-- Where the next element begins does not depend on the rune.
pub match_one-rest : (p : Runes) (c d : ℕ) → (match_one p c).0 ≡ (match_one p d).0
unfolding match_one match_class
match_one-rest [] c d = refl
match_one-rest (x ∷ p) c d = ground arith

not-match_one-star : (x c : ℕ) (p q : Runes) → x ≡ b'*' → ¬ (match_one (x ∷ p) c ≡ (q, true))
not-match_one-star x c p q e h = cc (match_one-star x c p e, ap (λ r. r.1) h)

-- A match of a star and a text: the star ends here, or it absorbs the first rune.
pub star_cases :
    (x c : ℕ) (p s : Runes)
    → x ≡ b'*'
    → Matches (x ∷ p) (c ∷ s)
    → Matches p (c ∷ s) ⊎ Matches (x ∷ p) s
star_cases x c p s e (leave _ m) = inl m
star_cases x c p s e (absorb _ m) = inr m
star_cases x c p s e (one {q} h m) = absurd (not-match_one-star x c p q e h)

pub star_end : (x : ℕ) (p : Runes) → x ≡ b'*' → Matches (x ∷ p) [] → Matches p []
star_end x p e (leave _ m) = m

-- Nothing but a star and a match of the first element begins a match.
pub none_inv :
    (x c : ℕ) (p s : Runes) → x ≢ b'*' → (match_one (x ∷ p) c).1 ≡ false → ¬ Matches (x ∷ p) (c ∷ s)
none_inv x c p s ne h (leave e m) = ne e
none_inv x c p s ne h (absorb e m) = ne e
none_inv x c p s ne h (one k m) = cc (h, ap (λ y. y.1) k)

-- The first element of `x ∷ p` takes a rune, and `q` follows it.
pub record Element (x : ℕ) (p q : Runes) : Type 0 where
  pub no_star : x ≢ b'*'
  pub rest : (c : ℕ) → (match_one (x ∷ p) c).0 ≡ q

pub Element-of_match : (x c : ℕ) (p q : Runes) → match_one (x ∷ p) c ≡ (q, true) → Element x p q
Element-of_match x c p q h = record {
  no_star = λ e. not-match_one-star x c p q e h;
  rest = λ d. match_one-rest (x ∷ p) d c ∙ ap (λ y. y.0) h;
}

Element-end : (x : ℕ) (p q : Runes) → Element x p q → ¬ Matches (x ∷ p) []
Element-end x p q e (leave s m) = e.no_star s

pub Element-step : (x c : ℕ) (p q s : Runes) → Element x p q → Matches (x ∷ p) (c ∷ s) → Matches q s
Element-step x c p q s e (leave d m) = absurd (e.no_star d)
Element-step x c p q s e (absorb d m) = absurd (e.no_star d)
Element-step x c p q s e (one {q = r} k m) =
    subst (λ t. Matches t s) (ap (λ y. y.0) (sym k) ∙ e.rest c) m

-- A star before an element that takes a rune: past the first rune, a star before the rest.
pub star_drops :
    (x c : ℕ) (p q s : Runes)
    → Element x p q
    → Matches (b'*' ∷ x ∷ p) (c ∷ s)
    → Matches (b'*' ∷ q) s
star_drops x c p q s e (leave _ m) = leave refl (Element-step x c p q s e m)
star_drops x c p q s e (one k m) = absurd (not-match_one-star b'*' c (x ∷ p) _ refl k)
star_drops x c p q [] e (absorb _ (leave _ m)) = absurd (Element-end x p q e m)
star_drops x c p q (d ∷ s) e (absorb _ m) = absorb refl (star_drops x d p q s e m)

pub only_stars→Matches : (p : Runes) → only_stars p ≡ true → Matches p []
unfolding only_stars
only_stars→Matches [] h = done
only_stars→Matches (x ∷ p) h = elim (ℕ_discrete x b'*') [
  | yes e ↦ leave e (only_stars→Matches p (ground arith))
  | no ne ↦ absurd (ground arith)
]

pub Matches→only_stars : (p : Runes) → Matches p [] → only_stars p ≡ true
unfolding only_stars
Matches→only_stars [] done = refl
Matches→only_stars (x ∷ p) (leave e m) = ground (arith, Matches→only_stars p m)

-- Two stars are one.
pub star_star : (x : ℕ) (p s : Runes) → x ≡ b'*' → Matches (b'*' ∷ x ∷ p) s → Matches (x ∷ p) s
star_star x p s e (leave _ m) = m
star_star x p (c ∷ s) e (absorb _ m) = absorb e (star_star x p s e m)
star_star x p (c ∷ s) e (one {q} k m) = absurd (not-match_one-star b'*' c (x ∷ p) q refl k)
