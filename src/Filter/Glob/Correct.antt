-- ===== src/Filter/Glob/Correct.antt =====
-- internal/filter/glob.go, `fnmatch`: the single-backtrack scan ends within its fuel and decides
-- `Matches`.
use go_salt_events.Filter.Glob.Shorter.{match_one-shorter}
use go_salt_events.Filter.Glob.Open.{
  Answers, Answers-iff, Open, Open-back, Open-end, Open-one, Open-star, Since, at_star, past,
}
use go_salt_events.Base.{
  Bool-cases, [], ap, arith, false, inl, inr, length, none, refl, some, suc, true, zero, ℕ,
  ℕ_discrete, ◌*◌, ◌+◌, ◌-◌, ◌<◌, ◌∷◌, ◌≡◌, ◌≤◌,
}
use go_salt_events.Filter.Glob.{Runes, Star, after_star, fnmatch, loop, match_one, next_rune}
use go_salt_events.Filter.Glob.Matches.{Matches, none_inv}

-- The fuel: every round shortens the pattern, or goes back, which shortens the subject that is left
-- to the star and starts at a pattern shorter than `k`.
record Fits (f k m : ℕ) (p s : Runes) (star : Star) : Type 0 where
  subject : length s ≤ m
  pattern_short : length p < k
  fuel : m * k + length p < f

abbrev StarFits : ℕ → ℕ → Runes → Star → Type 0
StarFits k m s none = Unit {0}
StarFits k m s (some (q, t)) = (length q < k) × (length t ≤ m) × (length s ≤ length t)

-- One round of the loop, by what it finds.
loop-one :
    (f c : ℕ) (p s : Runes) (star : Star)
    → (match_one p c).1 ≡ true
    → loop (suc f) p (c ∷ s) star ≡ loop f (match_one p c).0 s star
unfolding loop
loop-one f c p s star h = rw (h, loop)

loop-star :
    (f c x : ℕ) (p s : Runes) (star : Star)
    → x ≡ b'*'
    → loop (suc f) (x ∷ p) (c ∷ s) star ≡ loop f p (c ∷ s) (some (p, c ∷ s))
unfolding loop match_one after_star
loop-star f c x p s star e = ground arith

loop-back :
    (f c : ℕ) (p s q t : Runes)
    → (match_one p c).1 ≡ false
    → after_star p ≡ none
    → loop (suc f) p (c ∷ s) (some (q, t)) ≡ loop f q (next_rune t) (some (q, next_rune t))
unfolding loop
loop-back f c p s q t h e = rw (h, e, loop)

loop-fails :
    (f c : ℕ) (p s : Runes)
    → (match_one p c).1 ≡ false
    → after_star p ≡ none
    → loop (suc f) p (c ∷ s) none ≡ some false
unfolding loop
loop-fails f c p s h e = rw (h, e, loop)

one_less : (m k : ℕ) → 0 < m → m * k ≡ (m - 1) * k + k
one_less zero k h = absurd (omega arith)
one_less (suc m) k h = let e : suc m - 1 ≡ m = omega arith in rw e (omega arith)

StarFits-step :
    (k m c : ℕ) (s : Runes) (star : Star) → StarFits k m (c ∷ s) star → StarFits k m s star
StarFits-step k m c s none sf = tt
StarFits-step k m c s (some (q, t)) sf = omega (arith, sf)

Since-past :
    (x c : ℕ) (p q s : Runes) (star : Star)
    → Since star (x ∷ p) (c ∷ s)
    → match_one (x ∷ p) c ≡ (q, true)
    → Since star q s
Since-past x c p q s none since h = tt
Since-past x c p q s (some (r, t)) since h = past since h

Answers-back :
    (f c k m : ℕ) (p s : Runes) (star : Star)
    → ((k' m' : ℕ) (p' s' : Runes) (star' : Star)
        → Fits f k' m' p' s' star'
        → StarFits k' m' s' star'
        → Since star' p' s'
        → Answers (Open p' s' star') (loop f p' s' star'))
    → Fits (suc f) k m p (c ∷ s) star
    → StarFits k m (c ∷ s) star
    → Since star p (c ∷ s)
    → (match_one p c).1 ≡ false
    → after_star p ≡ none
    → ¬ Matches p (c ∷ s)
    → Answers (Open p (c ∷ s) star) (loop (suc f) p (c ∷ s) star)
Answers-back f c k m p s none ih fits _ _ h e no_match =
    rw (loop-fails f c p s h e) λ o. elim o [ inl d ↦ no_match d | inr l ↦ l ]
Answers-back f c k m p s (some (q, [])) ih fits sf since h e no_match = absurd (omega arith)
Answers-back f c k m p s (some (q, d ∷ t)) ih fits sf since h e no_match =
    rw (loop-back f c p s q (d ∷ t) h e) (
      Answers-iff _ _ (loop f q t (some (q, t))) (Open-back c p s q (d ∷ t) no_match (omega arith))
        (ih k (m - 1) q t (some (q, t))
          (record {
            subject = omega (arith, sf.1);
            pattern_short = sf.0;
            fuel = omega (arith, fits.fuel, sf.0, one_less m k (omega (arith, sf.1)));
          })
          (omega arith) at_star))

loop-Answers :
    (f k m : ℕ) (p s : Runes) (star : Star)
    → Fits f k m p s star
    → StarFits k m s star
    → Since star p s
    → Answers (Open p s star) (loop f p s star)
loop-Answers zero k m p s star fits sf since = absurd (omega (arith, fits.fuel))
loop-Answers (suc f) k m p [] star fits sf since = unfold loop in Open-end p star since
loop-Answers (suc f) k m [] (c ∷ s) star fits sf since =
    Answers-back f c k m [] s star (loop-Answers f) fits sf since (unfold match_one in refl)
      (unfold after_star in refl) (λ d. elim d [ ])
loop-Answers (suc f) k m (x ∷ p) (c ∷ s) star fits sf since = elim (ℕ_discrete x b'*') [
  | yes e ↦ rw (loop-star f c x p s star e) (
      Answers-iff _ _ (loop f p (c ∷ s) (some (p, c ∷ s))) (Open-star x c p s star e since) (
        loop-Answers f k m p (c ∷ s) (some (p, c ∷ s))
          (record {
            subject = fits.subject;
            pattern_short = omega (arith, fits.pattern_short);
            fuel = omega (arith, fits.fuel);
          })
          (omega (arith, fits.pattern_short, fits.subject)) at_star))
  | no ne ↦ elim (Bool-cases (match_one (x ∷ p) c).1) [
    | inl hit ↦
        let q = (match_one (x ∷ p) c).0 in
        let h : match_one (x ∷ p) c ≡ (q, true) = ap (λ b. (q, b)) hit in
        rw (loop-one f c (x ∷ p) s star hit) (
          Answers-iff _ _ (loop f q s star) (Open-one x c p q s star h) (
            loop-Answers f k m q s star
              (record {
                subject = omega (arith, fits.subject);
                pattern_short = omega (arith, fits.pattern_short, match_one-shorter x c p q h);
                fuel = omega (arith, fits.fuel, match_one-shorter x c p q h);
              })
              (StarFits-step k m c s star sf) (Since-past x c p q s star since h)))
    | inr miss ↦
        Answers-back f c k m (x ∷ p) s star (loop-Answers f) fits sf since miss
          (unfold after_star in ground arith) (none_inv x c p s ne miss)
  ]
]

-- `fnmatch` always ends, and answers whether the text matches: true with a match, false without any.
pub fnmatch-Answers : (p s : Runes) → Answers (Matches p s) (fnmatch p s)
unfolding fnmatch
fnmatch-Answers p s =
    Answers-iff (Open p s none) (Matches p s) (loop _ p s none)
      (λ o. elim o [ inl m ↦ m | inr l ↦ absurd l ], λ m. inl m)
      (loop-Answers _ (length p + 1) (length s) p s none
        (record { subject = omega arith; pattern_short = omega arith; fuel = omega arith }) tt tt)
