-- ===== src/Filter/Glob/Shorter.antt =====
-- internal/filter/glob.go: every element of a pattern leaves a shorter one.
use go_salt_events.Base.{Option-cases, [], arith, inl, inr, length, some, true, ℕ, ◌∷◌, ◌≡◌, ◌≤◌}
use go_salt_events.Filter.Glob.{Runes, after_bang, class_end, match_class, match_one, to_bracket}

to_bracket-shorter :
    (p body rest : Runes) → to_bracket p ≡ some (body, rest) → length rest ≤ length p
unfolding to_bracket
to_bracket-shorter [] body rest h = cc
to_bracket-shorter (x ∷ p) body rest h = elim (Option-cases (to_bracket p)) [
  | inl e ↦ ground arith
  | inr ((b, r), e) ↦ ground (arith, to_bracket-shorter p b r)
]

class_end-shorter : (p body rest : Runes) → class_end p ≡ some (body, rest) → length rest ≤ length p
unfolding class_end
class_end-shorter [] body rest h = cc
class_end-shorter (x ∷ p) body rest h = elim (Option-cases (to_bracket p)) [
  | inl e ↦ ground arith
  | inr ((b, r), e) ↦ ground (arith, to_bracket-shorter p b r)
]

length-after_bang : (p : Runes) → length (after_bang p) ≤ length p
unfolding after_bang
length-after_bang [] = omega arith
length-after_bang (x ∷ p) = ground arith

match_class-shorter : (p : Runes) (c : ℕ) → length (match_class p c).0 ≤ length p
unfolding match_class
match_class-shorter p c = elim (Option-cases (class_end (after_bang p))) [
  | inl e ↦ ground arith
  | inr ((b, r), e) ↦ ground (arith, class_end-shorter (after_bang p) b r, length-after_bang p)
]

pub match_one-shorter :
    (x c : ℕ) (p q : Runes) → match_one (x ∷ p) c ≡ (q, true) → length q ≤ length p
unfolding match_one
match_one-shorter x c p q h = ground (arith, match_class-shorter p c)
