-- ===== src/Filter/Query/Literal.antt =====
-- internal/filter/filter.go, `globMatch`: the literal fast path against the glob engine.
use go_salt_events.Base.{
  [], arith, bytes_eq, false, length, none, refl, some, suc, zero, ℕ, ◌*◌, ◌+◌, ◌<◌, ◌∷◌, ◌≡◌,
}
use go_salt_events.Filter.Glob.{Runes, after_star, fnmatch, loop, match_one, only_stars}
use go_salt_events.Filter.Query.{has_meta}

loop-literal :
    (f : ℕ) (p s : Runes)
    → has_meta p ≡ false
    → length s < f
    → loop f p s none ≡ some (bytes_eq p s)
unfolding loop has_meta match_one only_stars after_star bytes_eq
loop-literal zero p s plain lt = ground arith
loop-literal (suc f) [] [] plain lt = refl
loop-literal (suc f) (x ∷ p) [] plain lt = ground (arith, plain)
loop-literal (suc f) [] (c ∷ s) plain lt = refl
loop-literal (suc f) (x ∷ p) (c ∷ s) plain lt = ground (arith, plain, loop-literal f p s)

enough_fuel : (a b : ℕ) → a < (a + 1) * (b + 1) + b + 1
enough_fuel a zero = omega arith
enough_fuel a (suc b) = omega (arith, enough_fuel a b)

-- The shortcut for a term without metacharacters is exact: on such a pattern the glob engine answers
-- yes exactly for an equal text.
pub fnmatch-literal : (p s : Runes) → has_meta p ≡ false → fnmatch p s ≡ some (bytes_eq p s)
unfolding fnmatch
fnmatch-literal p s plain =
    loop-literal ((length s + 1) * (length p + 1) + length p + 1) p s plain
      (enough_fuel (length s) (length p))
