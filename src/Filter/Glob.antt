-- ===== src/Filter/Glob.antt =====
-- internal/filter/glob.go: Python's fnmatch over runes. A pattern index is the rest of the pattern, and
-- a subject index the runes that `utf8.DecodeRuneInString` yields from there on.
pub mod Matches
pub mod Shorter
pub mod Open
pub mod Correct
use go_salt_events.Base.{
  Bool, List, Option, [], false, if◌then◌else◌, leb, length, none, not, some, suc, true, zero, ℕ,
  ◌&&◌, ◌*◌, ◌+◌, ◌==◌, ◌∷◌,
}

abbrev pub Runes : Type 0
Runes = List ℕ

-- `classHas`
unfoldable pub class_has : Runes → ℕ → Bool
class_has [] c = false
class_has (a ∷ d ∷ b ∷ rest) c =
    let after_range = class_has rest c in
    let after_one = class_has (d ∷ b ∷ rest) c in
    if d == b'-'
    then (if leb a c && leb c b then true else after_range)
    else if a == c
    then true
    else after_one
class_has (a ∷ rest) c = if a == c then true else class_has rest c

-- The last loop of `classEnd`: what stands before the first "]", and what follows it.
unfoldable pub to_bracket : Runes → Option (Runes × Runes)
to_bracket [] = none
to_bracket (x ∷ p) =
    if x == b']'
    then some ([], p)
    else elim (to_bracket p) [ none ↦ none | some (body, rest) ↦ some (x ∷ body, rest) ]

-- `classEnd` after the optional "!": a "]" that stands first is a member.
unfoldable pub class_end : Runes → Option (Runes × Runes)
unfolding to_bracket
class_end [] = none
class_end (x ∷ p) =
    if x == b']'
    then elim (to_bracket p) [ none ↦ none | some (body, rest) ↦ some (x ∷ body, rest) ]
    else to_bracket (x ∷ p)

unfoldable pub is_negated : Runes → Bool
is_negated [] = false
is_negated (x ∷ _) = x == b'!'

unfoldable pub after_bang : Runes → Runes
after_bang [] = []
after_bang (x ∷ p) = if x == b'!' then p else x ∷ p

-- `matchClass`, on what follows the "[".
unfoldable pub match_class : Runes → ℕ → Runes × Bool
match_class p c = elim (class_end (after_bang p)) [
  | none ↦ (p, b'[' == c)
  | some (body, rest) ↦ (rest, if is_negated p then not (class_has body c) else class_has body c)
]

-- `matchOne`: the rest of the pattern past its first element, and whether that matches `c`.
unfoldable pub match_one : Runes → ℕ → Runes × Bool
match_one [] c = ([], false)
match_one (x ∷ p) c =
    if x == b'*'
    then (x ∷ p, false)
    else if x == b'?'
    then (p, true)
    else if x == b'['
    then match_class p c
    else (p, x == c)

-- The loop over trailing stars and the final test.
unfoldable pub only_stars : Runes → Bool
only_stars [] = true
only_stars (x ∷ p) = if x == b'*' then only_stars p else false

unfoldable pub after_star : Runes → Option Runes
after_star [] = none
after_star (x ∷ p) = if x == b'*' then some p else none

-- `starP` and `starS`: the pattern after the last star, and the subject where it stops absorbing.
abbrev pub Star : Type 0
Star = Option (Runes × Runes)

-- The subject one rune on (`nextRune`).
abbrev pub next_rune : Runes → Runes
next_rune [] = []
next_rune (_ ∷ s) = s

-- The main loop of `fnmatch`; `none` is out of fuel.
unfoldable pub loop : ℕ → Runes → Runes → Star → Option Bool
loop zero p s star = none
loop (suc f) p [] star = some (only_stars p)
loop (suc f) p (c ∷ s) star =
    let next = (match_one p c).0 in
    elim (match_one p c).1 [
      | true ↦ loop f next s star
      | false ↦ elim (after_star p) [
        | some q ↦ loop f q (c ∷ s) (some (q, c ∷ s))
        | none ↦ elim star [
          | some (q, t) ↦ loop f q (next_rune t) (some (q, next_rune t))
          | none ↦ some false
        ]
      ]
    ]

-- `fnmatch`
unfoldable pub fnmatch : Runes → Runes → Option Bool
unfolding loop
fnmatch p s = loop ((length s + 1) * (length p + 1) + length p + 1) p s none
