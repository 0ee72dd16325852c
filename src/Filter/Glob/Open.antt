-- ===== src/Filter/Glob/Open.antt =====
-- internal/filter/glob.go, `fnmatch`: the question that is still open at a point of the scan, and how
-- it passes from one round to the next.
use go_salt_events.Base.{
  Bool, Bool-cases, Option, [], arith, false, false≢true, inl, inr, length, none, refl, some, sym,
  true, ℕ, ◌<◌, ◌↔◌, ◌∙◌, ◌∷◌, ◌≡◌, ◌⊎◌,
}
use go_salt_events.Filter.Glob.{Runes, Star, match_one, next_rune, only_stars}
use go_salt_events.Filter.Glob.Matches.{
  Element-of_match, Element-step, Matches, Matches→only_stars, absorb, leave, one,
  only_stars→Matches, star_cases, star_drops, star_end, star_star,
}

-- What is left to find when the scan goes back: the last star absorbs at least one rune more.
abbrev pub Later : Star → Type 0
Later none = ⊥
Later (some (q, t)) = (0 < length t) × Matches (b'*' ∷ q) (next_rune t)

-- What the scan is still to answer at `p` and `s`.
abbrev pub Open : Runes → Runes → Star → Type 0
Open p s star = Matches p s ⊎ Later star

-- The scan came from the last star to `p` and `s` by elements that each took a rune.
pub data Reached (q t : Runes) : Runes → Runes → Type 0 where
  at_star : Reached q t q t
  past :
      {x c : ℕ} {p r s : Runes}
      → Reached q t (x ∷ p) (c ∷ s)
      → match_one (x ∷ p) c ≡ (r, true)
      → Reached q t r s

abbrev pub Since : Star → Runes → Runes → Type 0
Since none p s = Unit {0}
Since (some (q, t)) p s = Reached q t p s

-- A match from the last star is a match of a star before the present place.
pub Reached-star : (q t p s : Runes) → Reached q t p s → Matches (b'*' ∷ q) t → Matches (b'*' ∷ p) s
Reached-star q t p s at_star m = m
Reached-star q t p s (past {x} {c} {p = p'} r h) m =
    star_drops x c p' p s (Element-of_match x c p' p h) (Reached-star q t (x ∷ p') (c ∷ s) r m)

pub Later-absorb :
    (q t : Runes) → (0 < length t) × Matches (b'*' ∷ q) (next_rune t) → Matches (b'*' ∷ q) t
Later-absorb q [] (lt, m) = absurd (omega arith)
Later-absorb q (c ∷ t) (lt, m) = absorb refl m

pub Later-star : (star : Star) (p s : Runes) → Since star p s → Later star → Matches (b'*' ∷ p) s
Later-star none p s r l = absurd l
Later-star (some (q, t)) p s r l = Reached-star q t p s r (Later-absorb q t l)

-- The run ended with an answer, and the answer is right about `G`.
abbrev pub Answers : Type 0 → Option Bool → Type 0
Answers G none = ⊥
Answers G (some true) = G
Answers G (some false) = ¬ G

pub Answers-iff : (G H : Type 0) (r : Option Bool) → G ↔ H → Answers G r → Answers H r
Answers-iff G H none e a = a
Answers-iff G H (some true) e a = e.0 a
Answers-iff G H (some false) e a = λ h. a (e.1 h)

-- The four ways in which the open question passes from one round to the next.
pub Open-end :
    (p : Runes) (star : Star) → Since star p [] → Answers (Open p [] star) (some (only_stars p))
Open-end p star r = elim (Bool-cases (only_stars p)) [
  | inl e ↦ rw e (inl (only_stars→Matches p e))
  | inr e ↦ rw e λ o. elim o [
    | inl m ↦ false≢true (sym e ∙ Matches→only_stars p m)
    | inr l ↦
        false≢true (sym e ∙ Matches→only_stars p (star_end b'*' p refl (Later-star star p [] r l)))
  ]
]

pub Open-one :
    (x c : ℕ) (p q s : Runes) (star : Star)
    → match_one (x ∷ p) c ≡ (q, true)
    → Open q s star ↔ Open (x ∷ p) (c ∷ s) star
Open-one x c p q s star h = (
  λ o. elim o [ inl m ↦ inl (one h m) | inr l ↦ inr l ],
  λ o. elim o [
    | inl m ↦ inl (Element-step x c p q s (Element-of_match x c p q h) m)
    | inr l ↦ inr l
  ],
)

pub Open-star :
    (x c : ℕ) (p s : Runes) (star : Star)
    → x ≡ b'*'
    → Since star (x ∷ p) (c ∷ s)
    → Open p (c ∷ s) (some (p, c ∷ s)) ↔ Open (x ∷ p) (c ∷ s) star
Open-star x c p s star e r = (
  λ o. elim o [ inl m ↦ inl (leave e m) | inr (lt, m) ↦ inl (absorb e (rw e m)) ],
  λ o. elim o [
    | inl m ↦ star_next m
    | inr l ↦ star_next (star_star x p (c ∷ s) e (Later-star star (x ∷ p) (c ∷ s) r l))
  ],
)
  where
    star_next : Matches (x ∷ p) (c ∷ s) → Open p (c ∷ s) (some (p, c ∷ s))
    star_next m = elim (star_cases x c p s e m) [
      | inl d ↦ inl d
      | inr d ↦ inr (omega arith, rw (← e) d)
    ]

pub Open-back :
    (c : ℕ) (p s q t : Runes)
    → ¬ Matches p (c ∷ s)
    → 0 < length t
    → Open q (next_rune t) (some (q, next_rune t)) ↔ Open p (c ∷ s) (some (q, t))
Open-back c p s q t no_match lt = (
  λ o. inr (lt, elim o [ inl m ↦ leave refl m | inr l ↦ Later-absorb q (next_rune t) l ]),
  λ o. elim o [ inl m ↦ absurd (no_match m) | inr (_, m) ↦ split (next_rune t) m ],
)
  where
    split : (u : Runes) → Matches (b'*' ∷ q) u → Open q u (some (q, u))
    split [] m = inl (star_end b'*' q refl m)
    split (d ∷ u) m = elim (star_cases b'*' d q u refl m) [
      | inl n ↦ inl n
      | inr n ↦ inr (omega arith, n)
    ]
