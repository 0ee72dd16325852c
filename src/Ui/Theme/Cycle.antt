-- ===== src/Ui/Theme/Cycle.antt =====
-- internal/theme/registry.go: the `t` key comes to every palette.
use go_salt_events.Base.{
  Bool-cases, Bytes, List, [], ap, arith, bytes_eq, bytes_eq→eq, bytes_ltb, codes, false≢true, inl,
  inr, insert_sorted, refl, sort, subst, sym, true, ℕ, ◌∙◌, ◌∷◌, ◌≡◌, ◌≤◌, ◌⊎◌,
}
use go_salt_events.Filter.Query.{is_in}
use go_salt_events.Ui.Theme.{default_name, is_registered, names, next, next_from, nexts}

pub default_registered : is_registered default_name ≡ true
unfolding is_registered is_in bytes_eq
default_registered = refl

is_in-cons :
    (n : Bytes) (ns : List Bytes) (name : Bytes)
    → is_in (n ∷ ns) name ≡ true
    → (name ≡ n) ⊎ (is_in ns name ≡ true)
unfolding is_in
is_in-cons n ns name h = elim (Bool-cases (bytes_eq n name)) [
  | inl eq ↦ inl (sym (bytes_eq→eq n name eq))
  | inr ne ↦ inr (ground (arith, h, ne))
]

-- Four names.
record Names : Type 0 where
  first : Bytes
  second : Bytes
  third : Bytes
  fourth : Bytes

abbrev OneOf : Names → Bytes → Type 0
OneOf n name = (name ≡ n.first) ⊎ ((name ≡ n.second) ⊎ ((name ≡ n.third) ⊎ (name ≡ n.fourth)))

-- Each is followed by the one after it, and the last by the first.
abbrev Round : Names → Type 0
Round n =
    (next n.first ≡ n.second)
    × (next n.second ≡ n.third)
    × (next n.third ≡ n.fourth)
    × (next n.fourth ≡ n.first)

abbrev in_order : Names
in_order = record {
  first = codes "gruvbox-dark";
  second = codes "mono";
  third = codes "solarized-dark";
  fourth = codes "solarized-light";
}

in_order-Round : Round in_order
unfolding next next_from names sort insert_sorted bytes_ltb bytes_eq
in_order-Round = (refl, refl, refl, refl)

registered-OneOf : (name : Bytes) → is_registered name ≡ true → OneOf in_order name
unfolding is_registered is_in
registered-OneOf name h =
    elim (is_in-cons (codes "gruvbox-dark")
      (codes "solarized-dark" ∷ codes "solarized-light" ∷ codes "mono" ∷ []) name h) [
        | inl a ↦ inl a
        | inr rest ↦
            elim (is_in-cons (codes "solarized-dark") (codes "solarized-light" ∷ codes "mono" ∷ [])
              name rest) [
                | inl b ↦ inr (inr (inl b))
                | inr more ↦
                    elim (is_in-cons (codes "solarized-light") (codes "mono" ∷ []) name more) [
                      | inl c ↦ inr (inr (inr c))
                      | inr last ↦ elim (is_in-cons (codes "mono") [] name last) [
                        | inl d ↦ inr (inl d)
                        | inr nowhere ↦ absurd (false≢true nowhere)
                      ]
                    ]
              ]
      ]

-- Within three presses.
abbrev Reaches : Bytes → Bytes → Type 0
Reaches a b = (k : ℕ) × (k ≤ 3) × (nexts k a ≡ b)

from_first : (n : Names) → Round n → (b : Bytes) → OneOf n b → Reaches n.first b
from_first n (ab, bc, cd, da) b at = elim at [
  | inl e ↦ (0, omega arith, sym e)
  | inr (inl e) ↦ (1, omega arith, ab ∙ sym e)
  | inr (inr (inl e)) ↦ (2, omega arith, ap next ab ∙ bc ∙ sym e)
  | inr (inr (inr e)) ↦ (3, omega arith, ap (λ x. next (next x)) ab ∙ ap next bc ∙ cd ∙ sym e)
]

abbrev turned : Names → Names
turned n = record { first = n.second; second = n.third; third = n.fourth; fourth = n.first }

turned-OneOf : (n : Names) (b : Bytes) → OneOf n b → OneOf (turned n) b
turned-OneOf n b at = elim at [
  | inl e ↦ inr (inr (inr e))
  | inr (inl e) ↦ inl e
  | inr (inr (inl e)) ↦ inr (inl e)
  | inr (inr (inr e)) ↦ inr (inr (inl e))
]

abbrev turned-Round : (n : Names) → Round n → Round (turned n)
turned-Round n (ab, bc, cd, da) = (bc, cd, da, ab)

from_any : (n : Names) → Round n → (a b : Bytes) → OneOf n a → OneOf n b → Reaches a b
from_any n r a b at to =
    let n2 = turned n in
    let n3 = turned n2 in
    let to2 = turned-OneOf n b to in
    let to3 = turned-OneOf n2 b to2 in
    let r2 = turned-Round n r in
    let r3 = turned-Round n2 r2 in
    elim at [
      | inl e ↦ subst (λ x. Reaches x b) (sym e) (from_first n r b to)
      | inr (inl e) ↦ subst (λ x. Reaches x b) (sym e) (from_first n2 r2 b to2)
      | inr (inr (inl e)) ↦ subst (λ x. Reaches x b) (sym e) (from_first n3 r3 b to3)
      | inr (inr (inr e)) ↦
          subst (λ x. Reaches x b) (sym e)
            (from_first (turned n3) (turned-Round n3 r3) b (turned-OneOf n3 b to3))
    ]

registered-next : (name : Bytes) → OneOf in_order name → is_registered (next name) ≡ true
unfolding is_registered is_in bytes_eq
registered-next name at =
    let (ab, bc, cd, da) = in_order-Round in
    elim at [
      | inl e ↦ ap is_registered (ap next e ∙ ab)
      | inr (inl e) ↦ ap is_registered (ap next e ∙ bc)
      | inr (inr (inl e)) ↦ ap is_registered (ap next e ∙ cd)
      | inr (inr (inr e)) ↦ ap is_registered (ap next e ∙ da)
    ]

-- What follows a registered palette is registered.
pub next_registered : (name : Bytes) → is_registered name ≡ true → is_registered (next name) ≡ true
next_registered name known = registered-next name (registered-OneOf name known)

-- From any palette to any other, or to itself, `Next` leads in at most three steps.
pub next_reaches :
    (a b : Bytes)
    → is_registered a ≡ true
    → is_registered b ≡ true
    → (k : ℕ) × (k ≤ 3) × (nexts k a ≡ b)
next_reaches a b known wanted =
    from_any in_order in_order-Round a b (registered-OneOf a known) (registered-OneOf b wanted)
