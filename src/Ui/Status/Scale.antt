-- ===== src/Ui/Status/Scale.antt =====
-- internal/ui/statusbar.go: the arithmetic of the status bar.
use go_salt_events.Base.{
  Bool-cases, ap, arith, false, inl, inr, ltb, ltb→lt, pos, refl, subst, suc, sym, zero, ℕ, ◌*◌,
  ◌+◌, ◌/◌, ◌<◌, ◌^◌, ◌∙◌, ◌≡◌, ◌≤◌, ◌⊎◌,
}
use native.Mathlib.Nat.{div-div-eq-div-mul, div-lt_iff_lt-mul, le-div_iff_mul-le, pow-suc}
use go_salt_events.Ui.Status.{Scaled, human_bytes, in_bytes, justify, scale_from, scaled}

-- The two texts and the gap fill the columns, and the left one is cut only for want of room, when the right one
-- leaves a column free.
pub justify-fills :
    (left right w : ℕ)
    → right < w
    → let (kept, gap) = justify left right w in
      (kept + gap + right ≡ w) × (kept ≤ left) × ((kept ≡ left) ⊎ (gap ≡ 1))
unfolding justify
justify-fills left right w room = ground arith

not_less : (n : ℕ) → ltb n 1024 ≡ false → 1024 ≤ n
not_less n e = ground arith

-- The divisor is a power of 1024 and the quotient is below 1024, but for the largest suffix.
record Fitted (n div exp top : ℕ) : Type 0 where
  pub power : div ≡ 1024 ^ (exp + 1)
  pub suffix : exp ≤ top
  pub at_least : div ≤ n
  pub below : (exp ≡ top) ⊎ (n < div * 1024)

scale_from-Fitted :
    (left n v div exp : ℕ)
    → v ≡ n / div
    → div ≡ 1024 ^ (exp + 1)
    → 0 < div
    → div ≤ n
    → let (d, e) = scale_from left v div exp in Fitted n d e (left + exp)
unfolding scale_from
scale_from-Fitted zero n v div exp same power positive le = record {
  power = power;
  suffix = omega arith;
  at_least = le;
  below = inl (omega arith);
}
scale_from-Fitted (suc left) n v div exp same power positive le = elim (Bool-cases (ltb v 1024)) [
  | inl small ↦ rw small (record {
    power = power;
    suffix = omega arith;
    at_least = le;
    below =
        let under : n < 1024 * div =
          (div-lt_iff_lt-mul positive).0 (rw (sym same) (ltb→lt v 1024 small)) in
        inr (omega (arith, under));
  })
  | inr large ↦
      let over : 1024 * div ≤ n =
        (le-div_iff_mul-le positive).0 (rw (sym same) (not_less v large)) in
      let next_exp : suc (exp + 1) ≡ exp + 1 + 1 = omega arith in
      let further =
        scale_from-Fitted left n (v / 1024) (div * 1024) (exp + 1)
          (ap (λ x. x / 1024) same ∙ div-div-eq-div-mul n div 1024)
          (ap (λ x. x * 1024) power ∙ sym (pow-suc 1024 (exp + 1)) ∙ ap (λ k. 1024 ^ k) next_exp)
          (omega (arith, positive)) (omega (arith, over)) in
      let sums : left + (exp + 1) ≡ suc left + exp = omega arith in
      rw large (
        subst
          (λ k.
            Fitted n (scale_from left (v / 1024) (div * 1024) (exp + 1)).0
              (scale_from left (v / 1024) (div * 1024) (exp + 1)).1 k)
          sums further)
]

-- What the status bar prints of a number of bytes: as it is below 1024, and otherwise as a quotient by the power
-- of 1024 that goes with one of the four suffixes, which is below 1024 but for the last.
abbrev pub Printed : ℕ → Scaled → Type 0
Printed n (in_bytes i) = (i ≡ pos n) × (n < 1024)
Printed n (scaled m div exp) =
    (m ≡ n) × (div ≡ 1024 ^ (exp + 1)) × (exp ≤ 3) × (div ≤ n) × ((exp ≡ 3) ⊎ (n < div * 1024))

-- A number of bytes is printed as it is below 1024, and otherwise by the power of 1024 of one of the four
-- suffixes: the largest power that it reaches, or that of the last suffix.
pub human_bytes-Printed : (n : ℕ) → Printed n (human_bytes (pos n))
unfolding human_bytes
human_bytes-Printed n = elim (Bool-cases (ltb n 1024)) [
  | inl small ↦ rw small (refl, ltb→lt n 1024 small)
  | inr large ↦
      let f = scale_from-Fitted 3 n (n / 1024) 1024 0 refl refl (omega arith) (not_less n large) in
      rw large (refl, f.power, f.suffix, f.at_least, f.below)
]
