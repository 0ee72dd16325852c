-- ===== src/Ui/Table/Fits.antt =====
-- internal/ui/components/table.go: a table without a flexible column fits its width, if it can.
use go_salt_events.Base.{
  Bool-cases, List, [], ap, arith, either_way, exceeds, false, inl, inr, leb, length, ltb, map,
  negsuc, none, pos, refl, some, subst, suc, sym, zero, ℕ, ℤ, ◌+◌, ◌-◌, ◌<◌, ◌∙◌, ◌∷◌, ◌≡◌, ◌≢◌,
  ◌≤◌, ◌⊎◌,
}
use go_salt_events.Ui.Table.{
  Column, fixed_width, last_flex, layout, lower, minus, natural, shrink, shrink_loop, sum, widest,
  widest_from,
}

abbrev pub AtMost : ℕ → List ℕ → Type 0
AtMost t [] = Unit {0}
AtMost t (w ∷ ws) = (w ≤ t) × AtMost t ws

-- As many widths, none of them larger.
abbrev pub Narrower : List ℕ → List ℕ → Type 0
Narrower [] [] = Unit {0}
Narrower [] (_ ∷ _) = ⊥
Narrower (_ ∷ _) [] = ⊥
Narrower (v ∷ vs) (w ∷ ws) = (v ≤ w) × Narrower vs ws

abbrev Holds : List ℕ → ℕ → ℕ → Type 0
Holds [] j t = ⊥
Holds (w ∷ ws) zero t = w ≡ t
Holds (w ∷ ws) (suc j) t = Holds ws j t

Narrower-refl : (ws : List ℕ) → Narrower ws ws
Narrower-refl [] = tt
Narrower-refl (w ∷ ws) = (omega arith, Narrower-refl ws)

Narrower-trans : (us vs ws : List ℕ) → Narrower us vs → Narrower vs ws → Narrower us ws
Narrower-trans [] [] [] h g = tt
Narrower-trans (u ∷ us) (v ∷ vs) (w ∷ ws) (a, h) (b, g) = (omega arith, Narrower-trans us vs ws h g)
Narrower-trans [] [] (_ ∷ _) h g = g
Narrower-trans [] (_ ∷ _) ws h g = elim h [ ]
Narrower-trans (_ ∷ _) [] ws h g = elim h [ ]
Narrower-trans (_ ∷ _) (_ ∷ _) [] h g = g

lower-Narrower : (k : ℕ) (ws : List ℕ) → Narrower (lower k ws) ws
unfolding lower
lower-Narrower k [] = tt
lower-Narrower zero (w ∷ ws) = (omega arith, Narrower-refl ws)
lower-Narrower (suc k) (w ∷ ws) = (omega arith, lower-Narrower k ws)

sum-lower : (k t : ℕ) (ws : List ℕ) → Holds ws k t → 0 < t → sum (lower k ws) + 1 ≡ sum ws
unfolding lower
sum-lower k t [] h pos_t = elim h [ ]
sum-lower zero t (w ∷ ws) h pos_t = omega arith
sum-lower (suc k) t (w ∷ ws) h pos_t = omega (arith, sum-lower k t ws h pos_t)

AtMost-le : (s t : ℕ) (ws : List ℕ) → s ≤ t → AtMost s ws → AtMost t ws
AtMost-le s t [] le h = tt
AtMost-le s t (w ∷ ws) le (a, h) = (omega arith, AtMost-le s t ws le h)

-- What the search for the widest finds from the `i`th on: the one so far, or a later one.
record Found (i k top : ℕ) (ws : List ℕ) (out : ℕ × ℕ) : Type 0 where
  above : top ≤ out.1
  bound : AtMost out.1 ws
  place : ((out.0 ≡ k) × (out.1 ≡ top)) ⊎ ((j : ℕ) × (out.0 ≡ i + j) × Holds ws j out.1)

widest_from-Found : (i k top : ℕ) (ws : List ℕ) → Found i k top ws (widest_from i k top ws)
unfolding widest_from
widest_from-Found i k top [] = record { above = omega arith; bound = tt; place = inl (refl, refl) }
widest_from-Found i k top (w ∷ ws) = elim (Bool-cases (ltb top w)) [
  | inl wider ↦
      let r = widest_from-Found (i + 1) i w ws in
      rw (widest_from, wider)
        (record {
          above = ground (arith, wider, r.above);
          bound = (r.above, r.bound);
          place = elim r.place [
            | inl (e, f) ↦ inr (0, omega (arith, e), sym f)
            | inr (j, e, h) ↦ inr (suc j, omega (arith, e), h)
          ];
        })
  | inr no_wider ↦
      let r = widest_from-Found (i + 1) k top ws in
      rw (widest_from, no_wider)
        (record {
          above = r.above;
          bound = (ground (arith, no_wider, r.above), r.bound);
          place = elim r.place [
            | inl same ↦ inl same
            | inr (j, e, h) ↦ inr (suc j, omega (arith, e), h)
          ];
        })
]

widest-IsWidest :
    (w : ℕ) (ws : List ℕ) → let (k, t) = widest (w ∷ ws) in Holds (w ∷ ws) k t × AtMost t (w ∷ ws)
unfolding widest
widest-IsWidest w ws =
    let r = widest_from-Found 1 0 w ws in
    let (k, t) = widest_from 1 0 w ws in
    (
      elim r.place [
        | inl (e, f) ↦ subst (λ x. Holds (w ∷ ws) x t) (sym e) (sym f)
        | inr (j, e, h) ↦
            let at_suc : k ≡ suc j = omega (arith, e) in
            subst (λ x. Holds (w ∷ ws) x t) (sym at_suc) h
      ],
      (r.above, r.bound),
    )

-- The widths that shrinking leaves.
pub record Fitted (old : List ℕ) (avail : ℤ) (ws : List ℕ) : Type 0 where
  pub narrower : Narrower ws old
  pub fits : (exceeds (sum ws) avail ≡ false) ⊎ AtMost 1 ws

sum-AtMost : (ws : List ℕ) → sum ws ≤ 1 → AtMost 1 ws
sum-AtMost [] h = tt
sum-AtMost (w ∷ ws) h = (omega arith, sum-AtMost ws (omega arith))

shrink_loop-Fitted :
    (f : ℕ) (ws : List ℕ) (avail : ℤ)
    → sum ws ≤ f
    → Fitted ws avail (shrink_loop f ws (sum ws) avail)
unfolding shrink_loop
shrink_loop-Fitted zero ws avail enough = record {
  narrower = Narrower-refl ws;
  fits = inr (sum-AtMost ws (omega arith));
}
shrink_loop-Fitted (suc f) [] avail enough =
    either_way (Fitted [] avail) (exceeds 0 avail) (record { narrower = tt; fits = inr tt })
      (record { narrower = tt; fits = inr tt })
shrink_loop-Fitted (suc f) (w ∷ ws) avail enough =
    elim (Bool-cases (exceeds (sum (w ∷ ws)) avail)) [
      | inr fine ↦
          rw (shrink_loop, fine) (record { narrower = Narrower-refl (w ∷ ws); fits = inl fine })
      | inl over ↦
          let (held, most) = widest-IsWidest w ws in
          let (k, t) = widest (w ∷ ws) in
          elim (Bool-cases (leb t 1)) [
            | inl narrow ↦
                rw (shrink_loop, over, narrow)
                  (record {
                    narrower = Narrower-refl (w ∷ ws);
                    fits = inr (AtMost-le t 1 (w ∷ ws) (ground (arith, narrow)) most);
                  })
            | inr wide ↦
                let one = sum-lower k t (w ∷ ws) held (ground (arith, wide)) in
                let next : sum (w ∷ ws) - 1 ≡ sum (lower k (w ∷ ws)) = omega (arith, one) in
                let r = shrink_loop-Fitted f (lower k (w ∷ ws)) avail (omega (arith, one)) in
                rw (shrink_loop, over, wide, next)
                  (record {
                    narrower =
                        Narrower-trans _ (lower k (w ∷ ws)) (w ∷ ws) r.narrower
                          (lower-Narrower k (w ∷ ws));
                    fits = r.fits;
                  })
          ]
    ]

last_flex-some : (i k : ℕ) (cs : List Column) → last_flex i (some k) cs ≢ none
unfolding last_flex
last_flex-some i k [] h = ground (arith, h)
last_flex-some i k (c ∷ cs) h = elim (Bool-cases c.flex) [
  | inl on ↦ last_flex-some (i + 1) i cs (sym (rw on refl) ∙ h)
  | inr off ↦ last_flex-some (i + 1) k cs (sym (rw off refl) ∙ h)
]

abbrev pub asked : List Column → List ℕ
asked cs = map (λ (c : Column). natural c.width) cs

fixed_width-sum :
    (i : ℕ) (cs : List Column) → last_flex i none cs ≡ none → fixed_width cs ≡ sum (asked cs)
unfolding fixed_width last_flex
fixed_width-sum i [] h = refl
fixed_width-sum i (c ∷ cs) h = elim (Bool-cases c.flex) [
  | inl on ↦ absurd (last_flex-some (i + 1) i cs (sym (rw on refl) ∙ h))
  | inr off ↦
      rw off (ap (λ n. natural c.width + n) (fixed_width-sum (i + 1) cs (sym (rw off refl) ∙ h)))
]

exceeds-minus : (s n : ℕ) (w : ℤ) → exceeds s (minus w n) ≡ false → exceeds (s + n) w ≡ false
unfolding minus
exceeds-minus s n (pos a) h = elim (Bool-cases (leb n a)) [
  | inl small ↦ ground (arith, h, small)
  | inr large ↦ ground (arith, h, large)
]
exceeds-minus s n (negsuc a) h = ground (arith, h)

-- A table none of whose columns is flexible: no column gets more than it asks for, and either the row
-- fits the width, with one space between columns, or every column is down to one cell at most.
-- Shrinking always ends.
pub layout-fits :
    (c : Column) (cs : List Column) (width : ℤ)
    → last_flex 0 none (c ∷ cs) ≡ none
    → let ws = layout (c ∷ cs) width in
      Narrower ws (asked (c ∷ cs)) × ((exceeds (sum ws + length cs) width ≡ false) ⊎ AtMost 1 ws)
unfolding layout shrink
layout-fits c cs width rigid =
    let avail = minus width (length cs) in
    let total = fixed_width-sum 0 (c ∷ cs) rigid in
    let r = shrink_loop-Fitted (sum (asked (c ∷ cs))) (asked (c ∷ cs)) avail (omega arith) in
    rw (layout, rigid, total)
      (
        r.narrower,
        elim r.fits [
          | inl fine ↦ inl (exceeds-minus _ (length cs) width fine)
          | inr ones ↦ inr ones
        ],
      )
