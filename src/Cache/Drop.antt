-- ===== src/Cache/Drop.antt =====
-- internal/cache/cache.go, the second loop of `degrade`: whole events go, oldest first.
use go_salt_events.Base.{
  Bool-cases, List, List-cases, [], ap, ap₂, arith, drop, drop-drop, exceeds, false, inl, inr,
  length, nil_of_length-le, none, refl, subst, suc, sym, true, zero, ℕ, ◌+◌, ◌-◌, ◌∙◌, ◌∷◌, ◌≡◌,
  ◌≤◌, ◌⊎◌,
}
use go_salt_events.Model.Event.{Event, size}
use go_salt_events.Cache.{Cache, drop_loop, drop_one}
use go_salt_events.Cache.Degrade.{IsValid, ShedTo, total}

-- Every event is without its payload.
abbrev pub AllShed : List Event → Type 0
AllShed [] = Unit {0}
AllShed (e ∷ es) = (e.payload ≡ none) × AllShed es

pub ShedTo→AllShed : (k : ℕ) (es : List Event) → length es ≤ k → ShedTo k es → AllShed es
ShedTo→AllShed k [] h s = tt
ShedTo→AllShed zero (e ∷ es) h s = absurd (omega arith)
ShedTo→AllShed (suc k) (e ∷ es) h s = (s.0, ShedTo→AllShed k es (omega arith) s.1)

-- What a run of the second loop from `c` to `d` does: it takes events off the front and counts them.
pub record Drops (c d : Cache) : Type 0 where
  pub valid : IsValid d
  pub budget : d.budget ≡ c.budget
  pub shed : d.shed ≡ c.shed
  pub grows : c.dropped ≤ d.dropped
  pub balance : d.dropped + length d.events ≡ c.dropped + length c.events
  pub suffix : d.events ≡ drop (d.dropped - c.dropped) c.events

Drops-refl : (c : Cache) → IsValid c → Drops c c
Drops-refl c v = record {
  valid = v;
  budget = refl;
  shed = refl;
  grows = omega arith;
  balance = refl;
  suffix = ap (λ n. drop n c.events) {x = 0} {y = c.dropped - c.dropped} (omega arith);
}

Drops-trans : {c d e : Cache} → Drops c d → Drops d e → Drops c e
Drops-trans {c} {d} {e} s t = record {
  valid = t.valid;
  budget = t.budget ∙ s.budget;
  shed = t.shed ∙ s.shed;
  grows = omega arith;
  balance = omega arith;
  suffix =
      t.suffix
      ∙ ap (drop (e.dropped - d.dropped)) s.suffix
      ∙ drop-drop (e.dropped - d.dropped) (d.dropped - c.dropped) (e.dropped - c.dropped) c.events
          (omega arith);
}

ShedTo-rest : (k : ℕ) (e : Event) (rest : List Event) → ShedTo k (e ∷ rest) → ShedTo (k - 1) rest
ShedTo-rest zero e rest s = tt
ShedTo-rest (suc k) e rest s = subst (λ n. ShedTo n rest) {x = k} {y = suc k - 1} (omega arith) s.1

drop_one-Drops :
    (c : Cache) (e : Event) (rest : List Event)
    → c.events ≡ e ∷ rest
    → IsValid c
    → Drops c (drop_one c e rest)
unfolding drop_one
drop_one-Drops c e rest h v = record {
  valid = record {
    counted = let t : total c.events ≡ size e + total rest = ap total h in omega (arith, v.counted);
    shed_to = ShedTo-rest c.shed_idx e rest (rw h at v.shed_to);
  };
  budget = refl;
  shed = refl;
  grows = omega arith;
  balance = let t : length c.events ≡ suc (length rest) = ap length h in omega arith;
  suffix = sym (ap₂ drop {x = c.dropped + 1 - c.dropped} {y = 1} (omega arith) h);
}

-- The three ways a round of the second loop goes.
drop_loop-fits : (f : ℕ) (c : Cache) → exceeds c.used c.budget ≡ false → drop_loop f c ≡ c
unfolding drop_loop
drop_loop-fits zero c h = refl
drop_loop-fits (suc f) c h = rw (h, drop_loop)

drop_loop-ends : (f : ℕ) (c : Cache) → c.events ≡ [] → drop_loop f c ≡ c
unfolding drop_loop
drop_loop-ends zero c h = refl
drop_loop-ends (suc f) c h = ground arith

drop_loop-round :
    (f : ℕ) (c : Cache) (e : Event) (rest : List Event)
    → exceeds c.used c.budget ≡ true
    → c.events ≡ e ∷ rest
    → drop_loop (suc f) c ≡ drop_loop f (drop_one c e rest)
unfolding drop_loop
drop_loop-round f c e rest over h = ground arith

pub drop_loop-Drops : (f : ℕ) (c : Cache) → IsValid c → Drops c (drop_loop f c)
drop_loop-Drops zero c v = unfold drop_loop in Drops-refl c v
drop_loop-Drops (suc f) c v = elim (Bool-cases (exceeds c.used c.budget)) [
  | inl over ↦ elim (List-cases c.events) [
    | inl none_left ↦ rw (drop_loop-ends (suc f) c none_left) (Drops-refl c v)
    | inr (e, rest, h) ↦
        let s = drop_one-Drops c e rest h v in
        rw (drop_loop-round f c e rest over h)
          (Drops-trans s (drop_loop-Drops f (drop_one c e rest) s.valid))
  ]
  | inr fits ↦ rw (drop_loop-fits (suc f) c fits) (Drops-refl c v)
]

-- The fuel is enough: the second loop ends within budget, or with no event left.
pub drop_loop-in_budget :
    (f : ℕ) (c : Cache)
    → length c.events ≤ f
    → (exceeds (drop_loop f c).used (drop_loop f c).budget ≡ false) ⊎ ((drop_loop f c).events ≡ [])
drop_loop-in_budget zero c h = unfold drop_loop in inr (nil_of_length-le c.events h)
drop_loop-in_budget (suc f) c h = elim (Bool-cases (exceeds c.used c.budget)) [
  | inl over ↦ elim (List-cases c.events) [
    | inl none_left ↦ rw (drop_loop-ends (suc f) c none_left) (inr none_left)
    | inr (e, rest, p) ↦
        let shorter : suc (length rest) ≤ suc f = rw (ap length p) at h in
        rw (drop_loop-round f c e rest over p)
          (drop_loop-in_budget f (drop_one c e rest) (unfold drop_one in omega arith))
  ]
  | inr fits ↦ rw (drop_loop-fits (suc f) c fits) (inl fits)
]

AllShed-drop : (n : ℕ) (es : List Event) → AllShed es → AllShed (drop n es)
AllShed-drop zero es h = h
AllShed-drop (suc n) [] h = tt
AllShed-drop (suc n) (e ∷ es) h = AllShed-drop n es h.1

-- Nothing is dropped while a payload could still be shed.
pub drop_loop-spares :
    (f : ℕ) (c : Cache)
    → IsValid c
    → (exceeds c.used c.budget ≡ false) ⊎ AllShed c.events
    → ((drop_loop f c).dropped ≡ c.dropped) ⊎ AllShed (drop_loop f c).events
drop_loop-spares f c v (inl fits) = rw (drop_loop-fits f c fits) (inl refl)
drop_loop-spares f c v (inr bare) =
    let d = drop_loop-Drops f c v in inr (rw d.suffix (AllShed-drop _ c.events bare))
