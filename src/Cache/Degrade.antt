-- ===== src/Cache/Degrade.antt =====
-- internal/cache/cache.go, `degrade`: the accounting, the order of its two loops and what they keep.
use go_salt_events.Base.{
  Bool-cases, List, Option-cases, [], ap, arith, exceeds, false, get_elem?, inl, inr, length,
  length-le_of_none, length-set, map, none, refl, set, some, suc, true, zero, ℕ, ◌++◌, ◌+◌, ◌∙◌,
  ◌∷◌, ◌≡◌, ◌≤◌, ◌⊎◌,
}
use go_salt_events.Model.Event.{Event, size}
use go_salt_events.Cache.{Cache, shed_loop, shed_one, stripped}

abbrev pub total : List Event → ℕ
total [] = 0
total (e ∷ es) = size e + total es

-- The first `k` events are there, and carry no payload.
abbrev pub ShedTo : ℕ → List Event → Type 0
ShedTo zero es = Unit {0}
ShedTo (suc k) [] = ⊥
ShedTo (suc k) (e ∷ es) = (e.payload ≡ none) × ShedTo k es

-- `used` is the cost of the events, and every event before the shed index is without its payload.
pub record IsValid (c : Cache) : Type 0 where
  pub counted : c.used ≡ total c.events
  pub shed_to : ShedTo c.shed_idx c.events

-- What shedding leaves alone: everything but the payload and the flag that says it is gone.
unfoldable pub indexed : Event → Event
indexed e = record e { payload = none; shed = false }

pub total-append : (xs ys : List Event) → total (xs ++ ys) ≡ total xs + total ys
total-append [] ys = omega arith
total-append (x ∷ xs) ys = omega (arith, total-append xs ys)

pub total-set :
    (es : List Event) (i : ℕ) (e v : Event)
    → get_elem? es i ≡ some e
    → total (set es i v) + size e ≡ total es + size v
total-set [] i e v h = cc
total-set (x ∷ es) zero e v h = ground arith
total-set (x ∷ es) (suc i) e v h = omega (arith, total-set es i e v h)

pub ShedTo-append : (k : ℕ) (xs ys : List Event) → ShedTo k xs → ShedTo k (xs ++ ys)
ShedTo-append zero xs ys h = tt
ShedTo-append (suc k) [] ys h = absurd h
ShedTo-append (suc k) (x ∷ xs) ys h = (h.0, ShedTo-append k xs ys h.1)

-- A shed index moves past an event that has no payload.
pub ShedTo-next :
    (es : List Event) (i : ℕ) (e : Event)
    → get_elem? es i ≡ some e
    → e.payload ≡ none
    → ShedTo i es
    → ShedTo (i + 1) es
ShedTo-next [] i e h p s = cc
ShedTo-next (x ∷ es) zero e h p s = ground arith
ShedTo-next (x ∷ es) (suc i) e h p s = ground (arith, ShedTo-next es i e h p s.1)

pub indexed-set :
    (es : List Event) (i : ℕ) (e : Event)
    → get_elem? es i ≡ some e
    → map indexed (set es i (stripped e)) ≡ map indexed es
unfolding indexed stripped
indexed-set [] i e h = refl
indexed-set (x ∷ es) zero e h = ground arith
indexed-set (x ∷ es) (suc i) e h = ap (λ t. indexed x ∷ t) (indexed-set es i e h)

pub ShedTo-set :
    (es : List Event) (i : ℕ) (e : Event)
    → get_elem? es i ≡ some e
    → ShedTo i es
    → ShedTo (i + 1) (set es i (stripped e))
unfolding stripped
ShedTo-set [] i e h s = cc
ShedTo-set (x ∷ es) zero e h s = ground arith
ShedTo-set (x ∷ es) (suc i) e h s = ground (arith, ShedTo-set es i e h s.1)

-- One round of shedding keeps the invariant, the budget, the number of drops, and all but payloads.
pub record Sheds (c d : Cache) : Type 0 where
  pub valid : IsValid d
  pub budget : d.budget ≡ c.budget
  pub dropped : d.dropped ≡ c.dropped
  pub kept : map indexed d.events ≡ map indexed c.events
  pub count : length d.events ≡ length c.events

shed_one-Sheds :
    (c : Cache) (e : Event)
    → get_elem? c.events c.shed_idx ≡ some e
    → IsValid c
    → Sheds c (shed_one c e)
unfolding shed_one size stripped
shed_one-Sheds c e h v = ground (
  arith,
  total-set c.events c.shed_idx e (stripped e),
  ShedTo-next c.events c.shed_idx e,
  ShedTo-set c.events c.shed_idx e,
  indexed-set c.events c.shed_idx e,
  length-set c.events c.shed_idx (stripped e),
)

Sheds-refl : (c : Cache) → IsValid c → Sheds c c
Sheds-refl c v = record { valid = v; budget = refl; dropped = refl; kept = refl; count = refl }

Sheds-trans : {c d e : Cache} → Sheds c d → Sheds d e → Sheds c e
Sheds-trans s t = record {
  valid = t.valid;
  budget = t.budget ∙ s.budget;
  dropped = t.dropped ∙ s.dropped;
  kept = t.kept ∙ s.kept;
  count = t.count ∙ s.count;
}

-- The three ways a round of the first loop goes.
shed_loop-fits : (f : ℕ) (c : Cache) → exceeds c.used c.budget ≡ false → shed_loop f c ≡ c
unfolding shed_loop
shed_loop-fits zero c h = refl
shed_loop-fits (suc f) c h = rw (h, shed_loop)

shed_loop-ends : (f : ℕ) (c : Cache) → get_elem? c.events c.shed_idx ≡ none → shed_loop f c ≡ c
unfolding shed_loop
shed_loop-ends zero c h = refl
shed_loop-ends (suc f) c h = ground arith

shed_loop-round :
    (f : ℕ) (c : Cache) (e : Event)
    → exceeds c.used c.budget ≡ true
    → get_elem? c.events c.shed_idx ≡ some e
    → shed_loop (suc f) c ≡ shed_loop f (shed_one c e)
unfolding shed_loop
shed_loop-round f c e over at = rw (over, at, shed_loop)

pub shed_loop-Sheds : (f : ℕ) (c : Cache) → IsValid c → Sheds c (shed_loop f c)
shed_loop-Sheds zero c v = unfold shed_loop in Sheds-refl c v
shed_loop-Sheds (suc f) c v = elim (Bool-cases (exceeds c.used c.budget)) [
  | inl over ↦ elim (Option-cases (get_elem? c.events c.shed_idx)) [
    | inl gone ↦ rw (shed_loop-ends (suc f) c gone) (Sheds-refl c v)
    | inr (e, at) ↦
        let s = shed_one-Sheds c e at v in
        rw (shed_loop-round f c e over at)
          (Sheds-trans s (shed_loop-Sheds f (shed_one c e) s.valid))
  ]
  | inr fits ↦ rw (shed_loop-fits (suc f) c fits) (Sheds-refl c v)
]

-- The first loop ends within budget, or with the shed index at the last event's end.
abbrev pub Exhausted : Cache → Type 0
Exhausted c = (exceeds c.used c.budget ≡ false) ⊎ (length c.events ≤ c.shed_idx)

ShedTo-le : (k : ℕ) (es : List Event) → ShedTo k es → k ≤ length es
ShedTo-le zero es h = omega arith
ShedTo-le (suc k) [] h = absurd h
ShedTo-le (suc k) (e ∷ es) h = omega (arith, ShedTo-le k es h.1)

length-shed_one :
    (c : Cache) (e : Event)
    → (length (shed_one c e).events ≡ length c.events) × ((shed_one c e).shed_idx ≡ c.shed_idx + 1)
unfolding shed_one
length-shed_one c e = ground (arith, length-set c.events c.shed_idx (stripped e))

pub shed_loop-Exhausted :
    (f : ℕ) (c : Cache) → length c.events ≤ c.shed_idx + f → Exhausted (shed_loop f c)
shed_loop-Exhausted zero c h = unfold shed_loop in inr (omega arith)
shed_loop-Exhausted (suc f) c h = elim (Bool-cases (exceeds c.used c.budget)) [
  | inl over ↦ elim (Option-cases (get_elem? c.events c.shed_idx)) [
    | inl gone ↦
        rw (shed_loop-ends (suc f) c gone) (inr (length-le_of_none c.events c.shed_idx gone))
    | inr (e, at) ↦
        rw (shed_loop-round f c e over at)
          (shed_loop-Exhausted f (shed_one c e) (omega (arith, length-shed_one c e)))
  ]
  | inr fits ↦ rw (shed_loop-fits (suc f) c fits) (inl fits)
]
