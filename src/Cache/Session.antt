-- ===== src/Cache/Session.antt =====
-- internal/cache/cache.go, `Add`: what one event, and a session of them, does to the cache.
use go_salt_events.Base.{
  List, [], ap, append-nil, append_assoc, ap₂, arith, drop, drop-map_snoc, exceeds, false, inl, inr,
  length, length-append, map, map-drop, refl, subst, ℤ, ◌++◌, ◌+◌, ◌-◌, ◌∙◌, ◌∷◌, ◌≡◌, ◌≤◌, ◌⊎◌,
}
use go_salt_events.Model.Event.{Event, size}
use go_salt_events.Cache.{Cache, add, degrade, drop_loop, new_cache, session, shed_loop}
use go_salt_events.Cache.Degrade.{
  IsValid, ShedTo-append, Sheds, indexed, shed_loop-Exhausted, shed_loop-Sheds, total-append,
}
use go_salt_events.Cache.Drop.{
  AllShed, Drops, ShedTo→AllShed, drop_loop-Drops, drop_loop-in_budget, drop_loop-spares,
}

-- The cache with the event appended, before it degrades.
abbrev pub appended : Cache → Event → Cache
appended c e = record c { events = c.events ++ e ∷ []; used = c.used + size e }

appended-IsValid : (c : Cache) (e : Event) → IsValid c → IsValid (appended c e)
appended-IsValid c e v = record {
  counted = omega (arith, v.counted, total-append c.events (e ∷ []));
  shed_to = ShedTo-append c.shed_idx c.events (e ∷ []) v.shed_to;
}

-- `degrade` runs its first loop from a valid cache, and its second from what that leaves.
abbrev pub shed_phase : Cache → Event → Cache
shed_phase c e = let a = appended c e in shed_loop (length a.events - a.shed_idx) a

add-phases :
    (c : Cache) (e : Event) → add c e ≡ drop_loop (length (shed_phase c e).events) (shed_phase c e)
unfolding add degrade
add-phases c e = refl

shed_phase-Sheds : (c : Cache) (e : Event) → IsValid c → Sheds (appended c e) (shed_phase c e)
shed_phase-Sheds c e v = shed_loop-Sheds _ (appended c e) (appended-IsValid c e v)

add-Drops : (c : Cache) (e : Event) → IsValid c → Drops (shed_phase c e) (add c e)
add-Drops c e v = rw (add-phases c e) (drop_loop-Drops _ _ (shed_phase-Sheds c e v).valid)

-- `Add` keeps the accounting exact: `used` stays the total cost of the retained events, and every
-- event before the shed index stays without a payload.
pub add-IsValid : (c : Cache) (e : Event) → IsValid c → IsValid (add c e)
add-IsValid c e v = (add-Drops c e v).valid

-- After `Add` the cache fits its budget, or it holds no event; the budget itself does not change.
pub add-in_budget :
    (c : Cache) (e : Event)
    → IsValid c
    → ((exceeds (add c e).used c.budget ≡ false) ⊎ ((add c e).events ≡ []))
      × ((add c e).budget ≡ c.budget)
add-in_budget c e v =
    let d = add-Drops c e v in
    let s = shed_phase-Sheds c e v in
    let same : (add c e).budget ≡ c.budget = d.budget ∙ s.budget in
    (
      subst (λ b. (exceeds (add c e).used b ≡ false) ⊎ ((add c e).events ≡ [])) same
          (rw (add-phases c e) (drop_loop-in_budget _ (shed_phase c e) (omega arith))),
      same,
    )

-- `Add` drops an event only when no retained event has a payload left to shed.
pub add-sheds_first :
    (c : Cache) (e : Event) → IsValid c → ((add c e).dropped ≡ c.dropped) ⊎ AllShed (add c e).events
add-sheds_first c e v =
    let s = shed_phase-Sheds c e v in
    let spent : (exceeds (shed_phase c e).used (shed_phase c e).budget ≡ false)
        ⊎ AllShed (shed_phase c e).events =
      elim (shed_loop-Exhausted _ (appended c e) (omega arith)) [
        | inl fits ↦ inl fits
        | inr past ↦ inr (ShedTo→AllShed _ _ past s.valid.shed_to)
      ] in
    rw (add-phases c e)
      (elim (drop_loop-spares (length (shed_phase c e).events) (shed_phase c e) s.valid spent) [
        | inl p ↦ inl (p ∙ s.dropped)
        | inr q ↦ inr q
      ])

-- `Add` never rewrites history: but for payloads and their flag the retained events are the old ones
-- and the new one with exactly the newly dropped number taken off the oldest end.
pub add-keeps :
    (c : Cache) (e : Event)
    → IsValid c
    → (map indexed (add c e).events
        ≡ drop ((add c e).dropped - c.dropped) (map indexed (c.events ++ e ∷ [])))
      × ((add c e).dropped + length (add c e).events ≡ c.dropped + (length c.events + 1))
      × (c.dropped ≤ (add c e).dropped)
add-keeps c e v =
    let d = add-Drops c e v in
    let s = shed_phase-Sheds c e v in
    (
      ap (map indexed) d.suffix
          ∙ map-drop indexed ((add c e).dropped - (shed_phase c e).dropped) (shed_phase c e).events
          ∙ ap₂ (λ n es. drop ((add c e).dropped - n) es) s.dropped s.kept,
      omega (arith, d.balance, s.dropped, s.count, length-append c.events (e ∷ [])),
      omega (arith, d.grows, s.dropped),
    )

-- What is true of a cache with budget `b` that was given the events `es`, oldest first.
pub record Holds (b : ℤ) (es : List Event) (c : Cache) : Type 0 where
  pub valid : IsValid c
  pub bounded : (exceeds c.used b ≡ false) ⊎ (c.events ≡ [])
  pub budget : c.budget ≡ b
  pub history : map indexed c.events ≡ drop c.dropped (map indexed es)
  pub balance : c.dropped + length c.events ≡ length es

add-Holds :
    (b : ℤ) (es : List Event) (c : Cache) (e : Event)
    → Holds b es c
    → Holds b (es ++ e ∷ []) (add c e)
add-Holds b es c e h =
    let (kept, balance, grows) = add-keeps c e h.valid in
    let (bounded, same) = add-in_budget c e h.valid in
    record {
      valid = add-IsValid c e h.valid;
      bounded =
          subst (λ x. (exceeds (add c e).used x ≡ false) ⊎ ((add c e).events ≡ [])) h.budget
            bounded;
      budget = same ∙ h.budget;
      history =
          kept
          ∙ drop-map_snoc indexed c.events es e ((add c e).dropped - c.dropped) c.dropped
              (add c e).dropped h.history (omega (arith, h.balance)) (omega arith);
      balance = omega (arith, h.balance, length-append es (e ∷ []));
    }

new_cache-Holds : (b : ℤ) → Holds b [] (new_cache b)
unfolding new_cache
new_cache-Holds b = record {
  valid = record { counted = refl; shed_to = tt };
  bounded = inr refl;
  budget = refl;
  history = refl;
  balance = omega arith;
}

session-Holds :
    (b : ℤ) (old es : List Event) (c : Cache) → Holds b old c → Holds b (old ++ es) (session c es)
unfolding session
session-Holds b old [] c h = rw (append-nil old) h
session-Holds b old (e ∷ es) c h =
    rw (← append_assoc old (e ∷ []) es)
      (session-Holds b (old ++ e ∷ []) es (add c e) (add-Holds b old c e h))

-- After any session from an empty cache the accounting is exact, the budget is kept (or no event is
-- left), the retained events are the newest ones of the session, unchanged but for their payloads,
-- and the dropped and retained events together are as many as came in.
pub session_lem : (b : ℤ) (es : List Event) → Holds b es (session (new_cache b) es)
session_lem b es = session-Holds b [] es (new_cache b) (new_cache-Holds b)
