-- ===== src/Cache/Snapshot.antt =====
-- internal/cache/cache.go, `Snapshot`: what the bounded scan returns, and what its count says.
use go_salt_events.Base.{
  Bool-cases, List, [], ap, append-nil, append_assoc, arith, drop, inl, inr, length, length-append,
  length-reverse, min, pos, reverse, reverse-reverse, select, select-reverse, suc, sym, take,
  take-reverse, take_all, zero, ℕ, ◌*◌, ◌++◌, ◌+◌, ◌-◌, ◌<◌, ◌^◌, ◌∙◌, ◌∷◌, ◌≡◌, ◌≤◌, ◌⊎◌,
}
use go_salt_events.Model.Event.{Event}
use go_salt_events.Cache.{Cache, Matcher, matches, scan, scan_bound, snapshot}

-- The product of `Snapshot` is checked well enough: for every positive `int` limit, and fewer events
-- than a memory can hold, the scan is bounded by eight times the limit and by the ring.
pub scan_bound_lem :
    (limit n : ℕ) → 0 < limit → limit < 2 ^ 63 → n < 2 ^ 61 → scan_bound limit n ≡ min (limit * 8) n
unfolding scan_bound
scan_bound_lem limit n h0 h1 h2 = ground arith

-- The scan appends the newest matches among the events that it may examine.
scan-select :
    (m : Matcher) (es : List Event) (room budget : ℕ) (out : List Event) (n : ℕ)
    → (scan m es room budget out n).0 ≡ out ++ take room (select (matches m) (take budget es))
unfolding scan
scan-select m [] zero zero out n = sym (append-nil out)
scan-select m [] zero (suc b) out n = sym (append-nil out)
scan-select m [] (suc r) zero out n = sym (append-nil out)
scan-select m [] (suc r) (suc b) out n = sym (append-nil out)
scan-select m (e ∷ es) zero budget out n = sym (append-nil out)
scan-select m (e ∷ es) (suc room) zero out n = sym (append-nil out)
scan-select m (e ∷ es) (suc room) (suc budget) out n = elim (Bool-cases (matches m e)) [
  | inl hit ↦
      rw (hit, scan)
        (scan-select m es room budget (out ++ e ∷ []) (n + 1) ∙ append_assoc out (e ∷ []) _)
  | inr miss ↦ rw (miss, scan) (scan-select m es (suc room) budget out (n + 1))
]

-- The count: never past the budget or the events, and short of both only if the room ran out.
record Counts (es : List Event) (room budget n : ℕ) (out : List Event) (r : List Event × ℕ)
    : Type 0 where
  within : r.1 ≤ n + min budget (length es)
  stops : (r.1 ≡ n + min budget (length es)) ⊎ (length r.0 ≡ length out + room)

scan-Counts :
    (m : Matcher) (es : List Event) (room budget : ℕ) (out : List Event) (n : ℕ)
    → Counts es room budget n out (scan m es room budget out n)
unfolding scan
scan-Counts m [] room budget out n = record { within = omega arith; stops = inl (omega arith) }
scan-Counts m (e ∷ es) zero budget out n = record {
  within = omega arith;
  stops = inr (omega arith);
}
scan-Counts m (e ∷ es) (suc room) zero out n = record {
  within = omega arith;
  stops = inl (omega arith);
}
scan-Counts m (e ∷ es) (suc room) (suc budget) out n = ground (
  arith,
  scan-Counts m es room budget (out ++ e ∷ []) (n + 1),
  length-append out (e ∷ []),
  scan-Counts m es (suc room) budget out (n + 1),
)

-- What `Snapshot` promises for a positive limit: it returns the newest matches, oldest first, among
-- the newest eight times as many events; it examines no more than those; and it examines them all
-- unless it has found as many as it may return.
pub snapshot_lem :
    (c : Cache) (m : Matcher) (l : ℕ)
    → suc l < 2 ^ 63
    → length c.events < 2 ^ 61
    → let reach = min (suc l * 8) (length c.events) in
      let (out, scanned) = snapshot c m (pos (suc l)) in
      (out ≡ reverse (take (suc l) (select (matches m) (take reach (reverse c.events)))))
      × (scanned ≤ reach)
      × ((scanned ≡ reach) ⊎ (length out ≡ suc l))
unfolding snapshot
snapshot_lem c m l h1 h2 =
    let rev = reverse c.events in
    let b = min (suc l * 8) (length c.events) in
    let k = scan-Counts m rev (suc l) b [] 0 in
    rw (scan_bound_lem (suc l) (length c.events) (omega arith) h1 h2) (
      ap reverse (scan-select m rev (suc l) b [] 0),
      omega (arith, k.within),
      omega (arith, k.stops, length-reverse c.events, length-reverse (scan m rev (suc l) b [] 0).0),
    )

-- A count equal to the number of retained events means that the view is complete: the result is the
-- last matches of the whole ring, as many as the limit allows, oldest first.
pub snapshot_complete :
    (c : Cache) (m : Matcher) (l : ℕ)
    → suc l < 2 ^ 63
    → length c.events < 2 ^ 61
    → (snapshot c m (pos (suc l))).1 ≡ length c.events
    → (snapshot c m (pos (suc l))).0
      ≡ drop (length (select (matches m) c.events) - suc l) (select (matches m) c.events)
snapshot_complete c m l h1 h2 h =
    let (found, within, _) = snapshot_lem c m l h1 h2 in
    let S = select (matches m) c.events in
    let whole : take (min (suc l * 8) (length c.events)) (reverse c.events) ≡ reverse c.events =
      take_all _ _ (omega (arith, length-reverse c.events, within)) in
    found
    ∙ ap (λ t. reverse (take (suc l) (select (matches m) t))) whole
    ∙ ap (λ t. reverse (take (suc l) t)) (select-reverse (matches m) c.events)
    ∙ ap reverse (take-reverse (suc l) S)
    ∙ reverse-reverse (drop (length S - suc l) S)
