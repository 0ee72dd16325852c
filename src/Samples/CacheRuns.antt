-- ===== src/Samples/CacheRuns.antt =====
-- internal/cache: a small cache under pressure.
use go_salt_events.Cache.Snapshot.{snapshot_lem}
use go_salt_events.Base.{
  List, [], arith, drop, false, length, ltb, map, min, pos, refl, replicate, reverse, select, some,
  take, true, ℕ, ◌*◌, ◌++◌, ◌+◌, ◌-◌, ◌^◌, ◌∷◌, ◌≡◌, ◌≤◌, ◌⊎◌,
}
use go_salt_events.Model.Event.{Event, Kind, size}
use go_salt_events.Cache.{
  Cache, Matcher, add, degrade, drop_loop, drop_one, matches, new_cache, scan, scan_bound, session,
  shed_loop, shed_one, snapshot, stats, stripped,
}
use go_salt_events.Cache.Degrade.{IsValid, indexed}
use go_salt_events.Cache.Drop.{AllShed}
use go_salt_events.Cache.Session.{Holds, add-keeps, add-sheds_first, session_lem}

-- An event of tag length 1 with a payload of `n` bytes: 257 + n bytes of budget.
abbrev event : ℕ → ℕ → Event
event at n = record {
  arrival = at;
  stamp = 0;
  tag = b'x' ∷ [];
  namespace = [];
  category = [];
  jid = [];
  minion = [];
  fun = [];
  kind = Kind.ret;
  ret_code = pos 0;
  success = true;
  has_ret = true;
  payload = some (replicate n 0);
  shed = false;
  master_trimmed = false;
}

abbrev three : List Event
three = event 1 40 ∷ event 2 40 ∷ event 3 40 ∷ []

abbrev full : Cache
full = session (new_cache (pos 600)) (event 1 40 ∷ event 2 40 ∷ [])

-- Two events fit with both payloads shed or one; a third drops the oldest.
stats_after_three :
    stats (session (new_cache (pos 600)) three)
    ≡ record { used = 514; budget = pos 600; events = 2; shed = 3; dropped = 1 }
unfolding session new_cache add degrade shed_loop drop_loop shed_one drop_one stripped size stats
stats_after_three = refl

session_lem_example : Holds (pos 600) three (session (new_cache (pos 600)) three)
session_lem_example = session_lem (pos 600) three

abbrev full-IsValid : IsValid full
full-IsValid = (session_lem (pos 600) (event 1 40 ∷ event 2 40 ∷ [])).valid

add-sheds_first_example :
    ((add full (event 3 40)).dropped ≡ full.dropped) ⊎ AllShed (add full (event 3 40)).events
add-sheds_first_example = add-sheds_first full (event 3 40) full-IsValid

add-keeps_example :
    (map indexed (add full (event 3 40)).events
      ≡ drop
          ((add full (event 3 40)).dropped - full.dropped)
          (map indexed (full.events ++ event 3 40 ∷ [])))
    × ((add full (event 3 40)).dropped + length (add full (event 3 40)).events
        ≡ full.dropped + (length full.events + 1))
    × (full.dropped ≤ (add full (event 3 40)).dropped)
add-keeps_example = add-keeps full (event 3 40) full-IsValid

-- A limit whose product wraps still examines the whole ring.
wrapped_product : scan_bound (2 ^ 61) 100 ≡ 100
unfolding scan_bound
wrapped_product = refl

abbrev loose : Cache
loose = record {
  budget = pos 4096;
  used = 891;
  events = three;
  shed_idx = 0;
  shed = 0;
  dropped = 0;
}

abbrev late : Matcher
late = some (λ e. ltb 1 e.arrival)

newest_late : (snapshot loose late (pos 1)).0 ≡ event 3 40 ∷ []
unfolding snapshot scan scan_bound matches
newest_late = refl

snapshot_lem_example :
    let reach = min (1 * 8) (length loose.events) in
    let (out, scanned) = snapshot loose late (pos 1) in
    (out ≡ reverse (take 1 (select (matches late) (take reach (reverse loose.events)))))
    × (scanned ≤ reach)
    × ((scanned ≡ reach) ⊎ (length out ≡ 1))
snapshot_lem_example = snapshot_lem loose late 0 (omega arith) (omega arith)
