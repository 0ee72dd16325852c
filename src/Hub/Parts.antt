-- ===== src/Hub/Parts.antt =====
-- cmd/salt-events/hub.go: what each part has seen of a run of calls.
use go_salt_events.Base.{Bytes, List, Option, [], arith, map, pos, refl, ℕ, ℤ, ◌+◌, ◌∙◌, ◌∷◌, ◌≡◌}
use go_salt_events.Model.Event.{Event}
use go_salt_events.Cache.{new_cache, session}
use go_salt_events.Stats.Rings.{new_rings}
use go_salt_events.Stats.Rings.Histogram
use go_salt_events.Stats.Rings.Histogram.{add_at, gap_between}
use go_salt_events.Stats.TopN.{Counter, add_all, new_counter}
use go_salt_events.Saltipc.Value.{Value}
use go_salt_events.Saltipc.Reader.{Call, attached, decode_error, event, gap}
use go_salt_events.Hub.{Hub, add_named, deliver, deliver_all, max_top_keys, new_hub, on_event}

-- The events among the calls, and what the rings are told.
abbrev pub events_in : List Call → List Event
events_in [] = []
events_in (event e ∷ cs) = e ∷ events_in cs
events_in (gap _ _ ∷ cs) = events_in cs
events_in (decode_error _ ∷ cs) = events_in cs
events_in (attached _ ∷ cs) = events_in cs

abbrev pub ring_calls : List Call → List Histogram.Call
ring_calls [] = []
ring_calls (event e ∷ cs) = add_at e.arrival ∷ ring_calls cs
ring_calls (gap from to ∷ cs) = gap_between from to ∷ ring_calls cs
ring_calls (decode_error _ ∷ cs) = ring_calls cs
ring_calls (attached _ ∷ cs) = ring_calls cs

abbrev pub errors_in : List Call → ℕ
errors_in [] = 0
errors_in (event _ ∷ cs) = errors_in cs
errors_in (gap _ _ ∷ cs) = errors_in cs
errors_in (decode_error _ ∷ cs) = 1 + errors_in cs
errors_in (attached _ ∷ cs) = errors_in cs

-- The keys that are not empty.
abbrev pub named : List Bytes → List Bytes
named [] = []
named ([] ∷ ks) = named ks
named ((b ∷ k) ∷ ks) = (b ∷ k) ∷ named ks

-- What a hub that stood at `old` holds after the calls.
pub record Saw (old : Hub) (cs : List Call) (h : Hub) : Type 0 where
  pub cache : h.cache ≡ session old.cache (events_in cs)
  pub rings : h.rings ≡ Histogram.run old.rings (ring_calls cs)
  pub cats : h.cats ≡ add_all old.cats (map (λ e. e.category) (events_in cs))
  pub minions : h.minions ≡ add_all old.minions (named (map (λ e. e.minion) (events_in cs)))
  pub funs : h.funs ≡ add_all old.funs (named (map (λ e. e.fun) (events_in cs)))
  pub errors : h.decode_errors ≡ old.decode_errors + errors_in cs

add_named-named :
    (c : Counter) (k : Bytes) (ks : List Bytes)
    → add_all (add_named c k) (named ks) ≡ add_all c (named (k ∷ ks))
unfolding add_named add_all
add_named-named c [] ks = refl
add_named-named c (b ∷ k) ks = refl

module _ (decode : Option (Bytes → Option Value)) where
  deliver_all-Saw : (h : Hub) (cs : List Call) → Saw h cs (deliver_all decode h cs)
  unfolding deliver_all deliver on_event session Histogram.run Histogram.apply add_all
  deliver_all-Saw h [] = record {
    cache = refl;
    rings = refl;
    cats = refl;
    minions = refl;
    funs = refl;
    errors = omega arith;
  }
  deliver_all-Saw h (event e ∷ cs) =
      let s = deliver_all-Saw (deliver decode h (event e)) cs in
      record {
        cache = s.cache;
        rings = s.rings;
        cats = s.cats;
        minions =
            s.minions ∙ add_named-named h.minions e.minion (map (λ x. x.minion) (events_in cs));
        funs = s.funs ∙ add_named-named h.funs e.fun (map (λ x. x.fun) (events_in cs));
        errors = s.errors;
      }
  deliver_all-Saw h (gap from to ∷ cs) =
      let s = deliver_all-Saw (deliver decode h (gap from to)) cs in
      record {
        cache = s.cache;
        rings = s.rings;
        cats = s.cats;
        minions = s.minions;
        funs = s.funs;
        errors = s.errors;
      }
  deliver_all-Saw h (attached a ∷ cs) =
      let s = deliver_all-Saw (deliver decode h (attached a)) cs in
      record {
        cache = s.cache;
        rings = s.rings;
        cats = s.cats;
        minions = s.minions;
        funs = s.funs;
        errors = s.errors;
      }
  deliver_all-Saw h (decode_error x ∷ cs) =
      let s = deliver_all-Saw (deliver decode h (decode_error x)) cs in
      record {
        cache = s.cache;
        rings = s.rings;
        cats = s.cats;
        minions = s.minions;
        funs = s.funs;
        errors = s.errors ∙ omega arith;
      }

  -- Whatever calls come, in whatever order, each part of the hub is what it would be by itself: the cache
  -- after the events, the rings after the arrivals and the gaps, each counter after every key of its
  -- kind, and one decode error for each report. So what the counters and the rings show depends on
  -- the events alone, and not on the budget, nor on what the cache shed or dropped.
  pub deliver_all_new-Saw :
      (max_memory max_jobs : ℤ) (cs : List Call)
      → let h = deliver_all decode (new_hub max_memory max_jobs) cs in
        (h.cache ≡ session (new_cache max_memory) (events_in cs))
        × (h.rings ≡ Histogram.run new_rings (ring_calls cs))
        × (h.cats ≡ add_all (new_counter (pos max_top_keys)) (map (λ e. e.category) (events_in cs)))
        × (h.minions
            ≡ add_all (new_counter (pos max_top_keys)) (named (map (λ e. e.minion) (events_in cs))))
        × (h.funs
            ≡ add_all (new_counter (pos max_top_keys)) (named (map (λ e. e.fun) (events_in cs))))
        × (h.decode_errors ≡ errors_in cs)
  unfolding new_hub
  deliver_all_new-Saw max_memory max_jobs cs =
      let s = deliver_all-Saw (new_hub max_memory max_jobs) cs in
      (s.cache, s.rings, s.cats, s.minions, s.funs, s.errors ∙ omega arith)
