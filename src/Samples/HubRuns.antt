-- ===== src/Samples/HubRuns.antt =====
-- cmd/salt-events/hub.go: the hub behind a reader that loses its master once, and on other calls.
use go_salt_events.Base.{
  Bytes, List, Option, [], arith, bytes_eq, codes, false, map, none, pos, refl, some, true, ◌*◌,
  ◌++◌, ◌+◌, ◌↔◌, ◌∷◌, ◌≡◌,
}
use go_salt_events.Model.Event.{Event, Kind}
use go_salt_events.Cache.{new_cache, session}
use go_salt_events.Stats.Rings.{new_rings, sync_to_now}
use go_salt_events.Stats.Rings.Gaps.{NotQuiet}
use go_salt_events.Stats.Rings.Histogram
use go_salt_events.Stats.Rings.Outage.{head_second}
use go_salt_events.Stats.TopN.{add_all, new_counter}
use go_salt_events.Stats.Jobs.Valid.{IsValid}
use go_salt_events.Saltipc.Frame.{eof}
use go_salt_events.Saltipc.Value.{
  Value, bin, cons, field_of, int8, int_of, list_of, nil, no_fields, str, typed,
}
use go_salt_events.Saltipc.Reader.{
  Call, attached, decode_error, event, gap, min_backoff, new_reader, run, slept,
}
use go_salt_events.Saltipc.Reader.Build.{build}
use go_salt_events.Saltipc.Reader.Trace.{is_reading}
use go_salt_events.Hub.{deliver_all, max_top_keys, new_hub}
use go_salt_events.Hub.Outages.{outage_visible}
use go_salt_events.Hub.Attached.{connected_iff_reading}
use go_salt_events.Hub.Parts.{deliver_all_new-Saw, errors_in, events_in, named, ring_calls}
use go_salt_events.Hub.Index.{Touch, handle_all, handle_all-accounts, pinned_to, told}
use go_salt_events.Hub.Facts.{expected_from, field}
use go_salt_events.Hub.Facts.Complete.{Lists, expected_from_iff}
use go_salt_events.Samples.ReaderRuns.{outage, outage-waits, second, toy}

abbrev minions_of : Value → Value
minions_of v = typed (field_of (codes "minions") v no_fields)

-- The decoder gives one payload, whatever the bytes are.
abbrev to_two : Option (Bytes → Option Value)
to_two =
    some (λ b. some (minions_of (list_of (cons (str (codes "a")) (cons (bin (codes "b")) nil)))))

abbrev published : Event
published = record {
  arrival = 5 * second;
  stamp = 0;
  tag = codes "salt/job/20240102030405123456/new";
  namespace = codes "job";
  category = codes "job/*/new";
  jid = codes "20240102030405123456";
  minion = [];
  fun = codes "test.ping";
  kind = Kind.new;
  ret_code = pos 0;
  success = false;
  has_ret = false;
  payload = some (codes "xyz");
  shed = false;
  master_trimmed = false;
}

abbrev calls : List Call
calls = attached true ∷ event published ∷ decode_error eof ∷ gap (6 * second) (7 * second) ∷ []

-- A list with an item that is no text names no targets at all.
partial_list :
    expected_from (minions_of (list_of (cons (str (codes "a")) (cons (int_of int8 (pos 1)) nil))))
    ≡ (none, false)
unfolding expected_from field bytes_eq
partial_list = refl

outage_visible_example :
    let (_, cs) = run (build toy) new_reader (outage ++ (slept (3 * second) ∷ [])) in
    let h = deliver_all to_two (new_hub (pos 1000) (pos 5)) cs in
    NotQuiet (head_second (sync_to_now h.rings (3 * second + 400000000)))
unfolding run
outage_visible_example =
    outage_visible toy to_two (pos 1000) (pos 5) outage min_backoff (3 * second)
      (3 * second + 400000000) (omega arith, (omega arith, (omega arith, tt))) (omega arith)
      outage-waits (omega arith) (omega arith)

connected_iff_reading_example :
    (deliver_all to_two
      (new_hub (pos 1000) (pos 5))
      (run (build toy) new_reader outage).1).connected
    ≡ is_reading (run (build toy) new_reader outage).0.phase
connected_iff_reading_example = connected_iff_reading to_two (build toy) (pos 1000) (pos 5) outage

deliver_all_new-Saw_example :
    let h = deliver_all to_two (new_hub (pos 1000) (pos 5)) calls in
    (h.cache ≡ session (new_cache (pos 1000)) (events_in calls))
    × (h.rings ≡ Histogram.run new_rings (ring_calls calls))
    × (h.cats ≡ add_all (new_counter (pos max_top_keys)) (map (λ e. e.category) (events_in calls)))
    × (h.minions
        ≡ add_all (new_counter (pos max_top_keys)) (named (map (λ e. e.minion) (events_in calls))))
    × (h.funs
        ≡ add_all (new_counter (pos max_top_keys)) (named (map (λ e. e.fun) (events_in calls))))
    × (h.decode_errors ≡ errors_in calls)
deliver_all_new-Saw_example = deliver_all_new-Saw to_two (pos 1000) (pos 5) calls

abbrev touches : List Touch
touches = told (event published) ∷ pinned_to published.jid ∷ told (event published) ∷ []

handle_all-accounts_example :
    IsValid (handle_all to_two (new_hub (pos 100000) (pos 5)) touches).jobs
handle_all-accounts_example = handle_all-accounts to_two (pos 100000) (pos 5) touches

abbrev two_minions : Value
two_minions = minions_of (list_of (cons (str (codes "a")) (cons (bin (codes "b")) nil)))

expected_from_iff_example :
    ((expected_from two_minions).0 ≡ some (codes "a" ∷ codes "b" ∷ []))
    ↔ (Lists two_minions (codes "a" ∷ codes "b" ∷ []) × ((expected_from two_minions).1 ≡ false))
expected_from_iff_example = expected_from_iff two_minions (codes "a" ∷ codes "b" ∷ [])
