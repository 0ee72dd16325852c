-- ===== src/Samples/StatsRuns.antt =====
-- internal/stats: the counters and the rings on short runs.
use go_salt_events.Stats.TopN.Ranking.{top-perm}
use Prim.Native.Nat.{◌*◌}
use mathlib.Core.List.Perm
use go_salt_events.Base.{
  Bytes, List, [], arith, bytes_ltb, codes, pos, refl, ◌%◌, ◌+◌, ◌^◌, ◌∷◌, ◌≡◌,
}
use go_salt_events.Model.Event.{Time}
use go_salt_events.Stats.Floats.{whole}
use go_salt_events.Stats.TopN.{Counter, add_all, new_counter, ranked, top}
use go_salt_events.Stats.TopN.Counts.{Tallies, add_all-Tallies}
use go_salt_events.Stats.Rings
use go_salt_events.Stats.Rings.{
  Bucket, Rings, advance, from_unix, mark_gap, new_rings, second_buckets, sync_to_now, unix,
  zero_bucket,
}
use go_salt_events.Stats.Rings.Index.{at}
use go_salt_events.Stats.Rings.Histogram.{
  Call, SinceEpoch, add_at, arrivals, gap_between, read_at, run, run-counts_seconds,
}
use go_salt_events.Stats.Rings.Gaps.{IsFull}

abbrev keys : List Bytes
keys = codes "a" ∷ codes "b" ∷ codes "a" ∷ codes "c" ∷ []

add_all-Tallies_example : Tallies (pos 2) keys (add_all (new_counter (pos 2)) keys)
add_all-Tallies_example = add_all-Tallies (pos 2) keys (omega arith)

abbrev ab : Counter
ab = record {
  max_keys = pos 2;
  counts = (codes "a", 2) ∷ (codes "b", 2) ∷ [];
  other = 1;
  total = 5;
}

abbrev ba : Counter
ba = record ab { counts = (codes "b", 2) ∷ (codes "a", 2) ∷ [] }

top_rows : ranked 1 ba ≡ (codes "a", 2) ∷ (codes "other", 1) ∷ []
unfolding ranked bytes_ltb
top_rows = refl

top-perm_example : top whole 2 ab ≡ top whole 2 ba
top-perm_example = top-perm whole 2 ab ba (Perm.swap (codes "b", 2) (codes "a", 2) []) refl refl

-- Noon of a day, in nanoseconds since Go's zero instant.
abbrev noon : Time
noon = (62135596800 + 1767268800) * 1000000000

abbrev history : List Call
history =
    add_at noon
    ∷ add_at (noon + 500000000)
    ∷ gap_between (noon + 1000000000) (noon + 2000000000)
    ∷ add_at (noon + 3000000000)
    ∷ read_at (noon + 4000000000)
    ∷ []

history-heads :
    ((run new_rings history).sec_epoch ≡ 1767268804)
    × ((run new_rings history).min_epoch ≡ 29454480)
unfolding run new_rings advance unix Rings.add mark_gap sync_to_now
history-heads = (refl, refl)

history-SinceEpoch : SinceEpoch history
unfolding from_unix
history-SinceEpoch =
    (omega arith, (omega arith, (omega arith, omega arith, (omega arith, (omega arith, tt)))))

run-counts_seconds_example :
    (at second_buckets (run new_rings history).secs 1767268800).count
    ≡ arrivals 1 history 1767268800 % 2 ^ 64
run-counts_seconds_example =
    run-counts_seconds history 1767268800 history-SinceEpoch (omega (arith, history-heads.0))
      (omega (arith, history-heads.0))

new_rings-IsFull : IsFull new_rings
unfolding new_rings
new_rings-IsFull = record { secs = refl; mins = refl }
