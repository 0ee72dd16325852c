-- ===== src/Stats/Rings.antt =====
-- internal/stats/rings.go: the events/sec and events/min histories, rings indexed by absolute time.
-- The two rings take the same steps with another size and bucket width, so the code for one ring is
-- written once, over the size `n` and, where time comes in, the width `w` in seconds.
pub mod Index
pub mod Shows
pub mod Write
pub mod Histogram
pub mod Gaps
pub mod Outage
use go_salt_events.Base.{
  Bool, List, [], false, get_or, if◌then◌else◌, leb, ltb, max, not, replicate, set, suc, true, zero,
  ℕ, ◌%◌, ◌&&◌, ◌*◌, ◌+◌, ◌-◌, ◌/◌, ◌==◌, ◌^◌, ◌||◌, ◌∷◌,
}
use go_salt_events.Model.Event.{Time}

abbrev pub second_buckets : ℕ
second_buckets = 120

abbrev pub minute_buckets : ℕ
minute_buckets = 60

-- Seconds from Go's zero instant to 1970.
abbrev pub epoch_offset : ℕ
epoch_offset = 62135596800

-- `BucketWidth`, in nanoseconds.
abbrev pub bucket_width : ℕ
bucket_width = 1000000000

abbrev pub gap_validity : ℕ
gap_validity = bucket_width / 2

abbrev pub gap_report_interval : ℕ
gap_report_interval = bucket_width / 4

-- `t.Unix()`, of an instant since 1970. Before that the source is negative, and a ring is indexed below
-- its start; the readings of the clock that it gets are not.
unfoldable pub unix : Time → ℕ
unix t = t / bucket_width - epoch_offset

-- `time.Unix(s, 0)`
unfoldable pub from_unix : ℕ → Time
from_unix s = (s + epoch_offset) * bucket_width

pub record Bucket : Type 0 where
  pub count : ℕ
  pub gap : Bool

abbrev pub zero_bucket : Bucket
zero_bucket = record { count = 0; gap = false }

pub record Rings : Type 0 where
  pub secs : List Bucket
  pub mins : List Bucket
  pub sec_epoch : ℕ
  pub min_epoch : ℕ
  pub gap_through : Time
  pub gap_open : Bool
  pub started : Bool

-- `NewRings`; the clock is the argument `now` of the operations that read it.
unfoldable pub new_rings : Rings
new_rings = record {
  secs = replicate second_buckets zero_bucket;
  mins = replicate minute_buckets zero_bucket;
  sec_epoch = 0;
  min_epoch = 0;
  gap_through = 0;
  gap_open = false;
  started = false;
}

-- `opening`
unfoldable pub opening : Rings → Time → Bucket
opening r begin = record {
  count = 0;
  gap = r.gap_open && not (ltb (r.gap_through + gap_validity) begin);
}

-- The inner loop of `advance`: `k` buckets from the index `s` on are opened.
unfoldable pub open_range : ℕ → (ℕ → Bucket) → ℕ → ℕ → List Bucket → List Bucket
open_range n fresh zero s ring = ring
open_range n fresh (suc k) s ring = open_range n fresh k (s + 1) (set ring (s % n) (fresh s))

-- `advance` on one ring, from the head `epoch` to the index `i`.
unfoldable pub roll : ℕ → (ℕ → Bucket) → ℕ → ℕ → List Bucket → List Bucket
unfolding open_range
roll n fresh epoch i ring =
    if ltb epoch i
    then if leb n (i - epoch)
      then set (replicate n zero_bucket) (i % n) (fresh i)
      else open_range n fresh (i - epoch) (epoch + 1) ring
    else ring

-- `advance`
unfoldable pub advance : Rings → ℕ → ℕ → Rings
advance r si mi =
    if r.started
    then record r {
      secs = roll second_buckets (λ s. opening r (from_unix s)) r.sec_epoch si r.secs;
      sec_epoch = max r.sec_epoch si;
      mins = roll minute_buckets (λ m. opening r (from_unix (m * 60))) r.min_epoch mi r.mins;
      min_epoch = max r.min_epoch mi;
    }
    else record r { sec_epoch = si; min_epoch = mi; started = true }

-- The increment of `Add` on one ring: `Count` is a uint64.
unfoldable pub count_in : ℕ → ℕ → ℕ → List Bucket → List Bucket
count_in n epoch i ring =
    if leb i epoch && ltb (epoch - i) n
    then set ring (i % n)
        (record { count = ((get_or ring (i % n) zero_bucket).count + 1) % 2 ^ 64; gap = false })
    else ring

-- `Add`
unfoldable pub add : Rings → Time → Rings
add r t =
    let si = unix t in
    let mi = unix t / 60 in
    let a = advance r si mi in
    record a {
      gap_open = false;
      secs = count_in second_buckets a.sec_epoch si a.secs;
      mins = count_in minute_buckets a.min_epoch mi a.mins;
    }

-- The body of the loop of `markGapRing`, at the index `i`.
unfoldable pub mark_one : ℕ → ℕ → ℕ → List Bucket → List Bucket
mark_one n epoch i ring =
    let b = get_or ring (i % n) zero_bucket in
    if (leb i epoch && ltb (epoch - i) n) && (b.count == 0)
    then set ring (i % n) (record b { gap = true })
    else ring

unfoldable pub mark_loop : ℕ → ℕ → ℕ → ℕ → List Bucket → List Bucket
unfolding mark_one
mark_loop n epoch zero i ring = ring
mark_loop n epoch (suc k) i ring = mark_loop n epoch k (i + 1) (mark_one n epoch i ring)

-- `markGapRing`: `from` is raised to the start of the window, `epoch - (n - 1)`, which is below 0, and
-- so below `from`, where the subtraction here stops at 0.
unfoldable pub mark_gap_ring : ℕ → ℕ → ℕ → ℕ → List Bucket → List Bucket
unfolding mark_loop
mark_gap_ring n epoch from to ring =
    let first = max from (epoch - (n - 1)) in mark_loop n epoch (to + 1 - first) first ring

-- `MarkGap`
unfoldable pub mark_gap : Rings → Time → Time → Rings
mark_gap r from to =
    let a = advance r (unix to) (unix to / 60) in
    let renew = not a.gap_open || ltb a.gap_through to in
    record a {
      gap_through = if renew then to else a.gap_through;
      gap_open = if renew then true else a.gap_open;
      secs = mark_gap_ring second_buckets a.sec_epoch (unix from) (unix to) a.secs;
      mins = mark_gap_ring minute_buckets a.min_epoch (unix from / 60) (unix to / 60) a.mins;
    }

-- `syncToNow`
unfoldable pub sync_to_now : Rings → Time → Rings
sync_to_now r now = advance r (unix now) (unix now / 60)

-- The entry of `window` for the index `epoch - back`, where it is not negative.
unfoldable pub window_entry : List Bucket → ℕ → ℕ → ℕ → Bucket
window_entry ring epoch n back =
    if ltb epoch back then zero_bucket else get_or ring ((epoch - back) % n) zero_bucket

-- `window`: the entries `k - 1` to 0 steps back.
unfoldable pub window_from : List Bucket → ℕ → ℕ → ℕ → List Bucket
unfolding window_entry
window_from ring epoch n zero = []
window_from ring epoch n (suc k) = window_entry ring epoch n k ∷ window_from ring epoch n k

unfoldable pub window : List Bucket → ℕ → ℕ → List Bucket
unfolding window_from
window ring epoch n = window_from ring epoch n n

-- `Seconds` and `Minutes`, each with the rings that it leaves.
unfoldable pub seconds : Rings → Time → List Bucket × Rings
seconds r now = let s = sync_to_now r now in (window s.secs s.sec_epoch second_buckets, s)

unfoldable pub minutes : Rings → Time → List Bucket × Rings
minutes r now = let s = sync_to_now r now in (window s.mins s.min_epoch minute_buckets, s)
