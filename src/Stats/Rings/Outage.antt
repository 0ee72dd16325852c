-- ===== src/Stats/Rings/Outage.antt =====
-- internal/stats/rings.go: what the newest second reads as during an outage and after it.
use go_salt_events.Stats.Rings.Write.{counted, length-mark_one}
use go_salt_events.Stats.Rings.Histogram.{advance-idle, advance-running}
use go_salt_events.Base.{
  Bool-cases, List, ap, arith, false, inl, inr, length, length-set, ltb, max, not, refl, suc, true,
  zero, ℕ, ℕ_discrete, ◌%◌, ◌&&◌, ◌*◌, ◌+◌, ◌-◌, ◌/◌, ◌<◌, ◌∙◌, ◌≡◌, ◌≤◌,
}
use go_salt_events.Model.Event.{Time}
use go_salt_events.Stats.Rings.{
  Bucket, Rings, add, advance, count_in, from_unix, gap_validity, mark_gap, mark_gap_ring,
  mark_loop, mark_one, minute_buckets, opening, second_buckets, sync_to_now, unix, zero_bucket,
}
use go_salt_events.Stats.Rings.Index.{at}
use go_salt_events.Stats.Rings.Gaps.{
  IsFull, NotQuiet, advance-Advanced, advance-opens, advance-started, advance-stays, length-roll,
  mark_gap_ring-marks,
}

-- The newest second of the rings.
abbrev pub head_second : Rings → Bucket
head_second r = at second_buckets r.secs r.sec_epoch

length-mark_loop :
    (n epoch k i : ℕ) (ring : List Bucket)
    → 0 < n
    → length (mark_loop n epoch k i ring) ≡ length ring
unfolding mark_loop
length-mark_loop n epoch zero i ring some_room = refl
length-mark_loop n epoch (suc k) i ring some_room =
    length-mark_loop n epoch k (i + 1) (mark_one n epoch i ring) some_room
    ∙ length-mark_one n some_room epoch i ring

-- The rings just after a gap report that names the present.
pub record Reported (to : Time) (r : Rings) : Type 0 where
  pub full : IsFull r
  pub started : r.started ≡ true
  pub head : r.sec_epoch ≡ unix to
  pub gap_open : r.gap_open ≡ true
  pub gap_through : r.gap_through ≡ to
  pub marked : NotQuiet (at second_buckets r.secs (unix to))

pub length-mins :
    (r : Rings) (si mi : ℕ) → IsFull r → length (advance r si mi).mins ≡ minute_buckets
length-mins r si mi full = elim (Bool-cases r.started) [
  | inr off ↦ rw (advance-idle r si mi off) full.mins
  | inl on ↦ rw (advance-running r si mi on) (
      length-roll minute_buckets (λ m. opening r (from_unix (m * 60))) r.min_epoch mi r.mins
        (omega arith) full.mins)
]

pub mark_gap-Reported :
    (r : Rings) (from to : Time)
    → IsFull r
    → r.sec_epoch ≤ unix to
    → r.gap_through ≤ to
    → from ≤ to
    → Reported to (mark_gap r from to)
unfolding mark_gap mark_gap_ring
mark_gap-Reported r from to full ahead older order =
    let a = advance r (unix to) (unix to / 60) in
    let d = advance-Advanced r (unix to) (unix to / 60) full ahead in
    let first = max (unix from) (a.sec_epoch - (second_buckets - 1)) in
    let first_min = max (unix from / 60) (a.min_epoch - (minute_buckets - 1)) in
    record {
      full = record {
        secs =
            length-mark_loop second_buckets a.sec_epoch (unix to + 1 - first) first a.secs
              (omega arith)
            ∙ d.secs;
        mins =
            length-mark_loop minute_buckets a.min_epoch (unix to / 60 + 1 - first_min) first_min
              a.mins (omega arith)
            ∙ length-mins r (unix to) (unix to / 60) full;
      };
      started = advance-started r (unix to) (unix to / 60);
      head = d.head;
      gap_open = ground (arith, d.gap_open, d.gap_through);
      gap_through = ground (arith, d.gap_open, d.gap_through);
      marked =
          unfold mark_gap_ring in
          mark_gap_ring-marks second_buckets (omega arith) a.sec_epoch (unix from) (unix to)
            (unix to) a.secs d.secs (unfold unix in omega arith) (omega arith)
            (omega (arith, d.head)) (omega (arith, d.head));
    }

opening-gap :
    (r : Rings) (begin : Time)
    → r.gap_open ≡ true
    → begin ≤ r.gap_through + gap_validity
    → (opening r begin).gap ≡ true
unfolding opening
opening-gap r begin open_gap le = ground arith

-- A bucket begins no later than an instant in it.
from_unix-le : (now : Time) → 0 < unix now → from_unix (unix now) ≤ now
unfolding unix from_unix
from_unix-le now h = omega arith

-- A gap report speaks for `GapValidity` after the instant that it names: whenever the rings are read
-- within that time, and whether or not the clock has moved into a new second, the newest second
-- reads as a gap or has events, and never as a quiet master.
pub outage-NotQuiet :
    (r : Rings) (from to now : Time)
    → IsFull r
    → r.sec_epoch ≤ unix to
    → r.gap_through ≤ to
    → from ≤ to
    → to ≤ now
    → now ≤ to + gap_validity
    → NotQuiet (head_second (sync_to_now (mark_gap r from to) now))
outage-NotQuiet r from to now full ahead older order later within =
    let m = mark_gap r from to in
    let p = mark_gap-Reported r from to full ahead older order in
    let le : unix to ≤ unix now = unfold unix in omega arith in
    let d = advance-Advanced m (unix now) (unix now / 60) p.full (omega (arith, p.head)) in
    unfold sync_to_now in
    rw d.head (elim (ℕ_discrete (unix to) (unix now)) [
      | yes e ↦
          rw
            (
              advance-stays m (unix now) (unix now / 60) p.full (omega (arith, p.head)) p.started
                  (p.head ∙ e),
              ← e,
            )
            p.marked
      | no ne ↦
          rw
            (advance-opens m (unix now) (unix now / 60) p.full (omega (arith, p.head)) p.started
              (omega (arith, p.head)))
            (inl (
              opening-gap m (from_unix (unix now)) p.gap_open
                (omega (arith, p.gap_through, from_unix-le now (omega arith)))))
    ])

add-closes : (r : Rings) (t : Time) → ((add r t).gap_open ≡ false) × ((add r t).started ≡ true)
unfolding add
add-closes r t = (refl, advance-started r (unix t) (unix t / 60))

length-count_in :
    (n epoch i : ℕ) (ring : List Bucket) → length (count_in n epoch i ring) ≡ length ring
unfolding count_in
length-count_in n epoch i ring = ground (arith, length-set ring (i % n) (counted (at n ring i)))

pub add-IsFull :
    (r : Rings) (t : Time)
    → IsFull r
    → r.sec_epoch ≤ unix t
    → IsFull (add r t) × ((add r t).sec_epoch ≡ unix t)
unfolding add
add-IsFull r t full ahead =
    let d = advance-Advanced r (unix t) (unix t / 60) full ahead in
    let l = length-mins r (unix t) (unix t / 60) full in
    let a = advance r (unix t) (unix t / 60) in
    (
      record {
        secs = length-count_in second_buckets a.sec_epoch (unix t) a.secs ∙ d.secs;
        mins = length-count_in minute_buckets a.min_epoch (unix t / 60) a.mins ∙ l;
      },
      d.head,
    )

-- Once an event has arrived, a second that opens later and is empty reads as an honest zero: no gap
-- report from before the reconnect colours it.
pub reconnect-reads_zero :
    (r : Rings) (t now : Time)
    → IsFull r
    → r.sec_epoch ≤ unix t
    → unix t < unix now
    → head_second (sync_to_now (add r t) now) ≡ zero_bucket
reconnect-reads_zero r t now full ahead later =
    let (full', head) = add-IsFull r t full ahead in
    let (closed, on) = add-closes r t in
    let d = advance-Advanced (add r t) (unix now) (unix now / 60) full' (omega arith) in
    unfold sync_to_now in
    rw d.head (
      advance-opens (add r t) (unix now) (unix now / 60) full' (omega arith) on (omega arith)
      ∙ unfold opening in
        ap
          (λ g. record {
            count = 0;
            gap = g && not (ltb ((add r t).gap_through + gap_validity) (from_unix (unix now)));
          })
          closed)
