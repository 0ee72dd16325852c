-- ===== src/Stats/Rings/Histogram.antt =====
-- internal/stats/rings.go: over any run of calls the rings are an exact histogram of arrivals.
use go_salt_events.Base.{
  List, [], ap, arith, false, get_or-replicate, if◌then◌else◌, inl, inr, length-replicate, max,
  refl, replicate, sym, true, ℕ, ◌%◌, ◌*◌, ◌+◌, ◌/◌, ◌<◌, ◌==◌, ◌^◌, ◌∙◌, ◌∷◌, ◌≡◌, ◌≤◌, ◌⊎◌,
}
use go_salt_events.Model.Event.{Time}
use go_salt_events.Stats.Rings.{
  Rings, add, advance, from_unix, mark_gap, minute_buckets, new_rings, opening, roll,
  second_buckets, sync_to_now, unix, zero_bucket,
}
use go_salt_events.Stats.Rings.Index.{at}
use go_salt_events.Stats.Rings.Write.{count_in-Shows, mark_gap_ring-Shows}
use go_salt_events.Stats.Rings.Shows.{Shows, bump, roll-Shows}

-- A call that changes the rings: `Add`, `MarkGap`, or a read of either history at a time.
pub data Call : Type 0 where
  add_at : Time → Call
  gap_between : Time → Time → Call
  read_at : Time → Call

unfoldable pub apply : Rings → Call → Rings
apply r (add_at t) = add r t
apply r (gap_between from to) = mark_gap r from to
apply r (read_at now) = sync_to_now r now

unfoldable pub run : Rings → List Call → Rings
unfolding apply
run r [] = r
run r (c ∷ cs) = run (apply r c) cs

-- Every time is one since 1970, as the clock's readings are: before that `Unix` is negative, and a ring may
-- be indexed below its start.
abbrev pub SinceEpoch : List Call → Type 0
SinceEpoch [] = Unit {0}
SinceEpoch (add_at t ∷ cs) = (from_unix 0 ≤ t) × SinceEpoch cs
SinceEpoch (gap_between from to ∷ cs) = (from_unix 0 ≤ from) × (from_unix 0 ≤ to) × SinceEpoch cs
SinceEpoch (read_at now ∷ cs) = (from_unix 0 ≤ now) × SinceEpoch cs

-- How many events arrived in the `k`-second bucket `i`.
abbrev pub arrivals : ℕ → List Call → ℕ → ℕ
arrivals k [] i = 0
arrivals k (add_at t ∷ cs) i = (if unix t / k == i then 1 else 0) + arrivals k cs i
arrivals k (gap_between _ _ ∷ cs) i = arrivals k cs i
arrivals k (read_at _ ∷ cs) i = arrivals k cs i

-- Both rings show their counts, once a call has set the clock going; before that both are blank.
record Tracks (hs hm : ℕ → ℕ) (r : Rings) : Type 0 where
  secs : Shows second_buckets r.sec_epoch hs r.secs
  mins : Shows minute_buckets r.min_epoch hm r.mins

record IsBlank (r : Rings) : Type 0 where
  idle : r.started ≡ false
  secs : r.secs ≡ replicate second_buckets zero_bucket
  mins : r.mins ≡ replicate minute_buckets zero_bucket

blank-Shows : (n e : ℕ) (h : ℕ → ℕ) → ((i : ℕ) → h i ≡ 0) → Shows n e h (replicate n zero_bucket)
blank-Shows n e h z = record {
  full = length-replicate n zero_bucket;
  shown = λ i le near.
      ap (λ b. b.count) (get_or-replicate n (i % n) zero_bucket) ∙ sym (ap (λ t. t % 2 ^ 64) (z i));
  none_later = λ i lt. z i;
}

opening_empty : (r : Rings) (t : Time) → (opening r t).count ≡ 0
unfolding opening
opening_empty r t = refl

pub advance-idle :
    (r : Rings) (si mi : ℕ)
    → r.started ≡ false
    → advance r si mi ≡ record r { sec_epoch = si; min_epoch = mi; started = true }
unfolding advance
advance-idle r si mi off = ground arith

pub advance-running :
    (r : Rings) (si mi : ℕ)
    → r.started ≡ true
    → advance r si mi ≡ record r {
      secs = roll second_buckets (λ s. opening r (from_unix s)) r.sec_epoch si r.secs;
      sec_epoch = max r.sec_epoch si;
      mins = roll minute_buckets (λ m. opening r (from_unix (m * 60))) r.min_epoch mi r.mins;
      min_epoch = max r.min_epoch mi;
    }
unfolding advance
advance-running r si mi on = ground arith

-- What is known of the rings when nothing or something came before; `fs` and `fm` are the counts.
abbrev Knows : (ℕ → ℕ) → (ℕ → ℕ) → Rings → Type 0
Knows hs hm r =
    (IsBlank r × ((i : ℕ) → hs i ≡ 0) × ((i : ℕ) → hm i ≡ 0))
    ⊎ ((r.started ≡ true) × Tracks hs hm r)

-- `advance` sets the clock going, never back, and keeps what the rings show.
advance-Tracks :
    (hs hm : ℕ → ℕ) (r : Rings) (si mi : ℕ)
    → Knows hs hm r
    → ((advance r si mi).started ≡ true)
      × Tracks hs hm (advance r si mi)
      × (si ≤ (advance r si mi).sec_epoch)
      × (mi ≤ (advance r si mi).min_epoch)
advance-Tracks hs hm r si mi (inl (b, zs, zm)) = rw (advance-idle r si mi b.idle) (
  refl,
  record {
    secs = rw b.secs (blank-Shows second_buckets si hs zs);
    mins = rw b.mins (blank-Shows minute_buckets mi hm zm);
  },
  omega arith,
  omega arith,
)
advance-Tracks hs hm r si mi (inr (on, h)) = rw (advance-running r si mi on) (
  on,
  record {
    secs =
        roll-Shows second_buckets (omega arith) (λ s. opening r (from_unix s))
          (λ s. opening_empty r (from_unix s)) hs r.sec_epoch si r.secs h.secs;
    mins =
        roll-Shows minute_buckets (omega arith) (λ m. opening r (from_unix (m * 60)))
          (λ m. opening_empty r (from_unix (m * 60))) hm r.min_epoch mi r.mins h.mins;
  },
  omega arith,
  omega arith,
)

-- One call of each kind.
add-Tracks :
    (hs hm : ℕ → ℕ) (r : Rings) (t : Time)
    → Knows hs hm r
    → ((add r t).started ≡ true) × Tracks (bump hs (unix t)) (bump hm (unix t / 60)) (add r t)
unfolding add
add-Tracks hs hm r t k =
    let si = unix t in
    let a = advance r si (si / 60) in
    let (on, h, les, lem) = advance-Tracks hs hm r si (si / 60) k in
    (
      on,
      record {
        secs = count_in-Shows second_buckets (omega arith) hs a.sec_epoch si a.secs h.secs les;
        mins =
            count_in-Shows minute_buckets (omega arith) hm a.min_epoch (si / 60) a.mins h.mins lem;
      },
    )

mark_gap-Tracks :
    (hs hm : ℕ → ℕ) (r : Rings) (from to : Time)
    → Knows hs hm r
    → ((mark_gap r from to).started ≡ true) × Tracks hs hm (mark_gap r from to)
unfolding mark_gap
mark_gap-Tracks hs hm r from to k =
    let a = advance r (unix to) (unix to / 60) in
    let (on, h, _, _) = advance-Tracks hs hm r (unix to) (unix to / 60) k in
    (
      on,
      record {
        secs =
            mark_gap_ring-Shows second_buckets (omega arith) hs a.sec_epoch (unix from) (unix to)
              a.secs h.secs;
        mins =
            mark_gap_ring-Shows minute_buckets (omega arith) hm a.min_epoch (unix from / 60)
              (unix to / 60) a.mins h.mins;
      },
    )

-- The counts after one more call.
abbrev after : ℕ → (ℕ → ℕ) → Call → ℕ → ℕ
after k h (add_at t) = bump h (unix t / k)
after k h (gap_between _ _) = h
after k h (read_at _) = h

apply-Tracks :
    (hs hm : ℕ → ℕ) (r : Rings) (c : Call)
    → Knows hs hm r
    → ((apply r c).started ≡ true) × Tracks (after 1 hs c) (after 60 hm c) (apply r c)
unfolding apply
apply-Tracks hs hm r (add_at t) k =
    let e : unix t / 1 ≡ unix t = omega arith in rw e (add-Tracks hs hm r t k)
apply-Tracks hs hm r (gap_between from to) k = mark_gap-Tracks hs hm r from to k
apply-Tracks hs hm r (read_at now) k =
    let (on, h, _, _) = advance-Tracks hs hm r (unix now) (unix now / 60) k in
    unfold sync_to_now in (on, h)

afters : ℕ → (ℕ → ℕ) → List Call → ℕ → ℕ
afters k h [] = h
afters k h (c ∷ cs) = afters k (after k h c) cs

run-Tracks :
    (hs hm : ℕ → ℕ) (r : Rings) (cs : List Call)
    → Knows hs hm r
    → Knows (afters 1 hs cs) (afters 60 hm cs) (run r cs)
unfolding run afters
run-Tracks hs hm r [] k = k
run-Tracks hs hm r (c ∷ cs) k =
    run-Tracks (after 1 hs c) (after 60 hm c) (apply r c) cs (inr (apply-Tracks hs hm r c k))

afters-arrivals :
    (k : ℕ) (h : ℕ → ℕ) (cs : List Call) (i : ℕ) → afters k h cs i ≡ h i + arrivals k cs i
unfolding afters
afters-arrivals k h [] i = omega arith
afters-arrivals k h (add_at t ∷ cs) i = ground (arith, afters-arrivals k (bump h (unix t / k)) cs i)
afters-arrivals k h (gap_between _ _ ∷ cs) i = afters-arrivals k h cs i
afters-arrivals k h (read_at _ ∷ cs) i = afters-arrivals k h cs i

new_rings-Knows : Knows (λ _. 0) (λ _. 0) new_rings
unfolding new_rings
new_rings-Knows = inl (record { idle = refl; secs = refl; mins = refl }, λ i. refl, λ i. refl)

Knows→Tracks : (hs hm : ℕ → ℕ) (r : Rings) → Knows hs hm r → Tracks hs hm r
Knows→Tracks hs hm r (inr (on, h)) = h
Knows→Tracks hs hm r (inl (b, zs, zm)) = record {
  secs = rw b.secs (blank-Shows second_buckets r.sec_epoch hs zs);
  mins = rw b.mins (blank-Shows minute_buckets r.min_epoch hm zm);
}

run_new-Tracks :
    (cs : List Call) → Tracks (afters 1 (λ _. 0) cs) (afters 60 (λ _. 0) cs) (run new_rings cs)
run_new-Tracks cs = Knows→Tracks _ _ _ (run-Tracks (λ _. 0) (λ _. 0) new_rings cs new_rings-Knows)

-- Whatever calls were made, in whatever order and with whatever times since 1970, every second that is still
-- in the window shows exactly how many events arrived in it, as a uint64.
pub run-counts_seconds :
    (cs : List Call) (i : ℕ)
    → SinceEpoch cs
    → i ≤ (run new_rings cs).sec_epoch
    → (run new_rings cs).sec_epoch < i + second_buckets
    → (at second_buckets (run new_rings cs).secs i).count ≡ arrivals 1 cs i % 2 ^ 64
run-counts_seconds cs i since le near =
    (run_new-Tracks cs).secs.shown i le near
    ∙ ap (λ t. t % 2 ^ 64) {x = afters 1 (λ _. 0) cs i} {y = arrivals 1 cs i}
        (omega (arith, afters-arrivals 1 (λ _. 0) cs i))

-- The same of every minute that is still in its window.
pub run-counts_minutes :
    (cs : List Call) (i : ℕ)
    → i ≤ (run new_rings cs).min_epoch
    → (run new_rings cs).min_epoch < i + minute_buckets
    → (at minute_buckets (run new_rings cs).mins i).count ≡ arrivals 60 cs i % 2 ^ 64
run-counts_minutes cs i le near =
    (run_new-Tracks cs).mins.shown i le near
    ∙ ap (λ t. t % 2 ^ 64) {x = afters 60 (λ _. 0) cs i} {y = arrivals 60 cs i}
        (omega (arith, afters-arrivals 60 (λ _. 0) cs i))
