-- ===== src/Stats/Rings/Gaps.antt =====
-- internal/stats/rings.go: a gap and a zero stay different facts.
use go_salt_events.Stats.Rings.Histogram.{advance-idle, advance-running}
use go_salt_events.Stats.Rings.Shows.{
  length-open_range, roll-head, roll-jumps, roll-stays, roll-steps,
}
use native.Mathlib.Nat.{mod-lt}
use go_salt_events.Base.{
  Bool-cases, List, ap, arith, dec_le, dec_lt, get_or-set_ne, get_or-set_self, inl, inr, length,
  length-replicate, length-set, max, refl, replicate, subst, suc, true, zero, ℕ, ℕ_discrete, ◌%◌,
  ◌+◌, ◌-◌, ◌<◌, ◌∙◌, ◌≡◌, ◌≢◌, ◌≤◌, ◌⊎◌,
}
use go_salt_events.Stats.Rings.{
  Bucket, Rings, advance, from_unix, mark_gap_ring, mark_loop, mark_one, minute_buckets, opening,
  roll, second_buckets, zero_bucket,
}
use go_salt_events.Stats.Rings.Index.{at}
use go_salt_events.Stats.Rings.Write.{length-mark_one, mark_one-cases}

-- A bucket that does not read as a quiet second: a gap, or events.
abbrev pub NotQuiet : Bucket → Type 0
NotQuiet b = (b.gap ≡ true) ⊎ (b.count ≢ 0)

module _ (n : ℕ) (some_room : 0 < n) (epoch : ℕ) where
  mark_one-NotQuiet :
      (i j : ℕ) (ring : List Bucket)
      → length ring ≡ n
      → NotQuiet (at n ring j)
      → NotQuiet (at n (mark_one n epoch i ring) j)
  mark_one-NotQuiet i j ring full q = elim (mark_one-cases n epoch i ring) [
    | inl same ↦ rw same q
    | inr (e, _) ↦ elim (ℕ_discrete (i % n) (j % n)) [
      | yes p ↦
          rw
            (
              e,
              ← p,
              get_or-set_self ring (i % n) (record (at n ring i) { gap = true }) zero_bucket
                  (omega (arith, mod-lt i some_room)),
            )
            (inl refl)
      | no p ↦
          rw
            (
              e,
              get_or-set_ne ring (i % n) (j % n) (record (at n ring i) { gap = true }) zero_bucket
                  p,
            )
            q
    ]
  ]

  mark_one-marks :
      (i : ℕ) (ring : List Bucket)
      → length ring ≡ n
      → i ≤ epoch
      → epoch < i + n
      → NotQuiet (at n (mark_one n epoch i ring) i)
  unfolding mark_one
  mark_one-marks i ring full le near = ground (
    arith,
    get_or-set_self ring (i % n) (record (at n ring i) { gap = true }) zero_bucket,
    mod-lt i some_room,
  )

  mark_loop-NotQuiet :
      (k i j : ℕ) (ring : List Bucket)
      → length ring ≡ n
      → NotQuiet (at n ring j)
      → NotQuiet (at n (mark_loop n epoch k i ring) j)
  unfolding mark_loop
  mark_loop-NotQuiet zero i j ring full q = q
  mark_loop-NotQuiet (suc k) i j ring full q =
      mark_loop-NotQuiet k (i + 1) j (mark_one n epoch i ring)
        (length-mark_one n some_room epoch i ring ∙ full) (mark_one-NotQuiet i j ring full q)

  mark_loop-marks :
      (k i j : ℕ) (ring : List Bucket)
      → length ring ≡ n
      → i ≤ j
      → j < i + k
      → j ≤ epoch
      → epoch < j + n
      → NotQuiet (at n (mark_loop n epoch k i ring) j)
  unfolding mark_loop
  mark_loop-marks zero i j ring full ge lt le near = absurd (omega arith)
  mark_loop-marks (suc k) i j ring full ge lt le near = elim (ℕ_discrete i j) [
    | yes e ↦
        mark_loop-NotQuiet k (i + 1) j (mark_one n epoch i ring)
          (length-mark_one n some_room epoch i ring ∙ full)
          (subst (λ t. NotQuiet (at n (mark_one n epoch i ring) t)) e
            (mark_one-marks i ring full (omega arith) (omega arith)))
    | no ne ↦
        mark_loop-marks k (i + 1) j (mark_one n epoch i ring)
          (length-mark_one n some_room epoch i ring ∙ full) (omega arith) (omega arith) le near
  ]

  -- No bucket of a reported gap that is still in the window reads as quiet.
  pub mark_gap_ring-marks :
      (from to j : ℕ) (ring : List Bucket)
      → length ring ≡ n
      → from ≤ j
      → j ≤ to
      → j ≤ epoch
      → epoch < j + n
      → NotQuiet (at n (mark_gap_ring n epoch from to ring) j)
  unfolding mark_gap_ring
  mark_gap_ring-marks from to j ring full ge le le' near =
      let first = max from (epoch - (n - 1)) in
      mark_loop-marks (to + 1 - first) first j ring full (omega arith) (omega arith) le' near

-- Both rings have their full size.
pub record IsFull (r : Rings) : Type 0 where
  pub secs : length r.secs ≡ second_buckets
  pub mins : length r.mins ≡ minute_buckets

pub length-roll :
    (n : ℕ) (fresh : ℕ → Bucket) (epoch i : ℕ) (ring : List Bucket)
    → 0 < n
    → length ring ≡ n
    → length (roll n fresh epoch i ring) ≡ n
length-roll n fresh epoch i ring some_room full = elim (dec_lt epoch i) [
  | no stay ↦ rw (roll-stays n some_room fresh epoch i ring (omega arith)) full
  | yes lt ↦ elim (dec_le n (i - epoch)) [
    | yes far ↦
        rw (roll-jumps n some_room fresh epoch i ring lt far)
          (length-set (replicate n zero_bucket) (i % n) (fresh i) ∙ length-replicate n zero_bucket)
    | no near ↦
        rw (roll-steps n some_room fresh epoch i ring lt (omega arith))
          (length-open_range n some_room fresh (i - epoch) (epoch + 1) ring ∙ full)
  ]
]

module _ (r : Rings) (si mi : ℕ) (full : IsFull r) (ahead : r.sec_epoch ≤ si) where
  -- `advance` keeps the sizes, moves the head to where it is told, and leaves the gap report.
  pub record Advanced : Type 0 where
    pub secs : length (advance r si mi).secs ≡ second_buckets
    pub head : (advance r si mi).sec_epoch ≡ si
    pub gap_open : (advance r si mi).gap_open ≡ r.gap_open
    pub gap_through : (advance r si mi).gap_through ≡ r.gap_through

  pub advance-Advanced : Advanced
  advance-Advanced = elim (Bool-cases r.started) [
    | inr off ↦
        let e = advance-idle r si mi off in
        record {
          secs = ap (λ x. length x.secs) e ∙ full.secs;
          head = ap (λ x. x.sec_epoch) e;
          gap_open = ap (λ x. x.gap_open) e;
          gap_through = ap (λ x. x.gap_through) e;
        }
    | inl on ↦
        let e = advance-running r si mi on in
        record {
          secs =
              ap (λ x. length x.secs) e
              ∙ length-roll second_buckets (λ s. opening r (from_unix s)) r.sec_epoch si r.secs
                  (omega arith) full.secs;
          head = let p : max r.sec_epoch si ≡ si = omega arith in ap (λ x. x.sec_epoch) e ∙ p;
          gap_open = ap (λ x. x.gap_open) e;
          gap_through = ap (λ x. x.gap_through) e;
        }
  ]

  -- A head bucket that is new was opened by the last gap report.
  pub advance-opens :
      r.started ≡ true
      → r.sec_epoch < si
      → at second_buckets (advance r si mi).secs si ≡ opening r (from_unix si)
  advance-opens on lt = rw (advance-running r si mi on) (
      roll-head second_buckets (omega arith) (λ s. opening r (from_unix s)) r.sec_epoch si r.secs
        full.secs lt)

  pub advance-stays : r.started ≡ true → r.sec_epoch ≡ si → (advance r si mi).secs ≡ r.secs
  advance-stays on e = rw (advance-running r si mi on) (
      roll-stays second_buckets (omega arith) (λ s. opening r (from_unix s)) r.sec_epoch si r.secs
        (omega arith))

pub advance-started : (r : Rings) (si mi : ℕ) → (advance r si mi).started ≡ true
unfolding advance
advance-started r si mi = ground arith
