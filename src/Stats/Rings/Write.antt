-- ===== src/Stats/Rings/Write.antt =====
-- internal/stats/rings.go: counting an event and marking a gap on one ring.
use native.Mathlib.Nat.{mod-lt}
use go_salt_events.Base.{
  List, ap, arith, dec_lt, false, get_or-set_ne, get_or-set_self, inl, inr, length, length-set, max,
  set, subst, suc, true, zero, ℕ, ℕ_discrete, ◌%◌, ◌+◌, ◌-◌, ◌<◌, ◌^◌, ◌∙◌, ◌≡◌, ◌≤◌, ◌⊎◌,
}
use go_salt_events.Stats.Rings.{Bucket, count_in, mark_gap_ring, mark_loop, mark_one, zero_bucket}
use go_salt_events.Stats.Rings.Index.{at, at-set_ne, at-set_self}
use go_salt_events.Stats.Rings.Shows.{Shows, bump}

-- The bucket that `Add` writes.
abbrev pub counted : Bucket → Bucket
counted b = record { count = (b.count + 1) % 2 ^ 64; gap = false }

module _ (n : ℕ) where
  pub count_in-hits :
      (epoch i : ℕ) (ring : List Bucket)
      → i ≤ epoch
      → epoch < i + n
      → count_in n epoch i ring ≡ set ring (i % n) (counted (at n ring i))
  unfolding count_in
  count_in-hits epoch i ring le near = ground arith

  pub count_in-misses :
      (epoch i : ℕ) (ring : List Bucket) → i + n ≤ epoch → count_in n epoch i ring ≡ ring
  unfolding count_in
  count_in-misses epoch i ring far = ground arith

  pub mark_one-cases :
      (epoch i : ℕ) (ring : List Bucket)
      → (mark_one n epoch i ring ≡ ring)
        ⊎ ((mark_one n epoch i ring ≡ set ring (i % n) (record (at n ring i) { gap = true }))
            × ((at n ring i).count ≡ 0))
  unfolding mark_one
  mark_one-cases epoch i ring = ground arith

module _ (n : ℕ) (some_room : 0 < n) where
  pub count_in-Shows :
      (h : ℕ → ℕ) (epoch i : ℕ) (ring : List Bucket)
      → Shows n epoch h ring
      → i ≤ epoch
      → Shows n epoch (bump h i) (count_in n epoch i ring)
  count_in-Shows h epoch i ring s le = elim (dec_lt epoch (i + n)) [
    | yes near ↦
        let b = counted (at n ring i) in
        rw (count_in-hits n epoch i ring le near) record {
          full = length-set ring (i % n) b ∙ s.full;
          shown = λ j le' near'. elim (ℕ_discrete i j) [
            | yes e ↦
                subst (λ t. (at n (set ring (i % n) b) t).count ≡ bump h i t % 2 ^ 64) e
                  (ap (λ x. x.count) (at-set_self n ring i b some_room s.full)
                    ∙ ground (arith, s.shown i))
            | no ne ↦
                ap (λ x. x.count) (at-set_ne n ring i j b ne (omega arith) (omega arith))
                ∙ ground (arith, s.shown j)
          ];
          none_later = λ j lt. ground (arith, s.none_later j);
        }
    | no far ↦ rw (count_in-misses n epoch i ring (omega arith)) record {
      full = s.full;
      shown = λ j le' near'. ground (arith, s.shown j);
      none_later = λ j lt. ground (arith, s.none_later j);
    }
  ]

  mark_one-count :
      (epoch i j : ℕ) (ring : List Bucket)
      → length ring ≡ n
      → (at n (mark_one n epoch i ring) j).count ≡ (at n ring j).count
  mark_one-count epoch i j ring full = elim (mark_one-cases n epoch i ring) [
    | inl same ↦ rw same
    | inr (e, _) ↦ elim (ℕ_discrete (i % n) (j % n)) [
      | yes p ↦
          rw (e, ← p)
            (ap (λ x. x.count)
              (get_or-set_self ring (i % n) (record (at n ring i) { gap = true }) zero_bucket
                (omega (arith, mod-lt i some_room))))
      | no p ↦ rw e (
          ap (λ x. x.count)
            (get_or-set_ne ring (i % n) (j % n) (record (at n ring i) { gap = true }) zero_bucket
              p))
    ]
  ]

  pub length-mark_one :
      (epoch i : ℕ) (ring : List Bucket) → length (mark_one n epoch i ring) ≡ length ring
  length-mark_one epoch i ring = elim (mark_one-cases n epoch i ring) [
    | inl same ↦ rw same
    | inr (e, _) ↦ rw e (length-set ring (i % n) (record (at n ring i) { gap = true }))
  ]

  mark_one-Shows :
      (h : ℕ → ℕ) (epoch i : ℕ) (ring : List Bucket)
      → Shows n epoch h ring
      → Shows n epoch h (mark_one n epoch i ring)
  mark_one-Shows h epoch i ring s = record {
    full = length-mark_one epoch i ring ∙ s.full;
    shown = λ j le near. mark_one-count epoch i j ring s.full ∙ s.shown j le near;
    none_later = s.none_later;
  }

  mark_loop-Shows :
      (h : ℕ → ℕ) (epoch k i : ℕ) (ring : List Bucket)
      → Shows n epoch h ring
      → Shows n epoch h (mark_loop n epoch k i ring)
  unfolding mark_loop
  mark_loop-Shows h epoch zero i ring s = s
  mark_loop-Shows h epoch (suc k) i ring s =
      mark_loop-Shows h epoch k (i + 1) (mark_one n epoch i ring) (mark_one-Shows h epoch i ring s)

  pub mark_gap_ring-Shows :
      (h : ℕ → ℕ) (epoch from to : ℕ) (ring : List Bucket)
      → Shows n epoch h ring
      → Shows n epoch h (mark_gap_ring n epoch from to ring)
  unfolding mark_gap_ring
  mark_gap_ring-Shows h epoch from to ring s =
      let first = max from (epoch - (n - 1)) in
      mark_loop-Shows h epoch (to + 1 - first) first ring s
