-- ===== src/Stats/Rings/Shows.antt =====
-- internal/stats/rings.go: one ring against the counts that it stands for, and the opening of new buckets.
use go_salt_events.Base.{
  List, ap, arith, dec_le, dec_lt, get_or-replicate, if◌then◌else◌, length, length-replicate,
  length-set, max, refl, replicate, set, subst, suc, sym, zero, ℕ, ℕ_discrete, ◌%◌, ◌+◌, ◌-◌, ◌<◌,
  ◌==◌, ◌^◌, ◌∙◌, ◌≡◌, ◌≤◌,
}
use go_salt_events.Stats.Rings.{Bucket, open_range, roll, zero_bucket}
use go_salt_events.Stats.Rings.Index.{at, at-set_ne, at-set_self}

-- The ring at `epoch` shows the counts `h`, as uint64, in the last `n` buckets; nothing is later.
pub record Shows (n epoch : ℕ) (h : ℕ → ℕ) (ring : List Bucket) : Type 0 where
  pub full : length ring ≡ n
  pub shown : (i : ℕ) → i ≤ epoch → epoch < i + n → (at n ring i).count ≡ h i % 2 ^ 64
  pub none_later : (i : ℕ) → epoch < i → h i ≡ 0

module _ (n : ℕ) (some_room : 0 < n) (fresh : ℕ → Bucket) where
  pub length-open_range :
      (k s : ℕ) (ring : List Bucket) → length (open_range n fresh k s ring) ≡ length ring
  unfolding open_range
  length-open_range zero s ring = refl
  length-open_range (suc k) s ring =
      length-open_range k (s + 1) (set ring (s % n) (fresh s)) ∙ length-set ring (s % n) (fresh s)

  -- What was in the ring before the range stays, as far as it is still in the window.
  pub at-open_range_old :
      (k s i : ℕ) (ring : List Bucket)
      → i < s
      → s + k ≤ i + n
      → at n (open_range n fresh k s ring) i ≡ at n ring i
  unfolding open_range
  at-open_range_old zero s i ring lt fits = refl
  at-open_range_old (suc k) s i ring lt fits =
      at-open_range_old k (s + 1) i (set ring (s % n) (fresh s)) (omega arith) (omega arith)
      ∙ at-set_ne n ring s i (fresh s) (omega arith) (omega arith) (omega arith)

  -- Every bucket of the range is as it was opened.
  pub at-open_range_new :
      (k s i : ℕ) (ring : List Bucket)
      → length ring ≡ n
      → k ≤ n
      → s ≤ i
      → i < s + k
      → at n (open_range n fresh k s ring) i ≡ fresh i
  unfolding open_range
  at-open_range_new zero s i ring full le ge lt = absurd (omega arith)
  at-open_range_new (suc k) s i ring full le ge lt = elim (ℕ_discrete s i) [
    | yes e ↦
        at-open_range_old k (s + 1) i (set ring (s % n) (fresh s)) (omega arith) (omega arith)
        ∙ subst (λ j. at n (set ring (s % n) (fresh s)) j ≡ fresh j) e
            (at-set_self n ring s (fresh s) some_room full)
    | no ne ↦
        at-open_range_new k (s + 1) i (set ring (s % n) (fresh s))
          (length-set ring (s % n) (fresh s) ∙ full) (omega arith) (omega arith) (omega arith)
  ]

  -- The three ways in which `advance` goes on one ring.
  pub roll-stays : (epoch i : ℕ) (ring : List Bucket) → i ≤ epoch → roll n fresh epoch i ring ≡ ring
  unfolding roll
  roll-stays epoch i ring le = ground arith

  pub roll-jumps :
      (epoch i : ℕ) (ring : List Bucket)
      → epoch < i
      → n ≤ i - epoch
      → roll n fresh epoch i ring ≡ set (replicate n zero_bucket) (i % n) (fresh i)
  unfolding roll
  roll-jumps epoch i ring lt far = ground arith

  pub roll-steps :
      (epoch i : ℕ) (ring : List Bucket)
      → epoch < i
      → i - epoch < n
      → roll n fresh epoch i ring ≡ open_range n fresh (i - epoch) (epoch + 1) ring
  unfolding roll
  roll-steps epoch i ring lt near = ground arith

  -- `advance` opens the new head bucket.
  pub roll-head :
      (epoch i : ℕ) (ring : List Bucket)
      → length ring ≡ n
      → epoch < i
      → at n (roll n fresh epoch i ring) i ≡ fresh i
  roll-head epoch i ring full lt = elim (dec_le n (i - epoch)) [
    | yes far ↦ rw (roll-jumps epoch i ring lt far) (
        at-set_self n (replicate n zero_bucket) i (fresh i) some_room
          (length-replicate n zero_bucket))
    | no near ↦ rw (roll-steps epoch i ring lt (omega arith)) (
        at-open_range_new (i - epoch) (epoch + 1) i ring full (omega arith) (omega arith)
          (omega arith))
  ]

  module _ (empty : (s : ℕ) → (fresh s).count ≡ 0) (h : ℕ → ℕ) (epoch i : ℕ) (ring : List Bucket)
      (s : Shows n epoch h ring) where
    jumps-Shows :
        epoch < i → n ≤ i - epoch → Shows n i h (set (replicate n zero_bucket) (i % n) (fresh i))
    jumps-Shows lt far =
        let blank = replicate n zero_bucket in
        record {
          full = length-set blank (i % n) (fresh i) ∙ length-replicate n zero_bucket;
          shown = λ j le near. elim (ℕ_discrete i j) [
            | yes e ↦
                subst (λ t. (at n (set blank (i % n) (fresh i)) t).count ≡ h t % 2 ^ 64) e
                  (ap (λ b. b.count)
                      (at-set_self n blank i (fresh i) some_room (length-replicate n zero_bucket))
                    ∙ empty i
                    ∙ sym (ap (λ t. t % 2 ^ 64) (s.none_later i lt)))
            | no ne ↦
                ap (λ b. b.count)
                  (at-set_ne n blank i j (fresh i) ne (omega arith) (omega arith)
                    ∙ get_or-replicate n (j % n) zero_bucket)
                ∙ sym (ap (λ t. t % 2 ^ 64) (s.none_later j (omega arith)))
          ];
          none_later = λ j lt'. s.none_later j (omega arith);
        }

    steps-Shows :
        epoch < i → i - epoch < n → Shows n i h (open_range n fresh (i - epoch) (epoch + 1) ring)
    steps-Shows lt near = record {
      full = length-open_range (i - epoch) (epoch + 1) ring ∙ s.full;
      shown = λ j le within. elim (dec_le j epoch) [
        | yes old ↦
            ap (λ b. b.count)
              (at-open_range_old (i - epoch) (epoch + 1) j ring (omega arith) (omega arith))
            ∙ s.shown j old (omega arith)
        | no new ↦
            ap (λ b. b.count)
              (at-open_range_new (i - epoch) (epoch + 1) j ring s.full (omega arith) (omega arith)
                (omega arith))
            ∙ empty j
            ∙ sym (ap (λ t. t % 2 ^ 64) (s.none_later j (omega arith)))
      ];
      none_later = λ j lt'. s.none_later j (omega arith);
    }

    pub roll-Shows : Shows n (max epoch i) h (roll n fresh epoch i ring)
    roll-Shows = elim (dec_lt epoch i) [
      | no stay ↦
          let e : max epoch i ≡ epoch = omega arith in
          rw (e, roll-stays epoch i ring (omega arith)) s
      | yes lt ↦
          let e : max epoch i ≡ i = omega arith in
          elim (dec_le n (i - epoch)) [
            | yes far ↦ rw (e, roll-jumps epoch i ring lt far) (jumps-Shows lt far)
            | no near ↦
                rw (e, roll-steps epoch i ring lt (omega arith)) (steps-Shows lt (omega arith))
          ]
    ]

-- One more event at the index `i`.
abbrev pub bump : (ℕ → ℕ) → ℕ → ℕ → ℕ
bump h i j = if i == j then h j + 1 else h j
