-- ===== src/Stats/Jobs/Valid.antt =====
-- internal/stats/jobs.go: the accounting of the index, and what eviction leaves.
use go_salt_events.Base.{
  Bool-cases, Bytes, List, Option-cases, [], ap, arith, bytes_eq_iff, bytes_eq_refl, bytes_eq→eq,
  false, inl, inr, length, nil_of_length-le, refl, some, suc, true, zero, ℕ, ◌∙◌, ◌∷◌, ◌≡◌, ◌≤◌,
  ◌⊎◌,
}
use go_salt_events.Model.Job.{Job, expected_count, is_some, new_job, returned}
use go_salt_events.Stats.Jobs.{
  JobEntry, JobIndex, drop_job, evict, evict_loop, find_entry, job_bytes, oldest_evictable,
  over_capacity, put_entry, reweigh, settle, touch,
}
use go_salt_events.Stats.Jobs.Entries.{
  Distinct, Distinct-put, Distinct-remove, Distinct-snoc, Each, Each-put, Each-remove, Each-snoc,
  IsCharged, find_entry-put, find_entry-remove, find_entry-snoc, length-remove_entry, weigh,
  weigh-put, weigh-remove, weigh-snoc,
}
use go_salt_events.Stats.Jobs.Victim.{
  AllPinned, IsVictim, oldest_evictable-IsVictim, oldest_evictable-none,
}

-- Every job is in the index once, is charged exactly what it weighs, and the total is the sum of the
-- charges.
pub record IsValid (idx : JobIndex) : Type 0 where
  pub distinct : Distinct idx.order
  pub charged : Each IsCharged idx.order
  pub total : idx.bytes ≡ weigh idx.order

drop_job-IsValid :
    (idx : JobIndex) (v : JobEntry) → IsValid idx → IsVictim idx v → IsValid (drop_job idx v)
unfolding drop_job
drop_job-IsValid idx v h i = record {
  distinct = Distinct-remove idx.order v.job.jid h.distinct;
  charged = Each-remove IsCharged idx.order v.job.jid h.charged;
  total = omega (arith, weigh-remove idx.order v.job.jid v i.present, h.total);
}

-- What eviction from the index `old` leaves: a valid index that fits both bounds or in which every job
-- is pinned, with the pin as it was and the pinned job still there.
pub record Evicts (old idx : JobIndex) : Type 0 where
  pub valid : IsValid idx
  pub bounded : (over_capacity idx ≡ false) ⊎ AllPinned idx.pinned idx.order
  pub pinned : idx.pinned ≡ old.pinned
  pub kept : find_entry idx.order idx.pinned ≡ find_entry old.order old.pinned

evict_loop-Evicts :
    (f : ℕ) (idx : JobIndex) → IsValid idx → length idx.order ≤ f → Evicts idx (evict_loop f idx)
unfolding evict_loop
evict_loop-Evicts zero idx h le = record {
  valid = h;
  bounded = inr (rw (nil_of_length-le idx.order le) tt);
  pinned = refl;
  kept = refl;
}
evict_loop-Evicts (suc f) idx h le = elim (Bool-cases (over_capacity idx)) [
  | inr no_over ↦
      rw (evict_loop, no_over)
        (record { valid = h; bounded = inl no_over; pinned = refl; kept = refl })
  | inl over ↦ elim (Option-cases (oldest_evictable idx)) [
    | inl e ↦
        rw (evict_loop, over, e)
          (record {
            valid = h;
            bounded = inr (oldest_evictable-none idx e);
            pinned = refl;
            kept = refl;
          })
    | inr (v, e) ↦
        let i = oldest_evictable-IsVictim idx v h.distinct e in
        let shorter = length-remove_entry idx.order v.job.jid v i.present in
        let r =
          evict_loop-Evicts f (drop_job idx v) (drop_job-IsValid idx v h i)
            (unfold drop_job in omega (arith, shorter)) in
        rw (evict_loop, over, e)
          (record {
            valid = r.valid;
            bounded = r.bounded;
            pinned = r.pinned ∙ unfold drop_job in refl;
            kept =
                r.kept
                ∙ unfold drop_job in find_entry-remove idx.order v.job.jid idx.pinned i.unpinned;
          })
  ]
]

evict-Evicts : (idx : JobIndex) → IsValid idx → Evicts idx (evict idx)
unfolding evict
evict-Evicts idx h = evict_loop-Evicts (length idx.order) idx h (omega arith)

-- The element that `touch` returns is in the index that it leaves.
pub record Touched (idx : JobIndex) (k : Bytes) (el : JobEntry) (idx' : JobIndex) : Type 0 where
  valid : IsValid idx'
  there : find_entry idx'.order k ≡ some el
  pub named : el.job.jid ≡ k
  pinned : idx'.pinned ≡ idx.pinned
  kept :
      is_some (find_entry idx.order idx.pinned) ≡ true
      → is_some (find_entry idx'.order idx'.pinned) ≡ true

pub find_entry-named :
    (es : List JobEntry) (k : Bytes) (v : JobEntry) → find_entry es k ≡ some v → v.job.jid ≡ k
unfolding find_entry
find_entry-named [] k v h = ground arith
find_entry-named (e ∷ es) k v h = ground (arith, find_entry-named es k v, bytes_eq_iff e.job.jid k)

pub touch-Touched :
    (idx : JobIndex) (k : Bytes) → IsValid idx → Touched idx k (touch idx k).0 (touch idx k).1
unfolding touch
touch-Touched idx k h = elim (Option-cases (find_entry idx.order k)) [
  | inr (e, there) ↦
      rw (touch, there)
        (record {
          valid = h;
          there = there;
          named = find_entry-named idx.order k e there;
          pinned = refl;
          kept = λ x. x;
        })
  | inl absent ↦
      let e : JobEntry = record { job = new_job k; bytes = 0 } in
      let jid : e.job.jid ≡ k = unfold new_job in refl in
      rw (touch, absent)
        (record {
          valid = record {
            distinct = Distinct-snoc idx.order e (rw jid absent) h.distinct;
            charged =
                Each-snoc IsCharged idx.order e
                  (unfold new_job job_bytes expected_count returned in refl) h.charged;
            total = h.total ∙ omega (arith, weigh-snoc idx.order e);
          };
          there = find_entry-snoc idx.order e k ∙ rw (absent, jid, bytes_eq_refl k) refl;
          named = jid;
          pinned = refl;
          kept = λ x. ground (arith, x, find_entry-snoc idx.order e idx.pinned);
        })
]

-- A settled job keeps its JID.
reweigh-IsValid :
    (idx : JobIndex) (j : Job) (el : JobEntry)
    → IsValid idx
    → find_entry idx.order j.jid ≡ some el
    → IsValid (reweigh idx j el.bytes)
unfolding reweigh
reweigh-IsValid idx j el h there =
    let v : JobEntry = record { job = j; bytes = job_bytes j } in
    record {
      distinct = Distinct-put idx.order v h.distinct;
      charged = Each-put IsCharged idx.order v refl h.charged;
      total = omega (arith, weigh-put idx.order v el there, h.total);
    }

find_entry-put_some :
    (es : List JobEntry) (v : JobEntry) (k : Bytes)
    → is_some (find_entry es k) ≡ true
    → is_some (find_entry (put_entry es v) k) ≡ true
find_entry-put_some es v k h = ground (arith, find_entry-put es v k, h, bytes_eq→eq v.job.jid k)

-- What an observation leaves.
pub record Observed (old idx : JobIndex) : Type 0 where
  pub valid : IsValid idx
  pub bounded : (over_capacity idx ≡ false) ⊎ AllPinned idx.pinned idx.order
  pub pinned : idx.pinned ≡ old.pinned
  pub kept :
      is_some (find_entry old.order old.pinned) ≡ true
      → is_some (find_entry idx.order idx.pinned) ≡ true

pub settle-Observed :
    (old : JobIndex) (k : Bytes) (j : Job)
    → IsValid old
    → j.jid ≡ k
    → Observed old (settle (touch old k).1 j (touch old k).0.bytes)
unfolding settle
settle-Observed old k j h named =
    let (el, idx) = touch old k in
    let t = touch-Touched old k h in
    let there : find_entry idx.order j.jid ≡ some el = rw named t.there in
    let w = reweigh idx j el.bytes in
    let r = evict-Evicts w (reweigh-IsValid idx j el t.valid there) in
    record {
      valid = r.valid;
      bounded = r.bounded;
      pinned = r.pinned ∙ unfold reweigh in t.pinned;
      kept = λ x.
          ap is_some r.kept
          ∙ unfold reweigh in
            find_entry-put_some idx.order (record { job = j; bytes = job_bytes j }) idx.pinned
              (t.kept x);
    }
