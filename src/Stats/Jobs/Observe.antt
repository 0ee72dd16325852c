-- ===== src/Stats/Jobs/Observe.antt =====
-- internal/stats/jobs.go: `Observe` keeps the accounting, the bounds and the pinned job.
use go_salt_events.Stats.Jobs.Ingest.{
  expect_all, is_empty, learn_expected, observe, observe_new, observe_ret, publish, record_return,
}
use go_salt_events.Stats.Jobs.Victim.{AllPinned}
use go_salt_events.Base.{
  Bool, Bool-cases, Bytes, List, Option, [], arith, either_way, false, inl, inr, none, not, refl,
  some, true, ℤ, ◌&&◌, ◌∙◌, ◌∷◌, ◌≡◌, ◌⊎◌,
}
use go_salt_events.Model.Event.{Event, Kind}
use go_salt_events.Model.Job.{Job, add_expected, add_return, is_some}
use go_salt_events.Stats.Jobs.{
  JobIndex, find_entry, new_job_index, over_capacity, pin, touch, unpin,
}
use go_salt_events.Stats.Jobs.Valid.{IsValid, Observed, settle-Observed, touch-Touched}

expect_all-jid : (j : Job) (ms : List Bytes) → (expect_all j ms).jid ≡ j.jid
unfolding expect_all
expect_all-jid j [] = refl
expect_all-jid j (m ∷ ms) =
    expect_all-jid (add_expected j m) ms ∙ unfold add_expected in ground arith

publish-jid :
    (j : Job) (e : Event) (expected : Option (List Bytes)) (is_trimmed : Bool)
    → (publish j e expected is_trimmed).jid ≡ j.jid
unfolding publish learn_expected
publish-jid j e none is_trimmed = ground arith
publish-jid j e (some ms) is_trimmed =
    either_way (λ (x : Job). x.jid ≡ j.jid) _ refl (expect_all-jid _ ms)

record_return-jid : (j : Job) (e : Event) → (record_return j e).jid ≡ j.jid
unfolding record_return add_return
record_return-jid j e = refl

-- An event that is folded in: a publication with a JID, or a return with a JID and a minion.
abbrev pub is_counted : Event → Bool
is_counted e = elim e.kind [
  | Kind.new ↦ not (is_empty e.jid)
  | Kind.ret ↦ not (is_empty e.jid) && not (is_empty e.minion)
  | _ ↦ false
]

observe_new-Observed :
    (idx : JobIndex) (e : Event) (expected : Option (List Bytes)) (is_trimmed : Bool)
    → IsValid idx
    → is_empty e.jid ≡ false
    → Observed idx (observe_new idx e expected is_trimmed)
unfolding observe_new
observe_new-Observed idx e expected is_trimmed h named =
    rw (observe_new, named)
      (let el = (touch idx e.jid).0 in
        settle-Observed idx e.jid (publish el.job e expected is_trimmed) h
          (publish-jid el.job e expected is_trimmed ∙ (touch-Touched idx e.jid h).named))

observe_ret-Observed :
    (idx : JobIndex) (e : Event)
    → IsValid idx
    → is_empty e.jid ≡ false
    → is_empty e.minion ≡ false
    → Observed idx (observe_ret idx e)
unfolding observe_ret
observe_ret-Observed idx e h named by_minion =
    rw (observe_ret, named, by_minion)
      (let el = (touch idx e.jid).0 in
        settle-Observed idx e.jid (record_return el.job e) h
          (record_return-jid el.job e ∙ (touch-Touched idx e.jid h).named))

observe-by_kind :
    (k : Kind) (idx : JobIndex) (e : Event) (expected : Option (List Bytes)) (is_trimmed : Bool)
    → e.kind ≡ k
    → IsValid idx
    → is_counted e ≡ true
    → Observed idx (observe idx e expected is_trimmed)
unfolding observe observe_new
observe-by_kind Kind.new idx e expected is_trimmed eq h counts =
    rw (observe, eq) (observe_new-Observed idx e expected is_trimmed h (ground (arith, counts, eq)))
observe-by_kind Kind.ret idx e expected is_trimmed eq h counts =
    rw (observe, eq)
      (observe_ret-Observed idx e h (ground (arith, counts, eq)) (ground (arith, counts, eq)))
observe-by_kind Kind.other idx e expected is_trimmed eq h counts = ground (arith, counts, eq)
observe-by_kind Kind.prog idx e expected is_trimmed eq h counts = ground (arith, counts, eq)
observe-by_kind Kind.start idx e expected is_trimmed eq h counts = ground (arith, counts, eq)
observe-by_kind Kind.auth idx e expected is_trimmed eq h counts = ground (arith, counts, eq)
observe-by_kind Kind.key idx e expected is_trimmed eq h counts = ground (arith, counts, eq)
observe-by_kind Kind.presence idx e expected is_trimmed eq h counts = ground (arith, counts, eq)

-- An event that is not folded in changes nothing.
observe-ignores :
    (idx : JobIndex) (e : Event) (expected : Option (List Bytes)) (is_trimmed : Bool)
    → is_counted e ≡ false
    → observe idx e expected is_trimmed ≡ idx
unfolding observe observe_new observe_ret
observe-ignores idx e expected is_trimmed counts = ground (arith, counts)

-- After any event that is folded in, the index fits its cap on jobs and its memory ceiling, or every
-- job left in it is pinned.
pub observe-bounded :
    (idx : JobIndex) (e : Event) (expected : Option (List Bytes)) (is_trimmed : Bool)
    → IsValid idx
    → is_counted e ≡ true
    → let after = observe idx e expected is_trimmed in
      (over_capacity after ≡ false) ⊎ AllPinned after.pinned after.order
observe-bounded idx e expected is_trimmed h counts =
    (observe-by_kind e.kind idx e expected is_trimmed refl h counts).bounded

-- No event moves the pin, and none evicts the pinned job.
pub observe-keeps_pinned :
    (idx : JobIndex) (e : Event) (expected : Option (List Bytes)) (is_trimmed : Bool)
    → IsValid idx
    → is_some (find_entry idx.order idx.pinned) ≡ true
    → let after = observe idx e expected is_trimmed in
      (after.pinned ≡ idx.pinned) × (is_some (find_entry after.order after.pinned) ≡ true)
observe-keeps_pinned idx e expected is_trimmed h there = elim (Bool-cases (is_counted e)) [
  | inl counts ↦
      let r = observe-by_kind e.kind idx e expected is_trimmed refl h counts in
      (r.pinned, r.kept there)
  | inr skips ↦ rw (observe-ignores idx e expected is_trimmed skips) (refl, there)
]

-- A call that changes the index.
pub data Call : Type 0 where
  seen : Event → Option (List Bytes) → Bool → Call
  pin_to : Bytes → Call
  unpin_all : Call

unfoldable pub apply : JobIndex → Call → JobIndex
apply idx (seen e expected is_trimmed) = observe idx e expected is_trimmed
apply idx (pin_to k) = pin idx k
apply idx unpin_all = unpin idx

unfoldable pub run : JobIndex → List Call → JobIndex
unfolding apply
run idx [] = idx
run idx (c ∷ cs) = run (apply idx c) cs

pub observe-IsValid :
    (idx : JobIndex) (e : Event) (expected : Option (List Bytes)) (is_trimmed : Bool)
    → IsValid idx
    → IsValid (observe idx e expected is_trimmed)
observe-IsValid idx e expected is_trimmed h = elim (Bool-cases (is_counted e)) [
  | inl counts ↦ (observe-by_kind e.kind idx e expected is_trimmed refl h counts).valid
  | inr skips ↦ rw (observe-ignores idx e expected is_trimmed skips) h
]

run-IsValid : (idx : JobIndex) (cs : List Call) → IsValid idx → IsValid (run idx cs)
unfolding run pin unpin
run-IsValid idx [] h = h
run-IsValid idx (seen e x t ∷ cs) h =
    run-IsValid (observe idx e x t) cs (observe-IsValid idx e x t h)
run-IsValid idx (pin_to k ∷ cs) h =
    run-IsValid (pin idx k) cs
      (record { distinct = h.distinct; charged = h.charged; total = h.total })
run-IsValid idx (unpin_all ∷ cs) h =
    run-IsValid (unpin idx) cs
      (record { distinct = h.distinct; charged = h.charged; total = h.total })

-- The memory accounting cannot drift: after any observations, pins and unpins, with any repeated
-- returns and evictions, no job is in the index twice, each is charged exactly what it weighs now,
-- and the total is the sum of the charges.
pub run-accounts :
    (max_jobs mem_ceiling : ℤ) (cs : List Call)
    → IsValid (run (new_job_index max_jobs mem_ceiling) cs)
run-accounts max_jobs mem_ceiling cs =
    run-IsValid (new_job_index max_jobs mem_ceiling) cs
      (unfold new_job_index in record { distinct = tt; charged = tt; total = refl })
