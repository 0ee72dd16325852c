-- ===== src/Model/Job/Counters.antt =====
-- internal/model/job.go: the counters that are kept as events come, against the maps.
use go_salt_events.Base.{
  Bytes, List, [], arith, bytes_eq, bytes_eq_iff, false, if◌then◌else◌, length, not, refl, some, ℕ,
  ◌&&◌, ◌+◌, ◌∷◌, ◌≡◌, ◌≤◌,
}
use go_salt_events.Model.Job.{
  Job, RetInfo, add_expected, add_return, find_ret, is_failed, is_some, new_job, not_returned,
  prev_failed, put_ret, targets,
}

-- How many returns failed.
abbrev pub failures : List RetInfo → ℕ
failures [] = 0
failures (r ∷ rs) = (if is_failed r then 1 else 0) + failures rs

-- The counters say what the maps hold.
pub record Matches (j : Job) : Type 0 where
  pub failed : j.failed ≡ failures j.returns
  pub missing : j.missing ≡ length (not_returned j.returns j.expected)

-- Replacing a return moves the failures by what the old and the new one are.
failures-put_ret :
    (rs : List RetInfo) (r : RetInfo)
    → failures (put_ret rs r) + (if prev_failed (find_ret rs r.minion) then 1 else 0)
      ≡ failures rs + (if is_failed r then 1 else 0)
unfolding put_ret find_ret
failures-put_ret [] r = ground arith
failures-put_ret (q ∷ rs) r = ground (arith, failures-put_ret rs r)

failures-found :
    (rs : List RetInfo) (m : Bytes) → (if prev_failed (find_ret rs m) then 1 else 0) ≤ failures rs
unfolding find_ret
failures-found [] m = omega arith
failures-found (q ∷ rs) m = ground (arith, failures-found rs m)

pub find_ret-put_ret :
    (rs : List RetInfo) (r : RetInfo) (m : Bytes)
    → find_ret (put_ret rs r) m ≡ (if bytes_eq r.minion m then some r else find_ret rs m)
unfolding put_ret find_ret
find_ret-put_ret [] r m = refl
find_ret-put_ret (q ∷ rs) r m = ground (
  arith,
  bytes_eq_iff q.minion r.minion,
  bytes_eq_iff q.minion m,
  bytes_eq_iff r.minion m,
  find_ret-put_ret rs r m,
)

add_expected-Matches : (j : Job) (m : Bytes) → Matches j → Matches (add_expected j m)
unfolding add_expected not_returned
add_expected-Matches j m h = ground arith

-- No minion stands twice in the list.
abbrev pub Distinct : List Bytes → Type 0
Distinct [] = Unit {0}
Distinct (m ∷ ms) = (targets ms m ≡ false) × Distinct ms

not_returned-put_ret :
    (rs : List RetInfo) (r : RetInfo) (ms : List Bytes)
    → Distinct ms
    → length (not_returned rs ms)
      ≡ length (not_returned (put_ret rs r) ms)
        + (if not (is_some (find_ret rs r.minion)) && targets ms r.minion then 1 else 0)
unfolding not_returned targets
not_returned-put_ret rs r [] d = ground arith
not_returned-put_ret rs r (m ∷ ms) d = ground (
  arith,
  not_returned-put_ret rs r ms,
  find_ret-put_ret rs r m,
  bytes_eq_iff m r.minion,
  bytes_eq_iff r.minion m,
)

-- What `add_expected` and `add_return` keep: the counters match the maps, and no key of the expected
-- set is there twice.
pub record IsValid (j : Job) : Type 0 where
  pub matches : Matches j
  pub distinct : Distinct j.expected

pub add_expected-IsValid : (j : Job) (m : Bytes) → IsValid j → IsValid (add_expected j m)
add_expected-IsValid j m h = record {
  matches = add_expected-Matches j m h.matches;
  distinct = unfold add_expected in ground (arith, h.distinct);
}

add_return-Matches : (j : Job) (r : RetInfo) → IsValid j → Matches (add_return j r)
unfolding add_return
add_return-Matches j r h = ground (
  arith,
  failures-put_ret j.returns r,
  failures-found j.returns r.minion,
  not_returned-put_ret j.returns r j.expected,
  h.matches,
  h.distinct,
)

pub add_return-IsValid : (j : Job) (r : RetInfo) → IsValid j → IsValid (add_return j r)
add_return-IsValid j r h = record {
  matches = add_return-Matches j r h;
  distinct = unfold add_return in h.distinct;
}

-- A call that changes a job.
pub data Call : Type 0 where
  expect : Bytes → Call
  return : RetInfo → Call

unfoldable pub apply : Job → Call → Job
apply j (expect m) = add_expected j m
apply j (return r) = add_return j r

unfoldable pub run : Job → List Call → Job
unfolding apply
run j [] = j
run j (c ∷ cs) = run (apply j c) cs

run-IsValid : (j : Job) (cs : List Call) → IsValid j → IsValid (run j cs)
unfolding run
run-IsValid j [] h = h
run-IsValid j (expect m ∷ cs) h = run-IsValid (add_expected j m) cs (add_expected-IsValid j m h)
run-IsValid j (return r ∷ cs) h = run-IsValid (add_return j r) cs (add_return-IsValid j r h)

new_job-IsValid : (jid : Bytes) → IsValid (new_job jid)
unfolding new_job not_returned
new_job-IsValid jid = record { matches = record { failed = refl; missing = refl }; distinct = tt }

-- The counters cannot drift: after any expected minions and returns, in any order and with any
-- repeats, `failed` is the number of recorded failures, `missing` is the number of expected minions
-- without a return, and no minion is expected twice.
pub run-counters : (jid : Bytes) (cs : List Call) → IsValid (run (new_job jid) cs)
run-counters jid cs = run-IsValid (new_job jid) cs (new_job-IsValid jid)
