-- ===== src/Ui/Jobs/Rows.antt =====
-- internal/ui/jobs/jobs.go: the rows of the drill-down against its tallies, and the durations.
use go_salt_events.Base.{
  Bool, Bytes, List, Option, [], arith, bytes_ltb, if◌then◌else◌, insert_sorted, length,
  length-append, length-map, length-sort, none, refl, some, sort, ℕ, ◌++◌, ◌+◌, ◌∷◌, ◌≡◌, ◌≤◌,
}
use go_salt_events.Model.Event.{Time}
use go_salt_events.Model.Job.{Job, JobRow, RetInfo, is_failed, missing_minions, row, sorted_returns}
use go_salt_events.Model.Job.Counters.{IsValid, failures}
use go_salt_events.Ui.Jobs.{
  all_rows, counts, elapsed, failed_only, missing_only, missing_rows, needs_attention, rows,
  split_returns, tally, waiting_rows,
}

failures-insert_sorted :
    (less : RetInfo → RetInfo → Bool) (r : RetInfo) (rs : List RetInfo)
    → failures (insert_sorted less r rs) ≡ (if is_failed r then 1 else 0) + failures rs
unfolding insert_sorted
failures-insert_sorted less r [] = refl
failures-insert_sorted less r (q ∷ rs) = ground (arith, failures-insert_sorted less r rs)

failures-sort :
    (less : RetInfo → RetInfo → Bool) (rs : List RetInfo) → failures (sort less rs) ≡ failures rs
unfolding sort
failures-sort less [] = refl
failures-sort less (r ∷ rs) =
    omega (arith, failures-insert_sorted less r (sort less rs), failures-sort less rs)

split_returns-lengths :
    (rs : List RetInfo)
    → let (bad, good) = split_returns rs in
      (length bad ≡ failures rs) × (length good + failures rs ≡ length rs)
unfolding split_returns
split_returns-lengths [] = (refl, refl)
split_returns-lengths (r ∷ rs) = ground (arith, split_returns-lengths rs)

-- What is unknown, as a number.
abbrev pub or_zero : Option ℕ → ℕ
or_zero none = 0
or_zero (some n) = n

waiting_rows-length :
    (since : Option ℕ) (ms : Option (List Bytes))
    → length (waiting_rows since ms) ≡ or_zero (tally ms)
unfolding waiting_rows
waiting_rows-length since none = refl
waiting_rows-length since (some ms) = length-map ms _

-- In each view there are as many rows as the tallies of the job add up to: the tally of the missing is
-- either a number of rows or unknown, and then there are none.
pub rows-counts :
    (job : Job) (now : Time)
    → IsValid job
    → let (failed, missing, ok) = counts job in
      (length (rows failed_only job now) ≡ failed)
      × (length (rows missing_only job now) ≡ or_zero missing)
      × (length (rows needs_attention job now) ≡ failed + or_zero missing)
      × (length (rows all_rows job now) ≡ failed + or_zero missing + ok)
unfolding rows counts missing_rows
rows-counts job now valid =
    let sorted = sorted_returns job in
    let (bad, good) = split_returns-lengths sorted in
    let fails : failures sorted ≡ failures job.returns =
      unfold sorted_returns in failures-sort (λ a b. bytes_ltb a.minion b.minion) job.returns in
    let all : length sorted ≡ length job.returns =
      unfold sorted_returns in length-sort (λ a b. bytes_ltb a.minion b.minion) job.returns in
    let waits = waiting_rows-length (elapsed (row job) now) (missing_minions job) in
    let (failed_rows, ok_rows) = split_returns sorted in
    let waiting = missing_rows job now in
    let failed : length failed_rows ≡ job.failed =
      omega (arith, bad, fails, valid.matches.failed) in
    (
      failed,
      waits,
      omega (arith, failed, waits, length-append failed_rows waiting),
      omega (
        arith,
        failed,
        waits,
        bad,
        good,
        fails,
        all,
        valid.matches.failed,
        length-append (failed_rows ++ waiting) ok_rows,
        length-append failed_rows waiting,
      ),
    )

-- The duration of a job that is complete does not depend on when it is looked at; that of another does
-- not shrink as time goes on.
pub elapsed_by_state :
    (j : JobRow) (s t : Time)
    → s ≤ t
    → (if j.complete
        then (elapsed j s ≡ elapsed j t)
        else (or_zero (elapsed j s) ≤ or_zero (elapsed j t)))
unfolding elapsed
elapsed_by_state j s t le = ground arith
