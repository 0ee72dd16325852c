-- ===== src/Samples/JobRuns.antt =====
-- internal/model: one job of two minions.
use go_salt_events.Base.{
  Bytes, List, [], bytes_eq, codes, length, pos, refl, true, ℕ, ◌↔◌, ◌∷◌, ◌≡◌,
}
use go_salt_events.Model.Job.{
  Job, RetInfo, add_expected, add_return, complete, find_ret, is_failed, known, new_job, put_ret,
  targets,
}
use go_salt_events.Model.Job.Counters.{Call, IsValid, apply, expect, return, run, run-counters}
use go_salt_events.Model.Job.Answers.{AllReturned, complete_iff}

abbrev ret_of : Bytes → ℕ → RetInfo
ret_of m code = record { minion = m; ret_code = pos code; success = true; arrival = 7 }

abbrev pub calls : List Call
calls =
    expect (codes "a")
    ∷ expect (codes "b")
    ∷ return (ret_of (codes "a") 1)
    ∷ return (ret_of (codes "a") 0)
    ∷ []

abbrev job : Job
job = run (new_job (codes "1")) calls

one_missing : (job.failed ≡ 0) × (job.missing ≡ 1) × (length job.returns ≡ 1)
unfolding run apply new_job add_expected add_return targets find_ret put_ret is_failed bytes_eq
one_missing = (refl, refl, refl)

run-counters_example : IsValid (run (new_job (codes "1")) calls)
run-counters_example = run-counters (codes "1") calls

complete_iff_example :
    (complete job ≡ true) ↔ ((job.expected_state ≡ known) × AllReturned job.returns job.expected)
complete_iff_example = complete_iff job (run-counters (codes "1") calls)
