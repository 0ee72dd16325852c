-- ===== src/Model/Job/Answers.antt =====
-- internal/model/job.go: what a job answers about completeness and about single minions.
use go_salt_events.Base.{
  Bool-cases, Bytes, List, Option, [], arith, bytes_eq, if◌then◌else◌, inl, inr, length, none, refl,
  some, true, ◌↔◌, ◌∷◌, ◌≡◌,
}
use go_salt_events.Model.Job.{Job, RetInfo, complete, find_ret, is_some, known, not_returned}
use go_salt_events.Model.Job.Counters.{Call, IsValid, expect, return}

-- Every one of the minions has a return.
abbrev pub AllReturned : List RetInfo → List Bytes → Type 0
AllReturned rs [] = Unit {0}
AllReturned rs (m ∷ ms) = (is_some (find_ret rs m) ≡ true) × AllReturned rs ms

not_returned-empty :
    (rs : List RetInfo) (ms : List Bytes) → (length (not_returned rs ms) ≡ 0) ↔ AllReturned rs ms
unfolding not_returned
not_returned-empty rs [] = (λ _. tt, λ _. refl)
not_returned-empty rs (m ∷ ms) = elim (Bool-cases (is_some (find_ret rs m))) [
  | inl e ↦ (
    λ h. (e, (not_returned-empty rs ms).0 (rw e at h)),
    λ h. rw e ((not_returned-empty rs ms).1 h.1),
  )
  | inr e ↦ (λ h. absurd (ground arith), λ h. absurd (ground arith))
]

complete-parts : (j : Job) → (complete j ≡ true) ↔ ((j.expected_state ≡ known) × (j.missing ≡ 0))
unfolding complete
complete-parts j = (λ h. ground arith, λ h. ground arith)

-- A job is complete exactly when its expected set is known and each of its minions has returned; an
-- unknown set is never complete.
pub complete_iff :
    (j : Job)
    → IsValid j
    → (complete j ≡ true) ↔ ((j.expected_state ≡ known) × AllReturned j.returns j.expected)
complete_iff j v =
    let all = not_returned-empty j.returns j.expected in
    (
      λ h.
          let (state, none_missing) = (complete-parts j).0 h in
          (state, all.0 (omega (arith, v.matches.missing))),
      λ h. (complete-parts j).1 (h.0, omega (arith, v.matches.missing, all.1 h.1)),
    )

-- The last return of a minion among the calls.
abbrev pub last_return : List Call → Bytes → Option RetInfo
last_return [] m = none
last_return (expect _ ∷ cs) m = last_return cs m
last_return (return r ∷ cs) m = elim (last_return cs m) [
  | some q ↦ some q
  | none ↦ if bytes_eq r.minion m then some r else none
]

-- How the calls change what is recorded for a minion.
abbrev or_else : Option RetInfo → Option RetInfo → Option RetInfo
or_else none b = b
or_else (some q) b = some q
