-- ===== src/Saltipc/Reader/Wait.antt =====
-- internal/saltipc/reader.go, `waitToRetry`: the wait ends, and keeps the outage reported as it runs.
use go_salt_events.Base.{
  Bool-cases, List, [], ap, arith, inl, inr, length, map, min, nil_of_length-le, refl, ℕ, ◌*◌, ◌+◌,
  ◌-◌, ◌<◌, ◌==◌, ◌∷◌, ◌≡◌, ◌≤◌,
}
use go_salt_events.Model.Event.{Event, Time}
use go_salt_events.Saltipc.Frame.{Frame}
use go_salt_events.Saltipc.Reader.{
  Reader, dialling, gap, gap_refresh, max_backoff, run, slept, wait_round, waiting,
}

-- A reader that is told to sleep `remaining` dials again after as many firings of its timer as the
-- refresh interval goes into that, rounded up, with the backoff doubled up to its bound; and at each
-- firing it reports the one outage anew, from the time of the loss to the present.
pub run-redials :
    (build : Time → Frame → Event) (r : Reader) (remaining : ℕ) (ts : List Time)
    → 0 < remaining
    → remaining ≤ length ts * gap_refresh
    → length ts * gap_refresh < remaining + gap_refresh
    → run build (record r { phase = waiting remaining }) (map slept ts) ≡ (
      record r { phase = dialling; backoff = min (r.backoff * 2) max_backoff },
      map (gap r.lost_at) ts,
    )
unfolding run wait_round
run-redials build r remaining [] some_left enough tight = absurd (omega arith)
run-redials build r remaining (t ∷ ts) some_left enough tight =
    elim (Bool-cases (remaining - gap_refresh == 0)) [
      | inl over ↦
          let last : remaining ≤ gap_refresh = ground (arith, over) in
          rw (over, nil_of_length-le ts (omega arith)) refl
      | inr more ↦
          let left : gap_refresh < remaining = ground (arith, more) in
          rw more (
            ap (λ x. (x.0, gap r.lost_at t ∷ x.1))
              (run-redials build r (remaining - gap_refresh) ts (omega arith) (omega arith)
                (omega arith)))
    ]
