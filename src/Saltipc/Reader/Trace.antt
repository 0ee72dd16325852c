-- ===== src/Saltipc/Reader/Trace.antt =====
-- internal/saltipc/reader.go: what the calls on the sink say over a whole run.
use go_salt_events.Base.{
  Bool, Bool-cases, List, Option-cases, [], ap, arith, false, inl, inr, none, not, refl, some,
  subst, true, ℕ, ◌++◌, ◌-◌, ◌<◌, ◌==◌, ◌||◌, ◌∙◌, ◌∷◌, ◌≡◌, ◌≤◌, ◌⊎◌,
}
use go_salt_events.Model.Event.{Event, Time}
use go_salt_events.Saltipc.Frame.{Frame, fails, got}
use go_salt_events.Saltipc.Reader.{
  Call, DialError, Input, Phase, Reader, attached, cancelled, decode_error, dial, dialled, dialling,
  ends_stream, event, gap, gap_refresh, is_not_pub, lose, max_backoff, min_backoff, new_reader,
  read, reading, refused, returned, run, slept, step, step_at, wait_round, waiting,
}

abbrev pub is_reading : Phase → Bool
is_reading dialling = false
is_reading (waiting _) = false
is_reading reading = true
is_reading (returned _) = false

-- What a sink that keeps the last `Attached` believes, after the calls of a list.
abbrev pub level : Bool → List Call → Bool
level b [] = b
level b (attached a ∷ cs) = level a cs
level b (event _ ∷ cs) = level b cs
level b (gap _ _ ∷ cs) = level b cs
level b (decode_error _ ∷ cs) = level b cs

level-append : (b : Bool) (cs ds : List Call) → level b (cs ++ ds) ≡ level (level b cs) ds
level-append b [] ds = refl
level-append b (attached a ∷ cs) ds = level-append a cs ds
level-append b (event _ ∷ cs) ds = level-append b cs ds
level-append b (gap _ _ ∷ cs) ds = level-append b cs ds
level-append b (decode_error _ ∷ cs) ds = level-append b cs ds

module _ (build : Time → Frame → Event) where
  step_at-level :
      (p : Phase) (r : Reader) (i : Input)
      → r.phase ≡ p
      → level (is_reading p) (step_at build p r i).1 ≡ is_reading (step_at build p r i).0.phase
  unfolding step_at wait_round
  step_at-level dialling r cancelled e = refl
  step_at-level dialling r (dialled resolved connects now) e =
      elim (Option-cases (dial resolved connects)) [
        | inl free ↦ rw (step_at, free) (ground arith)
        | inr (err, bad) ↦ rw (step_at, bad) (ground arith)
      ]
  step_at-level dialling r (slept now) e = ground (arith, e)
  step_at-level dialling r (read outcome done now) e = ground (arith, e)
  step_at-level (waiting k) r (slept now) e = ground arith
  step_at-level reading r (read (got f) done now) e = ground (arith, e)
  step_at-level reading r (read (fails err) done now) e = ground (arith, e)
  step_at-level p r i e = ground (arith, e)

  run-level :
      (r : Reader) (is : List Input)
      → level (is_reading r.phase) (run build r is).1 ≡ is_reading (run build r is).0.phase
  unfolding run step
  run-level r [] = refl
  run-level r (i ∷ is) =
      level-append (is_reading r.phase) (step build r i).1 (run build (step build r i).0 is).1
      ∙ ap (λ b. level b (run build (step build r i).0 is).1) (step_at-level r.phase r i refl)
      ∙ run-level (step build r i).0 is

  -- Connectedness is the socket's: whatever the world answers, after any run a sink that keeps the last
  -- `Attached` holds true exactly when the reader stands in `consume`, with the socket open.
  pub run_new-level :
      (is : List Input)
      → level false (run build new_reader is).1 ≡ is_reading (run build new_reader is).0.phase
  unfolding new_reader
  run_new-level is = run-level new_reader is

-- What a reader never breaks: the backoff stays within its bounds; while it waits there is time left, no
-- more than the bound; it waits only for a connection that it had; and if it returned an error, either
-- it never had a connection, or the path is not the publish socket.
abbrev pub PhaseOk : Phase → Bool → Type 0
PhaseOk dialling had = Unit {0}
PhaseOk (waiting k) had = (had ≡ true) × (0 < k) × (k ≤ max_backoff)
PhaseOk reading had = had ≡ true
PhaseOk (returned none) had = Unit {0}
PhaseOk (returned (some err)) had = (had ≡ false) ⊎ (is_not_pub err ≡ true)

pub record IsValid (r : Reader) : Type 0 where
  pub low : min_backoff ≤ r.backoff
  pub high : r.backoff ≤ max_backoff
  pub phase_ok : PhaseOk r.phase r.connected

wait_round-IsValid :
    (r : Reader) (k : ℕ) (now : Time)
    → min_backoff ≤ r.backoff
    → r.backoff ≤ max_backoff
    → r.connected ≡ true
    → k ≤ max_backoff
    → IsValid (wait_round r k now).0
unfolding wait_round
wait_round-IsValid r k now low high had le = elim (Bool-cases (k == 0)) [
  | inl over ↦ rw over (record { low = omega arith; high = omega arith; phase_ok = tt })
  | inr more ↦
      rw more (record { low = low; high = high; phase_ok = (had, ground (arith, more), le) })
]

refused-IsValid :
    (r : Reader) (err : DialError) (now : Time) → IsValid r → IsValid (refused r err now).0
unfolding refused
refused-IsValid r err now h = elim (Bool-cases (not r.connected || is_not_pub err)) [
  | inl stops ↦ rw stops (record {
    low = h.low;
    high = h.high;
    phase_ok = elim (Bool-cases r.connected) [
      | inl had ↦ inr (ground (arith, had, stops))
      | inr never ↦ inl never
    ];
  })
  | inr goes_on ↦
      rw goes_on (wait_round-IsValid r r.backoff now h.low h.high (ground (arith, goes_on)) h.high)
]

module _ (build : Time → Frame → Event) where
  step_at-IsValid :
      (p : Phase) (r : Reader) (i : Input)
      → r.phase ≡ p
      → IsValid r
      → IsValid (step_at build p r i).0
  unfolding step_at
  step_at-IsValid dialling r cancelled e h = record { low = h.low; high = h.high; phase_ok = tt }
  step_at-IsValid dialling r (dialled resolved connects now) e h =
      elim (Option-cases (dial resolved connects)) [
        | inl free ↦
            rw (step_at, free) (record { low = omega arith; high = omega arith; phase_ok = refl })
        | inr (err, bad) ↦ rw (step_at, bad) (refused-IsValid r err now h)
      ]
  step_at-IsValid (waiting k) r cancelled e h = record { low = h.low; high = h.high; phase_ok = tt }
  step_at-IsValid (waiting k) r (slept now) e h =
      let ok : PhaseOk (waiting k) r.connected = subst (λ p. PhaseOk p r.connected) e h.phase_ok in
      wait_round-IsValid r (k - gap_refresh) now h.low h.high ok.0 (omega arith)
  step_at-IsValid reading r (read (got f) done now) e h = h
  step_at-IsValid reading r (read (fails err) done now) e h =
      elim (Bool-cases (ends_stream err || done)) [
        | inl over ↦
            rw (step_at, over) (unfold lose in record { low = h.low; high = h.high; phase_ok = tt })
        | inr more ↦ rw (step_at, more) h
      ]
  step_at-IsValid p r i e h = h

  run-IsValid : (r : Reader) (is : List Input) → IsValid r → IsValid (run build r is).0
  unfolding run step
  run-IsValid r [] h = h
  run-IsValid r (i ∷ is) h = run-IsValid (step build r i).0 is (step_at-IsValid r.phase r i refl h)

  -- After any run the backoff is within its bounds, a wait is for a connection that was there and is no
  -- longer than the bound, and an error is returned only by a reader that never had a connection or
  -- for a path that is not the publish socket: a master that restarts does not end the program.
  pub run_new-IsValid : (is : List Input) → IsValid (run build new_reader is).0
  run_new-IsValid is =
      run-IsValid new_reader is
        (unfold new_reader in record { low = omega arith; high = omega arith; phase_ok = tt })
