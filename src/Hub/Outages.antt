-- ===== src/Hub/Outages.antt =====
-- internal/saltipc/reader.go, cmd/salt-events/hub.go and internal/stats/rings.go together: an outage shows
-- while it lasts.
use go_salt_events.Base.{
  Bool, Bool-cases, Bytes, List, Option, Option-cases, [], append_assoc, arith, if◌then◌else◌, inl,
  inr, not, refl, subst, sym, ℕ, ℤ, ◌++◌, ◌+◌, ◌-◌, ◌||◌, ◌∷◌, ◌≡◌, ◌≤◌,
}
use go_salt_events.Model.Event.{Time}
use go_salt_events.Saltipc.Frame.{FrameError, fails, got}
use go_salt_events.Saltipc.Codec.{Decoder}
use go_salt_events.Saltipc.Value.{Value}
use go_salt_events.Saltipc.Reader.{
  Call, DialError, Input, Phase, Reader, attach, cancelled, decode_error, dial, dialled, dialling,
  ends_stream, gap, gap_refresh, is_not_pub, lose, new_reader, read, reading, refused, run, slept,
  step, step_at, wait_round, waiting,
}
use go_salt_events.Saltipc.Reader.Build.{build, build_event}
use go_salt_events.Stats.Rings.{gap_validity, mark_gap, new_rings, sync_to_now}
use go_salt_events.Stats.Rings.Gaps.{NotQuiet}
use go_salt_events.Stats.Rings.Outage.{head_second, outage-NotQuiet}
use go_salt_events.Hub.{Hub, deliver, deliver_all, new_hub}
use go_salt_events.Hub.Current.{
  AllAt, Current, Current-later, deliver_all-Current, deliver_all-append,
}

-- The clock's reading with an input, after the reading `t`.
abbrev pub reading_of : Time → Input → Time
reading_of t cancelled = t
reading_of t (dialled _ _ now) = now
reading_of t (slept now) = now
reading_of t (read _ _ now) = now

-- A clock that does not go back, from `t` on, and its last reading.
abbrev pub Ticks : Time → List Input → Type 0
Ticks t [] = Unit {0}
Ticks t (i ∷ is) = (t ≤ reading_of t i) × Ticks (reading_of t i) is

abbrev pub last_reading : Time → List Input → Time
last_reading t [] = t
last_reading t (i ∷ is) = last_reading (reading_of t i) is

-- What a step at the time `t` makes of a reader that lost its connection before that.
record Speaks (t : Time) (out : Reader × List Call) : Type 0 where
  lost : out.0.lost_at ≤ t
  calls : AllAt t out.1

wait_round-Speaks :
    (r : Reader) (k : ℕ) (now : Time) → r.lost_at ≤ now → Speaks now (wait_round r k now)
unfolding wait_round
wait_round-Speaks r k now h = ground arith

refused-Speaks :
    (r : Reader) (err : DialError) (now : Time) → r.lost_at ≤ now → Speaks now (refused r err now)
unfolding refused
refused-Speaks r err now h = elim (Bool-cases (not r.connected || is_not_pub err)) [
  | inl stops ↦ rw stops (record { lost = h; calls = (tt, tt) })
  | inr goes_on ↦
      let w = wait_round-Speaks r r.backoff now h in
      rw goes_on (record { lost = w.lost; calls = (tt, w.calls) })
]

attach-Speaks : (r : Reader) (now : Time) → r.lost_at ≤ now → Speaks now (attach r now)
unfolding attach
attach-Speaks r now h = elim (Bool-cases r.connected) [
  | inl had ↦ rw had (record { lost = h; calls = (tt, ((h, refl), tt)) })
  | inr fresh ↦ rw fresh (record { lost = h; calls = (tt, tt) })
]

fails-Speaks :
    (r : Reader) (err : FrameError) (done : Bool) (now : Time)
    → r.lost_at ≤ now
    → Speaks now (if ends_stream err || done then lose r now else (r, decode_error err ∷ []))
unfolding lose
fails-Speaks r err done now h = elim (Bool-cases (ends_stream err || done)) [
  | inl over ↦ rw over (record { lost = omega arith; calls = (tt, tt) })
  | inr more ↦ rw more (record { lost = h; calls = (tt, tt) })
]

module _ (d : Decoder) where
  step_at-Speaks :
      (p : Phase) (r : Reader) (i : Input) (t : Time)
      → r.lost_at ≤ t
      → t ≤ reading_of t i
      → Speaks (reading_of t i) (step_at (build d) p r i)
  unfolding step_at
  step_at-Speaks dialling r (dialled resolved connects now) t h le =
      elim (Option-cases (dial resolved connects)) [
        | inl free ↦ rw (step_at, free) (attach-Speaks r now (omega arith))
        | inr (err, bad) ↦ rw (step_at, bad) (refused-Speaks r err now (omega arith))
      ]
  step_at-Speaks (waiting k) r (slept now) t h le =
      wait_round-Speaks r (k - gap_refresh) now (omega arith)
  step_at-Speaks reading r (read (got f) done now) t h le = record {
    lost = omega arith;
    calls = (unfold build build_event in refl, tt);
  }
  step_at-Speaks reading r (read (fails err) done now) t h le =
      fails-Speaks r err done now (omega arith)
  step_at-Speaks p r i t h le = record { lost = omega arith; calls = tt }

module _ (d : Decoder) (decode : Option (Bytes → Option Value)) where
  -- What a run leaves, from a clock that stood at `t`.
  record Left (t : Time) (h : Hub) (out : Reader × List Call) : Type 0 where
    lost : out.0.lost_at ≤ t
    rings : Current t (deliver_all decode h out.1).rings

  run-Left :
      (r : Reader) (h : Hub) (t : Time) (is : List Input)
      → r.lost_at ≤ t
      → Current t h.rings
      → Ticks t is
      → Left (last_reading t is) h (run (build d) r is)
  unfolding run step deliver_all
  run-Left r h t [] lost k ticks = record { lost = lost; rings = k }
  run-Left r h t (i ∷ is) lost k (le, ticks) =
      let one = step_at-Speaks d r.phase r i t lost le in
      let u = reading_of t i in
      let (r', cs) = step (build d) r i in
      let k' = deliver_all-Current decode u h cs one.calls (Current-later t u h.rings le k) in
      let rest = run-Left r' (deliver_all decode h cs) u is one.lost k' ticks in
      record {
        lost = rest.lost;
        rings =
            subst (λ x. Current (last_reading u is) x.rings)
              (sym (deliver_all-append decode h cs (run (build d) r' is).1)) rest.rings;
      }

  run_snoc :
      (r : Reader) (is : List Input) (now : Time) (k : ℕ)
      → (run (build d) r is).0.phase ≡ waiting k
      → (run (build d) r (is ++ (slept now ∷ []))).1
        ≡ (run (build d) r is).1 ++ (gap (run (build d) r is).0.lost_at now ∷ [])
  unfolding run step wait_round
  run_snoc r [] now k waits = rw waits refl
  run_snoc r (i ∷ is) now k waits =
      let (r', cs) = step (build d) r i in
      rw (run_snoc r' is now k waits) (sym (append_assoc cs _ _))

  delivered :
      (h : Hub) (from now : Time)
      → (deliver_all decode h (gap from now ∷ [])).rings ≡ mark_gap h.rings from now
  unfolding deliver_all deliver
  delivered h from now = refl

  new-Current : (max_memory max_jobs : ℤ) → Current 0 (new_hub max_memory max_jobs).rings
  unfolding new_hub new_rings
  new-Current max_memory max_jobs = record {
    full = record { secs = refl; mins = refl };
    head = omega arith;
    through = omega arith;
  }

  -- Let the clock never go back, and let a connection be lost at some point of a run from the start, so
  -- that the reader waits to dial again. Then each time the wait wakes up and is delivered to the hub,
  -- the newest second of its rings is never a quiet master's zero, at any time until `gap_validity`
  -- later: it has events or reads as a gap.
  pub outage_visible :
      (max_memory max_jobs : ℤ) (is : List Input) (k : ℕ) (now read_at : Time)
      → Ticks 0 is
      → last_reading 0 is ≤ now
      → (run (build d) new_reader is).0.phase ≡ waiting k
      → now ≤ read_at
      → read_at ≤ now + gap_validity
      → let (_, calls) = run (build d) new_reader (is ++ (slept now ∷ [])) in
        let h = deliver_all decode (new_hub max_memory max_jobs) calls in
        NotQuiet (head_second (sync_to_now h.rings read_at))
  outage_visible max_memory max_jobs is k now read_at ticks le waits later within =
      let h0 = new_hub max_memory max_jobs in
      let (r', cs) = run (build d) new_reader is in
      let l =
        run-Left new_reader h0 0 is (unfold new_reader in omega arith)
          (new-Current max_memory max_jobs) ticks in
      let c = Current-later (last_reading 0 is) now (deliver_all decode h0 cs).rings le l.rings in
      rw
        (
          run_snoc new_reader is now k waits,
          deliver_all-append decode h0 cs (gap r'.lost_at now ∷ []),
          delivered (deliver_all decode h0 cs) r'.lost_at now,
        )
        (outage-NotQuiet (deliver_all decode h0 cs).rings r'.lost_at now read_at c.full c.head
          c.through (omega (arith, l.lost)) later within)
