-- ===== src/Stats/Jobs/Ingest.antt =====
-- internal/stats/jobs.go: `Observe`, which folds one event into the index.
use go_salt_events.Base.{
  Bool, Bytes, List, Option, [], false, if◌then◌else◌, none, not, some, true, ◌&&◌, ◌==◌, ◌||◌, ◌∷◌,
}
use go_salt_events.Model.Event.{Event, Kind}
use go_salt_events.Model.Job.{Job, add_expected, add_return, known, trimmed}
use go_salt_events.Stats.Jobs.{JobIndex, is_known, settle, touch}

abbrev pub is_empty : Bytes → Bool
is_empty [] = true
is_empty (_ ∷ _) = false

-- The loop over the expected minions.
unfoldable pub expect_all : Job → List Bytes → Job
expect_all j [] = j
expect_all j (m ∷ ms) = expect_all (add_expected j m) ms

-- The switch of `observeNew` on what is known of the targets; `none` is the nil slice.
unfoldable pub learn_expected : Job → Option (List Bytes) → Bool → Job
unfolding expect_all
learn_expected j expected is_trimmed =
    if is_trimmed && not (is_known j.expected_state)
    then record j { expected_state = trimmed }
    else elim expected [ none ↦ j | some ms ↦ expect_all (record j { expected_state = known }) ms ]

-- What `observeNew` writes to the job.
unfoldable pub publish : Job → Event → Option (List Bytes) → Bool → Job
publish j e expected is_trimmed =
    let named = record j {
      fun = if is_empty e.fun then j.fun else e.fun;
      start = if j.start == 0 then e.arrival else j.start;
    } in
    learn_expected named expected is_trimmed

-- `observeNew`
unfoldable pub observe_new : JobIndex → Event → Option (List Bytes) → Bool → JobIndex
unfolding touch settle
observe_new idx e expected is_trimmed =
    if is_empty e.jid
    then idx
    else let (el, idx') = touch idx e.jid in
      settle idx' (publish el.job e expected is_trimmed) el.bytes

-- What `observeRet` writes to the job.
unfoldable pub record_return : Job → Event → Job
record_return j e =
    let j' = add_return j (record {
      minion = e.minion;
      ret_code = e.ret_code;
      success = e.success;
      arrival = e.arrival;
    }) in
    record j' { fun = if is_empty j'.fun then e.fun else j'.fun }

-- `observeRet`
unfoldable pub observe_ret : JobIndex → Event → JobIndex
unfolding touch settle
observe_ret idx e =
    if is_empty e.jid || is_empty e.minion
    then idx
    else let (el, idx') = touch idx e.jid in settle idx' (record_return el.job e) el.bytes

-- `Observe`
unfoldable pub observe : JobIndex → Event → Option (List Bytes) → Bool → JobIndex
unfolding observe_new observe_ret
observe idx e expected is_trimmed = elim e.kind [
  | Kind.new ↦ observe_new idx e expected is_trimmed
  | Kind.ret ↦ observe_ret idx e
  | _ ↦ idx
]
