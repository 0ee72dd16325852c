-- ===== src/Ui/Jobs.antt =====
-- internal/ui/jobs/jobs.go: the list of jobs, and one job's minions.
pub mod Rows
pub mod Scroll
use go_salt_events.Base.{
  Bytes, List, Option, [], codes, get_elem?, if◌then◌else◌, length, ltb, map, max, min, none, not,
  slice, some, ℕ, ℤ, ◌&&◌, ◌++◌, ◌+◌, ◌-◌, ◌==◌, ◌∷◌,
}
use go_salt_events.Model.Event.{Time}
use go_salt_events.Model.Job.{
  Job, JobRow, RetInfo, is_failed, known, missing_minions, row, row_expected_count, sorted_returns,
  trimmed, unseen,
}
use go_salt_events.Stats.Jobs.{Lookup}
use go_salt_events.Stats.Jobs.Ingest.{is_empty}
use go_salt_events.Ui.Messages.{
  Cmd, Frame, Key, has_not_returned, is_key, notice_msg, one_of, open_job_return_msg, send,
}

-- `view`, in the order of the `f` key.
pub data View : Type 0 where
  needs_attention failed_only missing_only all_rows : View

-- `(view + 1) % viewCount`
unfoldable pub next_view : View → View
next_view needs_attention = failed_only
next_view failed_only = missing_only
next_view missing_only = all_rows
next_view all_rows = needs_attention

-- `rowState`
pub data RowState : Type 0 where
  failed_row missing_row ok_row : RowState

-- `duration` up to its formatting: the nanoseconds, or none for a job with no start.
unfoldable pub elapsed : JobRow → Time → Option ℕ
elapsed j now =
    if j.start == 0
    then none
    else (let stop =
          if not j.complete && (not (now == 0) && ltb j.last_ret now) then now else j.last_ret in
        some ((if stop == 0 then j.start else stop) - j.start))

-- What a row's note says: nothing, a retcode, or the wait so far.
pub data Note : Type 0 where
  blank : Note
  retcode : ℤ → Note
  no_return_after : Option ℕ → Note

-- `row`
pub record Row : Type 0 where
  pub minion : Bytes
  pub state : RowState
  pub note : Note

-- The loop of `rows` over the returns: the failed rows and the others.
unfoldable pub split_returns : List RetInfo → List Row × List Row
split_returns [] = ([], [])
split_returns (r ∷ rs) =
    let (bad, good) = split_returns rs in
    if is_failed r
    then (record { minion = r.minion; state = failed_row; note = retcode r.ret_code } ∷ bad, good)
    else (bad, record { minion = r.minion; state = ok_row; note = blank } ∷ good)

-- The rows of the missing minions, when `Missing` knows them.
unfoldable pub waiting_rows : Option ℕ → Option (List Bytes) → List Row
waiting_rows since none = []
waiting_rows since (some ms) =
    map (λ m. record { minion = m; state = missing_row; note = no_return_after since }) ms

unfoldable pub missing_rows : Job → Time → List Row
unfolding waiting_rows
missing_rows job now = waiting_rows (elapsed (row job) now) (missing_minions job)

-- `rows`
unfoldable pub rows : View → Job → Time → List Row
unfolding split_returns missing_rows
rows v job now =
    let (bad, good) = split_returns (sorted_returns job) in
    let waiting = missing_rows job now in
    elim v [
      | failed_only ↦ bad
      | missing_only ↦ waiting
      | all_rows ↦ bad ++ waiting ++ good
      | needs_attention ↦ bad ++ waiting
    ]

-- `Pane`; `drilled` is empty while the list is showing.
pub record JobsPane : Type 0 where
  pub cursor : ℕ
  pub drilled : Bytes
  pub view : View
  pub row : ℕ

-- `New`
abbrev pub new_jobs : JobsPane
new_jobs = record { cursor = 0; drilled = []; view = needs_attention; row = 0 }

-- The end of `openRow`, for the rows of the view.
unfoldable pub open_selected_row : JobsPane → List Row → Option Cmd
open_selected_row p all = elim (get_elem? all (min p.row (length all - 1))) [
  | none ↦ none
  | some sel ↦ elim sel.state [
    | missing_row ↦ some (send (notice_msg (has_not_returned sel.minion p.drilled)))
    | failed_row ↦ some (send (open_job_return_msg p.drilled sel.minion))
    | ok_row ↦ some (send (open_job_return_msg p.drilled sel.minion))
  ]
]

-- `job, lookup := s.JobLookup(p.drilled)`, with the lookup there and its answer `LookupFound`.
unfoldable pub drilled_job : JobsPane → Frame → Option Job
drilled_job p s = elim s.job_lookup [
  | none ↦ none
  | some look ↦
      let (job, answer) = look p.drilled in
      elim answer [ Lookup.found ↦ job | Lookup.not_seen ↦ none | Lookup.was_evicted ↦ none ]
]

-- `openRow`
unfoldable pub open_row : JobsPane → Frame → Option Cmd
unfolding open_selected_row drilled_job
open_row p s = elim (drilled_job p s) [
  | none ↦ none
  | some job ↦ open_selected_row p (rows p.view job s.now)
]

-- `updateDrilled`
unfoldable pub drilled_key : JobsPane → Key → Frame → JobsPane × Option Cmd
unfolding open_row next_view
drilled_key p k s =
    if is_key k (codes "esc")
    then (record p { drilled = [] }, none)
    else if is_key k (codes "f")
    then (record p { view = next_view p.view; row = 0 }, none)
    else if one_of k (codes "down") (codes "j")
    then (record p { row = p.row + 1 }, none)
    else if one_of k (codes "up") (codes "k")
    then (record p { row = p.row - 1 }, none)
    else if is_key k (codes "enter")
    then (p, open_row p s)
    else (p, none)

-- `enter` on the list.
unfoldable pub drill : JobsPane → List JobRow → JobsPane
drill p jobs = elim (get_elem? jobs p.cursor) [
  | none ↦ p
  | some j ↦ record p { drilled = j.jid; view = needs_attention; row = 0 }
]

-- The keys of `Update` on the list.
unfoldable pub list_key : JobsPane → Key → Frame → JobsPane × Option Cmd
unfolding drill
list_key p k s =
    if one_of k (codes "down") (codes "j")
    then (record p { cursor = min (p.cursor + 1) (length s.jobs - 1) }, none)
    else if one_of k (codes "up") (codes "k")
    then (record p { cursor = p.cursor - 1 }, none)
    else if is_key k (codes "enter")
    then (drill p s.jobs, none)
    else (p, none)

-- `Update`, for a key.
unfoldable pub jobs_key : JobsPane → Key → Frame → JobsPane × Option Cmd
unfolding drilled_key list_key
jobs_key p k s = if is_empty p.drilled then list_key p k s else drilled_key p k s

-- `PinnedJID`
abbrev pub pinned_jid : JobsPane → Bytes
pinned_jid p = p.drilled

-- `scrollStart`
unfoldable pub scroll_start : ℕ → ℕ → ℕ → ℕ
scroll_start cursor window n =
    if ltb cursor window then 0 else min (cursor + 1 - window) (n - window)

abbrev pub list_chrome : ℕ
list_chrome = 2

abbrev pub drill_chrome : ℕ
drill_chrome = 6

-- The window of `viewList` and of `drillLines` over what they list: the part drawn and the highlighted
-- place in it.
unfoldable pub window_of {ℓ} : {A : Type ℓ} → ℕ → ℕ → ℕ → List A → List A × ℕ
unfolding scroll_start
window_of chrome cursor h xs =
    let window = max 1 (h - chrome) in
    let at = min cursor (length xs - 1) in
    let first = scroll_start at window (length xs) in
    (slice first (min (first + window) (length xs)) xs, at - first)

-- The rows that `viewList` draws, for at least one job.
unfoldable pub list_window : JobsPane → ℕ → List JobRow → List JobRow × ℕ
unfolding window_of
list_window p h jobs = window_of list_chrome p.cursor h jobs

-- The rows that `drillLines` draws.
unfoldable pub drill_window : JobsPane → ℕ → List Row → List Row × ℕ
unfolding window_of
drill_window p h all = window_of drill_chrome p.row h all

-- What the RET column shows.
pub data RetLabel : Type 0 where
  out_of : ℕ → ℕ → RetLabel
  out_of_trimmed : ℕ → RetLabel
  out_of_unseen : ℕ → RetLabel

-- `retLabel`
unfoldable pub ret_label : JobRow → RetLabel
ret_label j =
    let (n, state) = row_expected_count j in
    elim state [
      | known ↦ out_of j.returned n
      | trimmed ↦ out_of_trimmed j.returned
      | unseen ↦ out_of_unseen j.returned
    ]

-- What the drill-down shows for a job that it may not have.
pub data Drilled : Type 0 where
  waiting_for_snapshot : Drilled
  evicted_job : Drilled
  never_seen : Drilled
  lines_of : Job → Drilled

-- The cases of `viewDrilled`.
unfoldable pub view_drilled : JobsPane → Frame → Drilled
view_drilled p s = elim s.job_lookup [
  | none ↦ waiting_for_snapshot
  | some look ↦
      let (job, answer) = look p.drilled in
      elim answer [
        | Lookup.was_evicted ↦ evicted_job
        | Lookup.not_seen ↦ never_seen
        | Lookup.found ↦ elim job [ none ↦ never_seen | some j ↦ lines_of j ]
      ]
]

abbrev pub tally : Option (List Bytes) → Option ℕ
tally none = none
tally (some ms) = some (length ms)

-- The tallies of `counts`: failed, missing when it is known, and ok.
unfoldable pub counts : Job → ℕ × Option ℕ × ℕ
counts job = (job.failed, tally (missing_minions job), length job.returns - job.failed)
