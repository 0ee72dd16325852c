-- ===== src/Ui/Root/Update.antt =====
-- internal/ui/root.go: `Update` and the keys.
use go_salt_events.Base.{
  Bytes, Option, [], codes, false, get_elem?, if◌then◌else◌, length, none, not, pos, set, some,
  take, true, ℕ, ◌&&◌, ◌++◌, ◌-◌,
}
use go_salt_events.Filter.Query.Parse.{ParsedQuery, accepted, parse, refused, to_string}
use go_salt_events.Stats.Floats.{Floats}
use go_salt_events.Stats.Jobs.Ingest.{is_empty}
use go_salt_events.Hub.{Hub}
use go_salt_events.Hub.View.{Readings, take_snapshot}
use go_salt_events.Ui.Messages.{
  Cmd, Frame, Key, Msg, export_refused, exported, exported_not_owned, frame_of, is_key, key_msg,
  notice_msg, one_of, open_detail_msg, open_job_return_msg, other_msg, pane_index, quit,
  reader_error_msg, run_export, send, snapshot_limit, tick, tick_after, window_size, wrote,
  wrote_not_owned, wrote_nothing,
}
use go_salt_events.Ui.Live.{live_key}
use go_salt_events.Ui.Jobs.{jobs_key}
use go_salt_events.Ui.Detail.{detail_key}
use go_salt_events.Ui.Detail.Render.{Formats}
use go_salt_events.Ui.Root.{
  Model, Pane, cycle_theme, detail_pane, export_cmd, is_positive, jobs_pane, live_pane, open_detail,
  open_job_return, rate_pane, step, sync_pin,
}

-- `filterBuf[:len(filterBuf)-1]`
abbrev pub drop_last : Bytes → Bytes
drop_last s = take (length s - 1) s

module _ (fl : Floats) where
  open fl use {Float}

  -- `refresh`; reading the histories moves the hub's rings.
  unfoldable pub pull : Readings → Model Float → Option Hub → Model Float
  pull t m none = m
  pull t m (some h) =
      let (s, after) = take_snapshot fl h m.query (pos snapshot_limit) t in
      record m { snap = some s; src = some after }

  unfoldable pub refresh : Readings → Model Float → Model Float
  unfolding pull
  refresh t m = pull t m m.src

  -- `commitFilter`, for what `Parse` answers.
  unfoldable pub commit : Readings → Model Float → ParsedQuery → Model Float
  unfolding refresh
  commit t m (refused err) = record m { filter_err = some err }
  commit t m (accepted q) = refresh t (record m { query = q; filtering = false; filter_err = none })

  unfoldable pub commit_filter : Readings → Model Float → Model Float
  unfolding commit
  commit_filter t m = commit t m (parse m.filter_buf)

  -- `handleFilterKey`
  unfoldable pub filter_key : Readings → Model Float → Key → Model Float
  unfolding commit_filter
  filter_key t m k =
      if is_key k (codes "esc")
      then record m { filtering = false; filter_err = none }
      else if is_key k (codes "enter")
      then commit_filter t m
      else if is_key k (codes "backspace")
      then record m { filter_buf = drop_last m.filter_buf }
      else if not (is_empty k.typed)
      then record m { filter_buf = m.filter_buf ++ k.typed }
      else if is_key k (codes " ")
      then record m { filter_buf = m.filter_buf ++ codes " " }
      else m

  module _ (fmt : Formats) where
    -- The panes' `Update`: none has a case for another message.
    unfoldable pub update_pane : Pane → Msg → Frame → Pane × Option Cmd
    update_pane (live_pane p) (key_msg k) s =
        let (q, cmd) = live_key p k s.events in (live_pane q, cmd)
    update_pane (detail_pane p) (key_msg k) s = (detail_pane (detail_key fmt p k), none)
    update_pane (rate_pane b) (key_msg k) s =
        (rate_pane (if is_key k (codes "F") then not b else b), none)
    update_pane (jobs_pane p) (key_msg k) s = let (q, cmd) = jobs_key p k s in (jobs_pane q, cmd)
    update_pane p msg s = (p, none)

    -- `routeToPane`, for the pane in focus, or none when there is no pane.
    unfoldable pub route : Model Float → Msg → Option Pane → Model Float × Option Cmd
    unfolding update_pane
    route m msg none = (m, none)
    route m msg (some p) =
        let (q, cmd) = update_pane p msg (frame_of m.src m.snap) in
        (record m { panes = set m.panes m.focus q }, cmd)

    unfoldable pub route_to_pane : Model Float → Msg → Model Float × Option Cmd
    unfolding route
    route_to_pane m msg = route m msg (get_elem? m.panes m.focus)

    -- The `switch` of `handleKey`.
    unfoldable pub global_key : Model Float → Key → Model Float × Option Cmd
    unfolding step cycle_theme export_cmd route_to_pane
    global_key m k =
        if one_of k (codes "q") (codes "ctrl+c")
        then (m, some quit)
        else if is_key k (codes "esc")
        then (record m { reader_err = [] }, none)
        else if one_of k (codes "tab") (codes "shift+tab")
        then (record m { focus = step m k }, none)
        else if is_key k (codes "t")
        then (cycle_theme m, none)
        else if is_key k (codes " ")
        then (record m { paused = not m.paused }, none)
        else if is_key k (codes "/")
        then (
          record m { filtering = true; filter_buf = to_string m.query; filter_err = none },
          none,
        )
        else if is_key k (codes "?")
        then (record m { show_help = not m.show_help }, none)
        else if is_key k (codes "w")
        then (m, some (export_cmd m))
        else route_to_pane m (key_msg k)

    -- `handleKey`, for what `paneIndex` answers.
    unfoldable pub jump_or : Model Float → Key → Option ℕ → Model Float × Option Cmd
    unfolding global_key
    jump_or m k none = global_key m k
    jump_or m k (some i) = (record m { focus = i }, none)

    unfoldable pub handle_key : Readings → Model Float → Key → Model Float × Option Cmd
    unfolding filter_key jump_or
    handle_key t m k =
        if m.filtering
        then (filter_key t m k, none)
        else jump_or (record m { notice = none }) k (pane_index k.name (length m.panes))

    -- `Update`, with the readings of the clock that a snapshot would take.
    unfoldable pub update : Readings → Model Float → Msg → Model Float × Option Cmd
    unfolding sync_pin refresh handle_key open_detail open_job_return route_to_pane
    update t m (window_size w h) =
        (record m { width = w; height = h; ready = is_positive w && is_positive h }, none)
    update t m tick =
        let n = sync_pin m in (if n.paused then n else refresh t n, some (tick_after n.interval))
    update t m (key_msg k) = handle_key t m k
    update t m (open_detail_msg e) = (open_detail m e, none)
    update t m (open_job_return_msg jid minion) = (open_job_return m jid minion, none)
    update t m (notice_msg n) = (record m { notice = some n }, none)
    update t m (reader_error_msg s) = (record m { reader_err = s }, none)
    update t m other_msg = route_to_pane m other_msg

-- What a command answers, run against the hub of that moment.
unfoldable pub run_cmd : Hub → Cmd → Option Msg
run_cmd h quit = none
run_cmd h (tick_after n) = some tick
run_cmd h (send msg) = some msg
run_cmd h (run_export f q) = elim (f h q) [
  | wrote w ↦ some (notice_msg (exported w))
  | wrote_not_owned w ↦ some (notice_msg (exported_not_owned w))
  | wrote_nothing e ↦ some (notice_msg (export_refused e))
]
