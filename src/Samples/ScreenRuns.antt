-- ===== src/Samples/ScreenRuns.antt =====
-- internal/ui: the five panes over a hub that tracks one job, and keys pressed on them.
use go_salt_events.Ui.Root.Editing.{
  Committed, edit_commits, enter_key, joined, press_all, slash_key,
}
use go_salt_events.Ui.Root.Pin.{Finds, tick_protects}
use go_salt_events.Ui.Root.Paused.{Beat, arrive, beat, heard, paused_session, step_of}
use go_salt_events.Ui.Live.Window.{opens_highlighted}
use go_salt_events.Ui.Root.Palettes.{theme_key, themes_reach}
use go_salt_events.Ui.Root.Update.{refresh, update}
use go_salt_events.Filter.Query.{Term, is_in}
use go_salt_events.Cache.{new_cache, snapshot}
use go_salt_events.Samples.JobRuns.{calls}
use go_salt_events.Ui.Root.Returns.{LastReturn, Opened, open_job_return-last}
use go_salt_events.Ui.Detail.Bounds.{render-bounded}
use go_salt_events.Ui.Detail.Memo.{Drawn, Use, draw, press, select_event, use_all, use_all-draws}
use go_salt_events.Ui.Detail.Screen.{built_lines-ClearLine}
use go_salt_events.Ui.Jobs.Rows.{or_zero, rows-counts}
use go_salt_events.Base.{
  Bytes, List, Option, [], arith, bytes_eq, codes, false, get_elem?, length, map, none, pos, refl,
  replicate, some, true, ℕ, ◌++◌, ◌+◌, ◌-◌, ◌<◌, ◌∷◌, ◌≡◌, ◌≤◌,
}
use go_salt_events.Model.Event.{Event, Kind}
use go_salt_events.Model.Job.{expected_count, new_job, returned}
use go_salt_events.Model.Job.Counters
use go_salt_events.Saltipc.Value.{Value, cons, list_of, nil, no_pairs, null, pair, str, untyped}
use go_salt_events.Saltipc.Reader.{attached, event}
use go_salt_events.Filter.Query.Parse.{match_query, parse, to_string, zero_query}
use go_salt_events.Stats.Floats.{whole}
use go_salt_events.Stats.Jobs.{find_entry, job_bytes, new_job_index}
use go_salt_events.Stats.Jobs.Valid.{IsValid}
use go_salt_events.Hub.{Hub, new_hub}
use go_salt_events.Hub.View.{Readings, take_snapshot}
use go_salt_events.Ui.Text.{is_clear, is_control}
use go_salt_events.Ui.Theme.{is_registered}
use go_salt_events.Ui.Messages.{Key, key_msg, open_detail_msg, open_job_return_msg, send, tick}
use go_salt_events.Ui.Live.{header_rows, live_key, new_live, shown}
use go_salt_events.Ui.Jobs.{all_rows, counts, failed_only, missing_only, needs_attention, rows}
use go_salt_events.Ui.Detail.{built_lines, new_detail, view}
use go_salt_events.Ui.Detail.Render.{Decoded, Formats, max_lines, render, value}
use go_salt_events.Ui.Detail.Clear.{All, AreClear, ClearLine}
use go_salt_events.Ui.Root.{
  Model, Options, Pane, detail_pane, events_of, jobs_pane, live_pane, new_model, pinned_of,
  rate_pane, summary_pane,
}
use go_salt_events.Ui.Root.Session.{Step, ingest, message, session, take_step}
use go_salt_events.Ui.Root.Focus.{session-focus}

abbrev formats : Formats
formats = record {
  clock = λ t. codes "12:00:00.000";
  itoa = λ n. codes "20000";
  stamp = λ t. codes "2024-01-02T03:04:05Z";
  print = λ v. codes "?";
}

formats_clear : AreClear formats
unfolding is_clear is_control
formats_clear = record { clock = λ t. refl; itoa = λ n. refl; stamp = λ t. refl }

abbrev jid : Bytes
jid = codes "20240102030405123456"

-- A return whose minion would ring the terminal's bell.
abbrev came_back : Event
came_back = record {
  arrival = 5;
  stamp = 4;
  tag = codes "salt/job/20240102030405123456/ret/web";
  namespace = codes "job";
  category = codes "job/*/ret/*";
  jid = jid;
  minion = codes "web";
  fun = codes "test.ping";
  kind = Kind.ret;
  ret_code = pos 0;
  success = true;
  has_ret = true;
  payload = some (codes "xyz");
  shed = false;
  master_trimmed = false;
}

-- A payload that would move the cursor of the terminal.
abbrev hostile : Value
hostile = untyped (
    pair (str (27 ∷ codes "[2J")) (list_of (cons null (cons (str (codes "VALUE_TRIMMED")) nil)))
      no_pairs)

abbrev to_hostile : Bytes → Decoded
to_hostile b = value hostile

abbrev plain_key : ℕ → Key
plain_key c = record { name = c ∷ []; typed = c ∷ [] }

abbrev named_key : Bytes → Key
named_key name = record { name = name; typed = [] }

abbrev tracking : Hub
tracking =
    let h = new_hub (pos 1000000) (pos 8) in
    record h { jobs = record h.jobs { order = (record { job = new_job jid; bytes = 0 }) ∷ [] } }

abbrev drilled_jobs : Pane
drilled_jobs = jobs_pane (record { cursor = 0; drilled = jid; view = needs_attention; row = 0 })

abbrev panes : List Pane
panes =
    detail_pane (new_detail (some to_hostile)) ∷ rate_pane false ∷ summary_pane ∷ drilled_jobs ∷ []

abbrev options : Options
options = record {
  theme = codes "no such palette";
  interval = pos 0;
  filter = zero_query;
  sock_path = [];
  config_path = [];
  export = none;
}

abbrev readings : Readings
readings = record { now = 9; seconds = 9; minutes = 9; sec_sum = 9; min_sum = 9 }

abbrev start_model : Model ℕ
start_model = new_model (some tracking) (live_pane new_live ∷ panes) options

-- A tick, `esc`, the Jobs pane by its number, `esc` again, a return, and another tick.
abbrev steps : List Step
steps =
    message readings tick
    ∷ message readings (key_msg (named_key (codes "esc")))
    ∷ message readings (key_msg (plain_key b'5'))
    ∷ message readings (key_msg (named_key (codes "esc")))
    ∷ ingest (attached true ∷ event came_back ∷ [])
    ∷ message readings tick
    ∷ []

session-focus_example :
    let m = session whole formats none start_model steps in
    (length m.panes ≡ 5)
    × (m.focus < length m.panes)
    × (m.styles ≡ m.theme_name)
    × (is_registered m.theme_name ≡ true)
session-focus_example =
    session-focus whole formats none (some tracking) (live_pane new_live) panes options steps

tracking-IsValid : IsValid tracking.jobs
unfolding new_hub new_job job_bytes new_job_index find_entry expected_count returned
tracking-IsValid = record { distinct = (refl, tt); charged = (refl, tt); total = refl }

tick_protects_example :
    Finds jid
      (take_step whole formats none
        (take_step whole formats none start_model (message readings tick))
        (ingest (attached true ∷ event came_back ∷ []))).src
unfolding find_entry bytes_eq pinned_of new_model new_hub new_job new_job_index
tick_protects_example =
    tick_protects whole formats none readings start_model (attached true ∷ event came_back ∷ [])
      refl (tracking-IsValid, refl)

abbrev paused_model : Model ℕ
paused_model = record start_model { paused = true }

abbrev beats : List Beat
beats = beat readings ∷ arrive (event came_back ∷ []) ∷ beat readings ∷ []

paused_session_example :
    session whole formats none paused_model (map step_of beats)
    ≡ record paused_model { src = heard whole formats none jid paused_model.src beats }
unfolding pinned_of new_model
paused_session_example = paused_session whole formats none paused_model beats refl

abbrev typing : List Key
typing = plain_key b'o' ∷ plain_key b'k' ∷ plain_key b':' ∷ plain_key b'x' ∷ []

edit_commits_example :
    Committed start_model
      (press_all whole formats readings start_model (slash_key ∷ typing ++ enter_key ∷ []))
      (parse (to_string start_model.query ++ joined typing))
unfolding new_model bytes_eq
edit_commits_example = edit_commits whole formats readings start_model typing refl (omega arith) (
  (refl, refl, refl, refl),
  ((refl, refl, refl, refl), ((refl, refl, refl, refl), ((refl, refl, refl, refl), tt))),
)

-- The hub when the return is in its cache.
abbrev answered : Hub
answered = record tracking { cache = record tracking.cache { events = came_back ∷ [] } }

abbrev returned_model : Model ℕ
returned_model = refresh whole readings (record start_model { src = some answered })

returned_once : events_of returned_model.snap ≡ came_back ∷ []
unfolding refresh take_snapshot snapshot new_model new_hub new_cache match_query
returned_once = refl

open_job_return-last_example :
    (o : Option Event) × LastReturn jid (codes "web") (events_of returned_model.snap) o
    × Opened jid
        (codes "web")
        returned_model
        (update whole formats readings returned_model (open_job_return_msg jid (codes "web"))).0
        o
unfolding refresh new_model
open_job_return-last_example =
    open_job_return-last whole formats readings returned_model jid (codes "web") tt

opens_highlighted_example :
    let (body, mark) = shown new_live 80 2 (came_back ∷ came_back ∷ []) in
    (0 < length body)
    × (length body ≤ 2 - header_rows)
    × ((i : ℕ) × (e : Event) × (mark ≡ some i)
        × (get_elem? body i ≡ some e)
        × (live_key new_live (named_key (codes "enter")) (came_back ∷ came_back ∷ [])
            ≡ (new_live, some (send (open_detail_msg e)))))
opens_highlighted_example =
    opens_highlighted new_live 80 2 (came_back ∷ came_back ∷ []) (omega arith) (omega arith)
      (omega arith)

rows-counts_example :
    let job = Counters.run (new_job (codes "1")) calls in
    let (fails, missing, oks) = counts job in
    (length (rows failed_only job 9) ≡ fails)
    × (length (rows missing_only job 9) ≡ or_zero missing)
    × (length (rows needs_attention job 9) ≡ fails + or_zero missing)
    × (length (rows all_rows job 9) ≡ fails + or_zero missing + oks)
rows-counts_example =
    rows-counts (Counters.run (new_job (codes "1")) calls) 9
      (Counters.run-counters (codes "1") calls)

render-bounded_example :
    (length (render formats hostile) ≤ max_lines + 1) × All ClearLine (render formats hostile)
render-bounded_example = render-bounded formats formats_clear hostile

built_lines-ClearLine_example :
    All ClearLine (built_lines formats (some to_hostile) (some came_back))
built_lines-ClearLine_example =
    built_lines-ClearLine formats formats_clear (some to_hostile) came_back

abbrev uses : List Use
uses =
    select_event came_back
    ∷ press (named_key (codes "end"))
    ∷ draw 80 3
    ∷ press (plain_key b'k')
    ∷ []

use_all-draws_example :
    Drawn formats
      (some to_hostile)
      (some came_back)
      3
      (view formats (use_all formats (new_detail (some to_hostile)) uses) 80 3).0
use_all-draws_example = use_all-draws formats (some to_hostile) uses 80 3

abbrev searching : Model ℕ
searching =
    let on_web : Term = record { field = codes "minion"; value = codes "web"; pattern = none } in
    record start_model {
      src = some answered;
      query = record { terms = on_web ∷ []; raw = codes "minion:web" };
    }

themes_reach_example :
    (k : ℕ) × (k ≤ 3)
    × ((press_all whole formats readings start_model (replicate k theme_key)).theme_name
        ≡ codes "mono")
    × ((press_all whole formats readings start_model (replicate k theme_key)).styles ≡ codes "mono")
unfolding new_model is_registered is_in bytes_eq
themes_reach_example =
    themes_reach whole formats readings start_model (codes "mono")
      (record { browsing = refl; few = omega arith; known = refl; compiled = refl }) refl
