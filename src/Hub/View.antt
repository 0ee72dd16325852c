-- ===== src/Hub/View.antt =====
-- cmd/salt-events/hub.go: what the render tick and the export read.
use go_salt_events.Base.{
  Bool, Bytes, List, Option, if◌then◌else◌, length, map, pos, select, some, ℕ, ℤ, ◌==◌,
}
use go_salt_events.Model.Event.{Event, Time}
use go_salt_events.Model.Job.{Job, JobRow, row}
use go_salt_events.Cache
use go_salt_events.Cache.{Cache, all, snapshot}
use go_salt_events.Filter.Query.Parse.{Query, match_query}
use go_salt_events.Stats.Floats.{Floats}
use go_salt_events.Stats.Rings.{Bucket, minutes, seconds}
use go_salt_events.Stats.Callout.{Summary, summarise}
use go_salt_events.Stats.TopN.{Entry, top}
use go_salt_events.Stats.Jobs.{IndexStats, JobIndex, Lookup, find_job, index_stats, newest_jobs}
use go_salt_events.Hub.{Hub, list_jobs, top_entries}

-- `jobList`
unfoldable pub job_list : JobIndex → List JobRow
job_list idx = map row (newest_jobs idx (pos list_jobs))

-- `lookupJob`; `Clone` is the identity on values.
unfoldable pub lookup_job : Hub → Bytes → Option Job × Lookup
lookup_job h jid = find_job h.jobs jid

-- `ui.Snapshot`
pub record Snapshot (F : Type 0) : Type 0 where
  pub now : Time
  pub events : List Event
  pub scanned : ℕ
  pub cache : Cache.Stats
  pub seconds : List Bucket
  pub minutes : List Bucket
  pub sec_sum : Summary F
  pub min_sum : Summary F
  pub top_categories : List (Entry F)
  pub top_minions : List (Entry F)
  pub top_functions : List (Entry F)
  pub jobs : List JobRow
  pub job_stats : IndexStats
  pub connected : Bool
  pub decode_errors : ℕ

-- The clock's readings in `Snapshot`: its own, and one for each history and each summary.
pub record Readings : Type 0 where
  pub now : Time
  pub seconds : Time
  pub minutes : Time
  pub sec_sum : Time
  pub min_sum : Time

module _ (fl : Floats) where
  open fl use {Float}

  -- `Snapshot`, with what it leaves: reading a history moves the rings. The query and the lookup, which
  -- it passes on, are left out.
  unfoldable pub take_snapshot : Hub → Query → ℤ → Readings → Snapshot Float × Hub
  unfolding job_list
  take_snapshot h q limit t =
      let (events, scanned) = snapshot h.cache (some (match_query q)) limit in
      let (secs, r1) = seconds h.rings t.seconds in
      let (mins, r2) = minutes r1 t.minutes in
      let (sec_window, r3) = seconds r2 t.sec_sum in
      let (min_window, r4) = minutes r3 t.min_sum in
      (
        record {
          now = t.now;
          events = events;
          scanned = scanned;
          cache = Cache.stats h.cache;
          seconds = secs;
          minutes = mins;
          sec_sum = summarise fl sec_window;
          min_sum = summarise fl min_window;
          top_categories = top fl top_entries h.cats;
          top_minions = top fl top_entries h.minions;
          top_functions = top fl top_entries h.funs;
          jobs = job_list h.jobs;
          job_stats = index_stats h.jobs;
          connected = h.connected;
          decode_errors = h.decode_errors;
        },
        record h { rings = r4 },
      )

-- `AllEvents`, with the filtering in place.
unfoldable pub all_events : Hub → Query → List Event
all_events h q = if length q.terms == 0 then all h.cache else select (match_query q) (all h.cache)
