-- ===== src/Samples/IndexRuns.antt =====
-- internal/stats/jobs.go: the index of jobs on short runs.
use go_salt_events.Stats.Jobs.Ingest.{learn_expected, observe, publish, record_return}
use go_salt_events.Base.{
  Bytes, List, [], codes, false, negsuc, none, pos, refl, some, true, ◌∷◌, ◌≡◌, ◌⊎◌,
}
use go_salt_events.Model.Event.{Event, Kind}
use go_salt_events.Stats.Jobs.{
  JobIndex, find_entry, find_job, found, new_job_index, oldest_evictable, over_capacity, pin,
  was_evicted,
}
use go_salt_events.Base.{bytes_eq}
use go_salt_events.Model.Job.{add_expected, add_return, complete, new_job, targets}
use go_salt_events.Stats.Jobs.Evicted
use go_salt_events.Stats.Jobs.Evicted.{evicted_capacity, holds, new_evicted_set}
use go_salt_events.Stats.Jobs.{drop_job, put_entry, remove_entry}
use go_salt_events.Stats.Jobs.Victim.{AllPinned}
use go_salt_events.Stats.Jobs.Observe.{Call, observe-bounded, pin_to, run, run-accounts, seen}

abbrev returned_by : Bytes → Bytes → Event
returned_by jid minion = record {
  arrival = 5;
  stamp = 0;
  tag = [];
  namespace = [];
  category = [];
  jid = jid;
  minion = minion;
  fun = codes "test.ping";
  kind = Kind.ret;
  ret_code = pos 0;
  success = true;
  has_ret = true;
  payload = none;
  shed = false;
  master_trimmed = false;
}

abbrev published : Bytes → Event
published jid = record (returned_by jid []) { kind = Kind.new }

abbrev job_a : Bytes
job_a = codes "a"

abbrev job_b : Bytes
job_b = codes "b"

abbrev web : Bytes
web = codes "web"

-- Two jobs under a cap of one, the first of them pinned.
abbrev history : List Call
history =
    seen (published job_a) (some (web ∷ [])) false
    ∷ pin_to job_a
    ∷ seen (returned_by job_b web) none false
    ∷ seen (returned_by job_a web) none false
    ∷ []

abbrev capped : JobIndex
capped = run (new_job_index (pos 1) (negsuc 0)) history

-- The pinned job stays, complete though it is, and the other one is answered as evicted.
lookups : ((find_job capped job_a).1 ≡ found) × ((find_job capped job_b).1 ≡ was_evicted)
unfolding run find_entry observe put_entry pin new_job_index bytes_eq new_job publish learn_expected
    add_expected targets over_capacity record_return add_return oldest_evictable complete drop_job
    remove_entry find_job Evicted.has holds Evicted.add new_evicted_set evicted_capacity
lookups = (refl, refl)

observe-bounded_example :
    let after = observe capped (returned_by job_b web) none false in
    (over_capacity after ≡ false) ⊎ AllPinned after.pinned after.order
observe-bounded_example =
    observe-bounded capped (returned_by job_b web) none false
      (run-accounts (pos 1) (negsuc 0) history) refl
