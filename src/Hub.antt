-- ===== src/Hub.antt =====
-- cmd/salt-events/hub.go: the one place where the reader, the cache and the aggregates meet. Every method
-- holds the hub's mutex from its first access to its last, so a method is a function on the state. The
-- job/new payload is decoded before, from what no other method writes.
pub mod Facts
pub mod View
pub mod Parts
pub mod Current
pub mod Outages
pub mod Attached
pub mod Index
pub mod Pinned
use go_salt_events.Base.{
  Bool, Bytes, List, Option, [], false, if◌then◌else◌, negsuc, none, not, pos, some, suc, true,
  zero, ℕ, ℤ, ◌&&◌, ◌+◌, ◌/◌, ◌∷◌,
}
use go_salt_events.Model.Event.{Event, Kind}
use go_salt_events.Model.Job.{Job}
use go_salt_events.Cache
use go_salt_events.Cache.{Cache, new_cache}
use go_salt_events.Stats.Rings
use go_salt_events.Stats.Rings.{Rings, mark_gap, new_rings}
use go_salt_events.Stats.TopN
use go_salt_events.Stats.TopN.{Counter, new_counter}
use go_salt_events.Stats.Jobs.{JobIndex, find_entry, new_job_index, pin, put_entry, unpin}
use go_salt_events.Stats.Jobs.Ingest.{is_empty, observe}
use go_salt_events.Saltipc.Value.{Value}
use go_salt_events.Saltipc.Reader.{Call, attached, decode_error, event, gap}
use go_salt_events.Hub.Facts.{JobFacts, facts_for}

abbrev pub max_top_keys : ℕ
max_top_keys = 256

abbrev pub list_jobs : ℕ
list_jobs = 200

abbrev pub top_entries : ℕ
top_entries = 10

abbrev pub job_mem_fraction : ℕ
job_mem_fraction = 10

pub record Hub : Type 0 where
  pub cache : Cache
  pub rings : Rings
  pub cats : Counter
  pub minions : Counter
  pub funs : Counter
  pub jobs : JobIndex
  pub connected : Bool
  pub decode_errors : ℕ

-- Division of an int64, which rounds toward 0.
unfoldable pub quotient : ℤ → ℕ → ℤ
quotient (pos n) k = pos (n / k)
quotient (negsuc n) k = elim ((n + 1) / k) [ zero ↦ pos 0 | suc q ↦ negsuc q ]

-- `newHub`
unfoldable pub new_hub : ℤ → ℤ → Hub
unfolding quotient
new_hub max_memory max_jobs = record {
  cache = new_cache max_memory;
  rings = new_rings;
  cats = new_counter (pos max_top_keys);
  minions = new_counter (pos max_top_keys);
  funs = new_counter (pos max_top_keys);
  jobs = new_job_index max_jobs (quotient max_memory job_mem_fraction);
  connected = false;
  decode_errors = 0;
}

-- `if key != "" { c.Add(key) }`
unfoldable pub add_named : Counter → Bytes → Counter
add_named c [] = c
add_named c (b ∷ name) = TopN.add c (b ∷ name)

-- What `describeJob` writes to the job.
unfoldable pub described : Job → JobFacts → Job
described j facts = record j {
  tgt = if is_empty j.tgt then facts.tgt else j.tgt;
  tgt_type = if is_empty j.tgt_type then facts.tgt_type else j.tgt_type;
  user = if is_empty j.user then facts.user else j.user;
}

-- `describeJob`
unfoldable pub describe_job : JobIndex → Bytes → JobFacts → JobIndex
unfolding described
describe_job idx jid facts =
    if is_empty facts.tgt && (is_empty facts.user && is_empty facts.tgt_type)
    then idx
    else elim (find_entry idx.order jid) [
      | none ↦ idx
      | some e ↦ record idx {
        order = put_entry idx.order (record e { job = described e.job facts });
      }
    ]

abbrev pub is_job_kind : Kind → Bool
is_job_kind Kind.new = true
is_job_kind Kind.ret = true
is_job_kind Kind.other = false
is_job_kind Kind.prog = false
is_job_kind Kind.start = false
is_job_kind Kind.auth = false
is_job_kind Kind.key = false
is_job_kind Kind.presence = false

-- `observeJob`
unfoldable pub observe_job : JobIndex → Event → JobFacts → JobIndex
unfolding describe_job
observe_job idx e facts =
    let seen = observe idx e facts.expected facts.trimmed in
    if not (is_job_kind e.kind)
    then idx
    else if is_empty e.jid
    then seen
    else describe_job seen e.jid facts

-- `decode` is the field of that name; `none` is nil.
module _ (decode : Option (Bytes → Option Value)) where
  -- `Event`
  unfoldable pub on_event : Hub → Event → Hub
  unfolding add_named observe_job
  on_event h e = record h {
    rings = Rings.add h.rings e.arrival;
    cats = TopN.add h.cats e.category;
    minions = add_named h.minions e.minion;
    funs = add_named h.funs e.fun;
    jobs = observe_job h.jobs e (facts_for decode e);
    cache = Cache.add h.cache e;
  }

  -- The methods of `Sink`: `Event`, `Gap`, `DecodeError` and `Attached`.
  unfoldable pub deliver : Hub → Call → Hub
  unfolding on_event
  deliver h (event e) = on_event h e
  deliver h (gap from to) = record h { rings = mark_gap h.rings from to }
  deliver h (decode_error _) = record h { decode_errors = h.decode_errors + 1 }
  deliver h (attached a) = record h { connected = a }

  unfoldable pub deliver_all : Hub → List Call → Hub
  unfolding deliver
  deliver_all h [] = h
  deliver_all h (c ∷ cs) = deliver_all (deliver h c) cs

-- `PinJob`
unfoldable pub pin_job : Hub → Bytes → Hub
pin_job h jid = record h { jobs = if is_empty jid then unpin h.jobs else pin h.jobs jid }
