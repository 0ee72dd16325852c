-- ===== src/Stats/Jobs.antt =====
-- internal/stats/jobs.go: the capped index of jobs. A list element is its entry, known by its JID; the
-- map `jobs` and the list `order` are always changed together, so both are the one list of entries,
-- oldest first.
pub mod Evicted
pub mod Entries
pub mod Victim
pub mod Valid
pub mod Ingest
pub mod Observe
pub mod Learn
use go_salt_events.Base.{
  Bool, Bytes, List, Option, [], bytes_eq, exceeds, false, if◌then◌else◌, length, map, max, negsuc,
  none, not, pos, reaches, reverse, some, suc, take, true, zero, ℕ, ℤ, ◌%◌, ◌&&◌, ◌*◌, ◌++◌, ◌+◌,
  ◌-◌, ◌^◌, ◌||◌, ◌∷◌,
}
use go_salt_events.Model.Job.{
  ExpectedState, Job, complete, expected_count, known, new_job, returned, trimmed, unseen,
}
use go_salt_events.Stats.Jobs.Evicted.{EvictedSet, evicted_capacity, new_evicted_set}

pub data Lookup : Type 0 where
  not_seen found was_evicted : Lookup

pub record IndexStats : Type 0 where
  pub tracked : ℕ
  pub cap : ℤ
  pub high_water : ℕ
  pub evicted : ℕ

abbrev pub per_minion_bytes : ℕ
per_minion_bytes = 64

-- `entry`
pub record JobEntry : Type 0 where
  pub job : Job
  pub bytes : ℕ

pub record JobIndex : Type 0 where
  pub max_jobs : ℤ
  pub mem_ceiling : ℤ
  pub order : List JobEntry
  pub pinned : Bytes
  pub evicted : EvictedSet
  pub high_water : ℕ
  pub evictions : ℕ
  pub bytes : ℕ

-- `NewJobIndex`
unfoldable pub new_job_index : ℤ → ℤ → JobIndex
new_job_index max_jobs mem_ceiling = record {
  max_jobs = max_jobs;
  mem_ceiling = mem_ceiling;
  order = [];
  pinned = [];
  evicted = new_evicted_set (evicted_capacity max_jobs);
  high_water = 0;
  evictions = 0;
  bytes = 0;
}

-- `jobs[jid]`
unfoldable pub find_entry : List JobEntry → Bytes → Option JobEntry
find_entry [] k = none
find_entry (e ∷ es) k = if bytes_eq e.job.jid k then some e else find_entry es k

-- What a write through an element's pointer does to the list.
unfoldable pub put_entry : List JobEntry → JobEntry → List JobEntry
put_entry [] v = []
put_entry (e ∷ es) v = if bytes_eq e.job.jid v.job.jid then v ∷ es else e ∷ put_entry es v

-- `order.Remove` and `delete`
unfoldable pub remove_entry : List JobEntry → Bytes → List JobEntry
remove_entry [] k = []
remove_entry (e ∷ es) k = if bytes_eq e.job.jid k then es else e ∷ remove_entry es k

-- `touch`
unfoldable pub touch : JobIndex → Bytes → JobEntry × JobIndex
touch idx k = elim (find_entry idx.order k) [
  | some e ↦ (e, idx)
  | none ↦
      let e : JobEntry = record { job = new_job k; bytes = 0 } in
      (
        e,
        record idx {
          order = idx.order ++ e ∷ [];
          high_water = max idx.high_water (length idx.order + 1);
        },
      )
]

-- `jobBytes`
unfoldable pub job_bytes : Job → ℕ
job_bytes j = ((expected_count j).0 + returned j) * per_minion_bytes

-- `overCapacity`
unfoldable pub over_capacity : JobIndex → Bool
over_capacity idx =
    exceeds (length idx.order) idx.max_jobs
    || (not (reaches 0 idx.mem_ceiling) && exceeds idx.bytes idx.mem_ceiling)

abbrev pub or_else {ℓ} : {A : Type ℓ} → Option A → Option A → Option A
or_else none b = b
or_else (some a) _ = some a

abbrev pub is_known : ExpectedState → Bool
is_known known = true
is_known unseen = false
is_known trimmed = false

-- The loop of `oldestEvictable`, with the first job that can never complete and the first that is
-- progressing, and the choice after it.
unfoldable pub pick : Bytes → List JobEntry → Option JobEntry → Option JobEntry → Option JobEntry
pick pinned [] never_completable progressing = or_else never_completable progressing
pick pinned (e ∷ es) never_completable progressing = elim (bytes_eq e.job.jid pinned) [
  | true ↦ pick pinned es never_completable progressing
  | false ↦ elim (complete e.job) [
    | true ↦ some e
    | false ↦ elim (is_known e.job.expected_state) [
      | false ↦ pick pinned es (or_else never_completable (some e)) progressing
      | true ↦ pick pinned es never_completable (or_else progressing (some e))
    ]
  ]
]

-- `oldestEvictable`
unfoldable pub oldest_evictable : JobIndex → Option JobEntry
unfolding pick
oldest_evictable idx = pick idx.pinned idx.order none none

-- `drop`: the total does not go below 0, where the subtraction here stops.
unfoldable pub drop_job : JobIndex → JobEntry → JobIndex
drop_job idx e = record idx {
  order = remove_entry idx.order e.job.jid;
  evicted = Evicted.add idx.evicted e.job.jid;
  bytes = idx.bytes - e.bytes;
  evictions = (idx.evictions + 1) % 2 ^ 64;
}

-- The loop of `evict`; the fuel counts the jobs.
unfoldable pub evict_loop : ℕ → JobIndex → JobIndex
evict_loop zero idx = idx
evict_loop (suc f) idx = elim (over_capacity idx) [
  | false ↦ idx
  | true ↦ elim (oldest_evictable idx) [ none ↦ idx | some e ↦ evict_loop f (drop_job idx e) ]
]

-- `evict`
unfoldable pub evict : JobIndex → JobIndex
unfolding evict_loop
evict idx = evict_loop (length idx.order) idx

-- The part of `settle` before it evicts, on the element whose job is now `j` and whose charge is
-- still `charged`.
unfoldable pub reweigh : JobIndex → Job → ℕ → JobIndex
reweigh idx j charged = record idx {
  bytes = idx.bytes + job_bytes j - charged;
  order = put_entry idx.order (record { job = j; bytes = job_bytes j });
}

-- `settle`
unfoldable pub settle : JobIndex → Job → ℕ → JobIndex
unfolding reweigh evict
settle idx j charged = evict (reweigh idx j charged)

-- `Pin` and `Unpin`
unfoldable pub pin : JobIndex → Bytes → JobIndex
pin idx k = record idx { pinned = k }

unfoldable pub unpin : JobIndex → JobIndex
unpin idx = record idx { pinned = [] }

-- `Job`
unfoldable pub find_job : JobIndex → Bytes → Option Job × Lookup
find_job idx k = elim (find_entry idx.order k) [
  | some e ↦ (some e.job, found)
  | none ↦ if Evicted.has idx.evicted k then (none, was_evicted) else (none, not_seen)
]

-- `List`: a limit of zero or less gives nothing.
unfoldable pub newest_jobs : JobIndex → ℤ → List Job
newest_jobs idx (negsuc _) = []
newest_jobs idx (pos n) = map (λ e. e.job) (take n (reverse idx.order))

-- `Stats`
unfoldable pub index_stats : JobIndex → IndexStats
index_stats idx = record {
  tracked = length idx.order;
  cap = idx.max_jobs;
  high_water = idx.high_water;
  evicted = idx.evictions;
}
