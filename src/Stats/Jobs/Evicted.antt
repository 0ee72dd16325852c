-- ===== src/Stats/Jobs/Evicted.antt =====
-- internal/stats/jobs.go, `evictedSet`: the bounded memory of which jobs were evicted. The map `seen`
-- is the list of its keys.
use go_salt_events.Base.{
  Bool, Bytes, List, [], bytes_eq, false, get_or, if◌then◌else◌, length, ltb, negsuc, pos, set, ℕ,
  ℤ, ◌%◌, ◌*◌, ◌++◌, ◌+◌, ◌/◌, ◌||◌, ◌∷◌,
}

pub record EvictedSet : Type 0 where
  pub cap : ℕ
  pub seen : List Bytes
  pub order : List Bytes
  pub next : ℕ

abbrev pub evicted_factor : ℕ
evicted_factor = 8

abbrev pub min_evicted_memory : ℕ
min_evicted_memory = 64

-- `evictedCapacity`
unfoldable pub evicted_capacity : ℤ → ℕ
evicted_capacity (negsuc _) = min_evicted_memory
evicted_capacity (pos n) =
    if ltb (min_evicted_memory / evicted_factor) n then n * evicted_factor else min_evicted_memory

-- `newEvictedSet`
unfoldable pub new_evicted_set : ℕ → EvictedSet
new_evicted_set capacity = record {
  cap = if ltb capacity 1 then 1 else capacity;
  seen = [];
  order = [];
  next = 0;
}

-- `_, ok := seen[jid]`
unfoldable pub holds : List Bytes → Bytes → Bool
holds [] k = false
holds (j ∷ js) k = bytes_eq j k || holds js k

-- `delete(seen, jid)`
unfoldable pub forget : List Bytes → Bytes → List Bytes
forget [] k = []
forget (j ∷ js) k = if bytes_eq j k then js else j ∷ forget js k

-- `add`
unfoldable pub add : EvictedSet → Bytes → EvictedSet
add s k =
    if holds s.seen k
    then s
    else if ltb (length s.order) s.cap
    then record s { order = s.order ++ k ∷ []; seen = k ∷ s.seen }
    else record s {
      seen = k ∷ forget s.seen (get_or s.order s.next []);
      order = set s.order s.next k;
      next = (s.next + 1) % s.cap;
    }

-- `has`
unfoldable pub has : EvictedSet → Bytes → Bool
has s k = holds s.seen k
