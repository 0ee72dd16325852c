-- ===== src/Cache.antt =====
-- internal/cache/cache.go: the memory-bounded ring of events, newest last.
pub mod Degrade
pub mod Drop
pub mod Session
pub mod Snapshot
use go_salt_events.Base.{
  Bool, List, Option, [], exceeds, false, get_elem?, if◌then◌else◌, leb, length, ltb, negsuc, none,
  pos, reverse, set, some, suc, true, zero, ℕ, ℤ, ◌%◌, ◌*◌, ◌++◌, ◌+◌, ◌-◌, ◌^◌, ◌||◌, ◌∷◌,
}
use go_salt_events.Model.Event.{Event, size}

-- A `Matcher`: `none` is the nil interface, which matches everything.
abbrev pub Matcher : Type 0
Matcher = Option (Event → Bool)

pub record Stats : Type 0 where
  pub used : ℕ
  pub budget : ℤ
  pub events : ℕ
  pub shed : ℕ
  pub dropped : ℕ

pub record Cache : Type 0 where
  pub budget : ℤ
  pub used : ℕ
  pub events : List Event
  pub shed_idx : ℕ
  pub shed : ℕ
  pub dropped : ℕ

-- `New`
unfoldable pub new_cache : ℤ → Cache
new_cache budget = record {
  budget = budget;
  used = 0;
  events = [];
  shed_idx = 0;
  shed = 0;
  dropped = 0;
}

-- The event at the shed index without its payload.
unfoldable pub stripped : Event → Event
stripped e = record e { payload = none; shed = true }

-- The body of the first loop of `degrade`, at the event `e` under the shed index.
unfoldable pub shed_one : Cache → Event → Cache
unfolding stripped
shed_one c e = elim e.payload [
  | none ↦ record c { shed_idx = c.shed_idx + 1 }
  | some p ↦ record c {
    used = c.used - length p;
    events = set c.events c.shed_idx (stripped e);
    shed = c.shed + 1;
    shed_idx = c.shed_idx + 1;
  }
]

-- The first loop of `degrade`; the fuel counts the events from the shed index on.
unfoldable pub shed_loop : ℕ → Cache → Cache
unfolding shed_one
shed_loop zero c = c
shed_loop (suc f) c = elim (exceeds c.used c.budget) [
  | false ↦ c
  | true ↦ elim (get_elem? c.events c.shed_idx) [ none ↦ c | some e ↦ shed_loop f (shed_one c e) ]
]

-- The body of the second loop, which drops the oldest event `e` and keeps `rest`.
unfoldable pub drop_one : Cache → Event → List Event → Cache
drop_one c e rest = record c {
  used = c.used - size e;
  events = rest;
  dropped = c.dropped + 1;
  shed_idx = c.shed_idx - 1;
}

-- The second loop of `degrade`; the fuel counts the events.
unfoldable pub drop_loop : ℕ → Cache → Cache
unfolding drop_one
drop_loop zero c = c
drop_loop (suc f) c = elim (exceeds c.used c.budget) [
  | false ↦ c
  | true ↦ elim c.events [ [] ↦ c | e ∷ rest ↦ drop_loop f (drop_one c e rest) ]
]

unfoldable pub degrade : Cache → Cache
unfolding shed_loop drop_loop
degrade c = let s = shed_loop (length c.events - c.shed_idx) c in drop_loop (length s.events) s

-- `Add`
unfoldable pub add : Cache → Event → Cache
unfolding degrade
add c e = degrade (record c { events = c.events ++ e ∷ []; used = c.used + size e })

-- `limit * scanBudget` on a 64-bit `int`, and the two tests after it: the product wraps, and one that
-- came out negative fails `budget < limit`.
unfoldable pub scan_bound : ℕ → ℕ → ℕ
scan_bound limit n =
    let wrapped = (limit * 8) % 2 ^ 64 in
    if leb (2 ^ 63) wrapped || ltb wrapped limit || ltb n wrapped then n else wrapped

unfoldable pub matches : Matcher → Event → Bool
matches none e = true
matches (some m) e = m e

-- The scan of `Snapshot`: the events left, newest first, the bounds left on results and on events
-- examined, and what it has so far, where the source appends and reverses at the end.
unfoldable pub scan : Matcher → List Event → ℕ → ℕ → List Event → ℕ → List Event × ℕ
unfolding matches
scan m [] room budget out scanned = (out, scanned)
scan m (e ∷ es) zero budget out scanned = (out, scanned)
scan m (e ∷ es) (suc room) zero out scanned = (out, scanned)
scan m (e ∷ es) (suc room) (suc budget) out scanned = elim (matches m e) [
  | true ↦ scan m es room budget (out ++ e ∷ []) (scanned + 1)
  | false ↦ scan m es (suc room) budget out (scanned + 1)
]

-- `Snapshot`; the limit may be zero or less.
unfoldable pub snapshot : Cache → Matcher → ℤ → List Event × ℕ
unfolding scan scan_bound
snapshot c m (negsuc _) = ([], 0)
snapshot c m (pos zero) = ([], 0)
snapshot c m (pos (suc l)) =
    let limit = suc l in
    let (out, scanned) =
      scan m (reverse c.events) limit (scan_bound limit (length c.events)) [] 0 in
    (reverse out, scanned)

-- `All`
unfoldable pub all : Cache → List Event
all c = c.events

-- `Stats`
unfoldable pub stats : Cache → Stats
stats c = record {
  used = c.used;
  budget = c.budget;
  events = length c.events;
  shed = c.shed;
  dropped = c.dropped;
}

-- A session: the cache after the events of a list, oldest first.
unfoldable pub session : Cache → List Event → Cache
session c [] = c
session c (e ∷ es) = session (add c e) es
