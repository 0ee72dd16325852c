-- ===== src/Samples/ReaderRuns.antt =====
-- internal/saltipc/reader.go, codec.go and internal/config/paths.go: a reader that loses its master once.
use go_salt_events.Base.{
  Bool, Bytes, List, Option, [], arith, bytes_eq, codes, false, map, min, none, pos, refl, some,
  true, ℕ, ◌*◌, ◌∷◌, ◌≡◌,
}
use go_salt_events.Config.Paths.{base, clean_step, join_back, pub_socket_name, socket_path}
use go_salt_events.Config.Paths.Socket.{base-socket_path}
use go_salt_events.Saltipc.Frame.{eof, fails}
use go_salt_events.Saltipc.Value.{Value, bool_of, str}
use go_salt_events.Saltipc.Codec.{Decoder}
use go_salt_events.Saltipc.Reader.{
  Input, attach, consume_round, dial, dialled, dialling, gap, max_backoff, min_backoff, new_reader,
  read, refused, run, slept, step, step_at, wait_round, waiting,
}
use go_salt_events.Saltipc.Reader.Build.{build}
use go_salt_events.Saltipc.Reader.Wait.{run-redials}

-- A decoder of one fixed map, whatever the bytes are.
abbrev pub entries : List (Bytes × Value)
entries = (codes "id", str (codes "web")) ∷ (codes "success", bool_of true) ∷ []

abbrev next_key : List (Bytes × Value) → Option (Bytes × List (Bytes × Value))
next_key [] = none
next_key ((k, v) ∷ es) = some (k, (k, v) ∷ es)

abbrev next_value : List (Bytes × Value) → Option Value × List (Bytes × Value)
next_value [] = (none, [])
next_value ((k, v) ∷ es) = (some v, es)

abbrev next_skip : List (Bytes × Value) → Bool × List (Bytes × Value)
next_skip [] = (false, [])
next_skip (e ∷ es) = (true, es)

abbrev pub toy : Decoder
toy = record {
  Cursor = List (Bytes × Value);
  start = λ b. entries;
  map_len = λ c. some (pos 2, c);
  read_key = next_key;
  read_value = next_value;
  skip = next_skip;
  parse_stamp = λ s. none;
}

-- The socket opens, the stream ends, and two dials are refused, with a wake-up of the wait between.
abbrev pub second : ℕ
second = 1000000000

abbrev pub outage : List Input
outage =
    dialled (some pub_socket_name) true (1 * second)
    ∷ read (fails eof) false (2 * second)
    ∷ dialled none false (2 * second)
    ∷ []

base-socket_path_example :
    base (socket_path (codes "/run/salt/../master_event_pull.ipc/")) ≡ pub_socket_name
base-socket_path_example = base-socket_path (codes "/run/salt/../master_event_pull.ipc/")

opened : socket_path (codes "/run//salt/x/../") ≡ codes "/run/salt/master_event_pub.ipc"
unfolding socket_path clean_step join_back bytes_eq
opened = refl

run-redials_example :
    run (build toy) (record new_reader { phase = waiting min_backoff }) (map slept (5 ∷ [])) ≡ (
      record new_reader { phase = dialling; backoff = min (min_backoff * 2) max_backoff },
      gap 0 5 ∷ [],
    )
unfolding new_reader
run-redials_example =
    run-redials (build toy) new_reader min_backoff (5 ∷ []) (omega arith) (omega arith)
      (omega arith)

pub outage-waits : (run (build toy) new_reader outage).0.phase ≡ waiting min_backoff
unfolding run step step_at dial attach refused consume_round wait_round new_reader bytes_eq base
outage-waits = refl
