-- ===== src/Saltipc/Reader.antt =====
-- internal/saltipc/reader.go: `Run` as a state machine. The state says where the goroutine stands; an
-- input is what the world answers there; a step yields the calls that it makes on the sink.
pub mod Build
pub mod Wait
pub mod Trace
use go_salt_events.Base.{
  Bool, Bytes, List, Option, [], bytes_eq, false, if◌then◌else◌, min, none, not, some, true, ℕ, ◌*◌,
  ◌++◌, ◌-◌, ◌==◌, ◌||◌, ◌∷◌,
}
use go_salt_events.Model.Event.{Event, Time}
use go_salt_events.Stats.Rings.{gap_report_interval}
use go_salt_events.Config.Paths.{base, pub_socket_name}
use go_salt_events.Saltipc.Frame.{
  Frame, FrameError, Outcome, bad_msgpack, eof, fails, frame_too_large, got, no_body, no_delimiter,
  read_body, read_prefix,
}

-- Durations are in nanoseconds.
abbrev pub min_backoff : ℕ
min_backoff = 250000000

abbrev pub max_backoff : ℕ
max_backoff = 5000000000

abbrev pub gap_refresh : ℕ
gap_refresh = gap_report_interval

pub data DialError : Type 0 where
  not_pub_socket : DialError
  not_connected : DialError

-- The methods of `Sink`.
pub data Call : Type 0 where
  event : Event → Call
  gap : Time → Time → Call
  decode_error : FrameError → Call
  attached : Bool → Call

-- Where `Run` stands: before the select and the dial; in `waitToRetry`, with the time that remains, in
-- the sleep; in `consume`, before a frame; or returned.
pub data Phase : Type 0 where
  dialling : Phase
  waiting : ℕ → Phase
  reading : Phase
  returned : Option DialError → Phase

pub record Reader : Type 0 where
  pub phase : Phase
  pub backoff : ℕ
  pub connected : Bool
  pub lost_at : Time

-- What the world answers: `ctx` is done; the path resolves to a path or does not resolve, and the
-- connect succeeds or fails; the timer fires; a frame is read, with whether `ctx` is done by then. Each
-- with the clock's reading.
pub data Input : Type 0 where
  cancelled : Input
  dialled : Option Bytes → Bool → Time → Input
  slept : Time → Input
  read : Outcome → Bool → Time → Input

-- The start of `Run`.
unfoldable pub new_reader : Reader
new_reader = record { phase = dialling; backoff = min_backoff; connected = false; lost_at = 0 }

-- `verifyPubSocket` and `dial`: the error, if any.
unfoldable pub dial : Option Bytes → Bool → Option DialError
dial none connects = if connects then none else some not_connected
dial (some resolved) connects =
    if not (bytes_eq (base resolved) pub_socket_name)
    then some not_pub_socket
    else if connects
    then none
    else some not_connected

-- `errors.Is(err, io.EOF) || errors.Is(err, ErrFrameTooLarge)`
unfoldable pub ends_stream : FrameError → Bool
ends_stream eof = true
ends_stream read_prefix = true
ends_stream frame_too_large = true
ends_stream no_body = true
ends_stream read_body = false
ends_stream bad_msgpack = false
ends_stream no_delimiter = false

-- One round of `waitToRetry` with `remaining` left, and what `Run` does once it is over.
unfoldable pub wait_round : Reader → ℕ → Time → Reader × List Call
wait_round r remaining now =
    let next_state =
      if remaining == 0
      then record r { phase = dialling; backoff = min (r.backoff * 2) max_backoff }
      else record r { phase = waiting remaining } in
    (next_state, gap r.lost_at now ∷ [])

-- How long `waitToRetry` sleeps with `remaining` left.
unfoldable pub pause : ℕ → ℕ
pause remaining = min remaining gap_refresh

abbrev pub is_not_pub : DialError → Bool
is_not_pub not_pub_socket = true
is_not_pub not_connected = false

-- `Run` after a dial that failed.
unfoldable pub refused : Reader → DialError → Time → Reader × List Call
unfolding wait_round
refused r err now =
    if not r.connected || is_not_pub err
    then (record r { phase = returned (some err) }, attached false ∷ [])
    else let (r', calls) = wait_round r r.backoff now in (r', attached false ∷ calls)

-- `Run` after a dial that succeeded.
unfoldable pub attach : Reader → Time → Reader × List Call
attach r now = (
  record r { phase = reading; backoff = min_backoff; connected = true },
  attached true ∷ (if r.connected then gap r.lost_at now ∷ [] else []),
)

-- The end of `consume`, and the call of `Run` after it.
unfoldable pub lose : Reader → Time → Reader × List Call
lose r now = (record r { phase = dialling; lost_at = now }, attached false ∷ [])

-- `build` is the method of that name, which takes the clock's reading first.
module _ (build : Time → Frame → Event) where
  -- One round of the loop of `consume`.
  unfoldable pub consume_round : Reader → Outcome → Bool → Time → Reader × List Call
  unfolding lose ends_stream
  consume_round r (got f) done now = (r, event (build now f) ∷ [])
  consume_round r (fails err) done now =
      if ends_stream err || done then lose r now else (r, decode_error err ∷ [])

  -- An answer to a question that is not asked where `Run` stands changes nothing: there is none such.
  unfoldable pub step_at : Phase → Reader → Input → Reader × List Call
  unfolding dial refused attach consume_round wait_round
  step_at dialling r cancelled = (record r { phase = returned none }, [])
  step_at dialling r (dialled resolved connects now) = elim (dial resolved connects) [
    | some err ↦ refused r err now
    | none ↦ attach r now
  ]
  step_at (waiting remaining) r cancelled = (record r { phase = returned none }, [])
  step_at (waiting remaining) r (slept now) = wait_round r (remaining - gap_refresh) now
  step_at reading r (read outcome done now) = consume_round r outcome done now
  step_at _ r _ = (r, [])

  unfoldable pub step : Reader → Input → Reader × List Call
  unfolding step_at
  step r i = step_at r.phase r i

  -- `Run`, against the answers of a list.
  unfoldable pub run : Reader → List Input → Reader × List Call
  unfolding step
  run r [] = (r, [])
  run r (i ∷ is) = let (r', calls) = step r i in let (r'', more) = run r' is in (r'', calls ++ more)
