-- ===== src/Model/Event.antt =====
-- internal/model/event.go: one message off the bus, and its cost against the memory budget.
use go_salt_events.Base.{Bool, Bytes, Option, codes, length, none, some, ℕ, ℤ, ◌+◌}

-- Nanoseconds since Go's zero instant, which is 0.
abbrev pub Time : Type 0
Time = ℕ

pub data Kind : Type 0 where
  other new ret prog start auth key presence : Kind

-- `Kind.String`
abbrev pub kind_string : Kind → Bytes
kind_string Kind.new = codes "new"
kind_string Kind.ret = codes "ret"
kind_string Kind.prog = codes "prog"
kind_string Kind.start = codes "start"
kind_string Kind.auth = codes "auth"
kind_string Kind.key = codes "key"
kind_string Kind.presence = codes "presence"
kind_string Kind.other = codes "other"

pub record Event : Type 0 where
  pub arrival : Time
  pub stamp : Time
  pub tag : Bytes
  pub namespace : Bytes
  pub category : Bytes
  pub jid : Bytes
  pub minion : Bytes
  pub fun : Bytes
  pub kind : Kind
  pub ret_code : ℤ
  pub success : Bool
  pub has_ret : Bool
  -- `none` is the nil slice.
  pub payload : Option Bytes
  pub shed : Bool
  pub master_trimmed : Bool

-- `len` of a slice that may be nil.
abbrev pub payload_len : Option Bytes → ℕ
payload_len none = 0
payload_len (some p) = length p

abbrev pub per_event_overhead : ℕ
per_event_overhead = 256

unfoldable pub size : Event → ℕ
size e = length e.tag + payload_len e.payload + per_event_overhead
