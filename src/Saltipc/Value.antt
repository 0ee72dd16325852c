-- ===== src/Saltipc/Value.antt =====
-- The values that a payload decodes to, as the program tells them apart (internal/saltipc/codec.go,
-- internal/export/jsonsafe.go, cmd/salt-events/hub.go): what the msgpack library puts into an `any`.
use go_salt_events.Base.{Bool, Bytes, ℕ, ℤ}

pub data IntKind : Type 0 where
  int8 int16 int32 int64 uint8 uint16 uint32 uint64 : IntKind

-- A float is its bits, 64 or 32 of them. `untyped` is `map[interface{}]interface{}` and `typed` is
-- `map[string]interface{}`. A `time.Time` is its nanoseconds since Go's zero instant.
mutual
  pub data Value : Type 0 where
    null : Value
    bool_of : Bool → Value
    int_of : IntKind → ℤ → Value
    float64 : ℕ → Value
    float32 : ℕ → Value
    str : Bytes → Value
    bin : Bytes → Value
    list_of : Items → Value
    untyped : Pairs → Value
    typed : Fields → Value
    time_of : ℤ → Value

  pub data Items : Type 0 where
    nil : Items
    cons : Value → Items → Items

  pub data Pairs : Type 0 where
    no_pairs : Pairs
    pair : Value → Value → Pairs → Pairs

  pub data Fields : Type 0 where
    no_fields : Fields
    field_of : Bytes → Value → Fields → Fields
