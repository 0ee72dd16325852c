-- ===== src/Saltipc/Codec.antt =====
-- internal/saltipc/codec.go: the fields that ingest extracts from a payload.
pub mod Extract
use go_salt_events.Base.{
  Bool, Bytes, Option, [], bytes_eq, codes, false, if◌then◌else◌, ltb, negsuc, none, pos, some, suc,
  true, zero, ℕ, ℤ, ◌%◌, ◌&&◌, ◌++◌, ◌+◌, ◌/◌, ◌==◌, ◌||◌, ◌∷◌,
}
use go_salt_events.Model.Event.{Time, start}
use go_salt_events.Saltipc.Value.{IntKind, Value, bool_of, int64, int_of, str, uint64}

abbrev pub trimmed_marker : Bytes
trimmed_marker = codes "VALUE_TRIMMED"

pub record Fields : Type 0 where
  pub id : Bytes
  pub jid : Bytes
  pub fun : Bytes
  pub ret_code : ℤ
  pub success : Bool
  pub has_success : Bool
  pub has_ret : Bool
  pub stamp : Time

abbrev pub blank : Fields
blank = record {
  id = [];
  jid = [];
  fun = [];
  ret_code = pos 0;
  success = false;
  has_success = false;
  has_ret = false;
  stamp = 0;
}

-- A `*msgpack.Decoder` as the code uses it: each call reads from a cursor and moves it, also where it
-- reports an error, which is `none` or `false`. `parse_stamp` is `time.Parse` at the layout of `_stamp`.
pub record Decoder : Type 1 where
  pub Cursor : Type 0
  pub start : Bytes → Cursor
  pub map_len : Cursor → Option (ℤ × Cursor)
  pub read_key : Cursor → Option (Bytes × Cursor)
  pub read_value : Cursor → Option Value × Cursor
  pub skip : Cursor → Bool × Cursor
  pub parse_stamp : Bytes → Option Time

-- The assertions of `decodeStringField`, `decodeBoolField` and `decodeIntField` on what was read.
abbrev pub as_string : Option Value → Bytes
as_string (some (str s)) = s
as_string _ = []

abbrev pub as_bool : Option Value → Option Bool
as_bool (some (bool_of b)) = some b
as_bool _ = none

abbrev pub max_int64 : ℕ
max_int64 = 9223372036854775807

-- What `decodeIntField` makes of an integer: a uint64 above the largest int64 is refused.
unfoldable pub narrow : IntKind → ℤ → Option ℤ
narrow uint64 (pos n) = if ltb max_int64 n then none else some (pos n)
narrow uint64 (negsuc n) = some (negsuc n)
narrow _ n = some n

unfoldable pub as_int : Option Value → Option ℤ
unfolding narrow
as_int (some (int_of k n)) = narrow k n
as_int _ = none

-- Decimal digits; the fuel is the number of digits that there can be, 20 for 64 bits.
unfoldable pub digits : ℕ → ℕ → Bytes
digits zero n = []
digits (suc f) n =
    let front = digits f (n / 10) in
    let last = b'0' + n % 10 in if ltb n 10 then last ∷ [] else front ++ last ∷ []

-- `FormatInt` and `FormatUint` in base 10.
unfoldable pub format_int : ℤ → Bytes
unfolding digits
format_int (pos n) = digits 20 n
format_int (negsuc n) = b'-' ∷ digits 20 (n + 1)

-- `decodeJID` on what was read.
unfoldable pub as_jid : Option Value → Bytes
unfolding format_int
as_jid (some (str s)) = s
as_jid (some (int_of int64 n)) = format_int n
as_jid (some (int_of uint64 n)) = format_int n
as_jid _ = []

-- The keys that are extracted.
pub data Key : Type 0 where
  id jid fun ret_code success returned stamp unknown : Key

unfoldable pub key_of : Bytes → Key
key_of k =
    if bytes_eq k (codes "id")
    then Key.id
    else if bytes_eq k (codes "jid")
    then Key.jid
    else if bytes_eq k (codes "fun")
    then Key.fun
    else if bytes_eq k (codes "retcode")
    then Key.ret_code
    else if bytes_eq k (codes "success")
    then Key.success
    else if bytes_eq k (codes "return")
    then Key.returned
    else if bytes_eq k (codes "_stamp")
    then Key.stamp
    else Key.unknown

module _ (d : Decoder) where
  open d use {Cursor, start, map_len, read_key, read_value, skip, parse_stamp}

  -- What `extractOne` writes for a key whose value is read.
  unfoldable pub write_field : Key → Option Value → Fields → Fields
  unfolding as_jid as_int
  write_field Key.id v f = record f { id = as_string v }
  write_field Key.jid v f = record f { jid = as_jid v }
  write_field Key.fun v f = record f { fun = as_string v }
  write_field Key.ret_code v f = elim (as_int v) [ none ↦ f | some n ↦ record f { ret_code = n } ]
  write_field Key.success v f = elim (as_bool v) [
    | none ↦ f
    | some b ↦ record f { success = b; has_success = true }
  ]
  write_field Key.stamp v f = elim (as_string v) [
    | [] ↦ f
    | c ∷ s ↦ elim (parse_stamp (c ∷ s)) [ none ↦ f | some t ↦ record f { stamp = t } ]
  ]
  write_field Key.returned v f = f
  write_field Key.unknown v f = f

  -- `extractOne`: whether it succeeded, where it leaves the cursor, and the fields.
  unfoldable pub extract_one : Key → Cursor → Fields → Bool × Cursor × Fields
  unfolding write_field
  extract_one Key.returned c f = let (done, c') = skip c in (done, c', record f { has_ret = true })
  extract_one Key.unknown c f = let (done, c') = skip c in (done, c', f)
  extract_one k c f = let (v, c') = read_value c in (true, c', write_field k v f)

  -- The loop of `ExtractFields`, over the entries left.
  unfoldable pub extract_loop : ℕ → Cursor → Fields → Fields
  extract_loop zero c f = f
  extract_loop (suc n) c f = elim (read_key c) [
    | none ↦ f
    | some (k, c') ↦
        let one = extract_one (key_of k) c' f in
        elim one.0 [ false ↦ one.2 | true ↦ extract_loop n one.1 one.2 ]
  ]

  -- `ExtractFields`
  unfoldable pub extract_fields : Bytes → Fields
  unfolding extract_loop
  extract_fields [] = blank
  extract_fields (b ∷ payload) = elim (map_len (start (b ∷ payload))) [
    | none ↦ blank
    | some (pos n, c) ↦ extract_loop n c blank
    | some (negsuc _, c) ↦ blank
  ]

-- `bytes.HasPrefix` and `bytes.Contains`
unfoldable pub has_prefix : Bytes → Bytes → Bool
has_prefix [] s = true
has_prefix (_ ∷ _) [] = false
has_prefix (p ∷ ps) (c ∷ s) = (p == c) && has_prefix ps s

unfoldable pub contains : Bytes → Bytes → Bool
unfolding has_prefix
contains p [] = has_prefix p []
contains p (c ∷ s) = has_prefix p (c ∷ s) || contains p s

-- `IsMasterTrimmed`
unfoldable pub is_master_trimmed : Bytes → Bool
unfolding contains
is_master_trimmed payload = contains trimmed_marker payload
