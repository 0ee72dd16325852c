-- ===== src/Export/JsonSafe.antt =====
-- internal/export/jsonsafe.go: a decoded payload, made into something that encodes as JSON.
pub mod Marshals
use go_salt_events.Base.{
  Bool, Bytes, Option, bytes_eq, codes, if◌then◌else◌, ltb, none, not, some, ℕ, ◌%◌, ◌+◌, ◌/◌, ◌==◌,
  ◌∷◌,
}
use go_salt_events.Saltipc.Value.{
  Fields, Items, Pairs, Value, cons, field_of, float32, float64, list_of, nil, no_fields, no_pairs,
  pair, str, typed, untyped,
}

abbrev pub max_json_depth : ℕ
max_json_depth = 32

-- Neither `math.IsNaN` nor `math.IsInf`: the exponent is not all ones.
unfoldable pub is_finite : ℕ → Bool
is_finite bits = not ((bits / 4503599627370496) % 2048 == 2047)

abbrev pub too_deep : Value
too_deep = str (226 ∷ 128 ∷ 166 ∷ codes "(nested too deeply to export)")

-- `out[key] = v`
unfoldable pub assign : Bytes → Value → Fields → Fields
assign k v no_fields = field_of k v no_fields
assign k v (field_of j w fs) =
    let rest = assign k v fs in if bytes_eq j k then field_of j v fs else field_of j w rest

-- What the code takes from Go's library: `fmt.Sprint`, the conversion of a float32, `FormatFloat` with the
-- shortest digits for so many bits, and `ParseFloat`.
pub record Formats : Type 0 where
  pub sprint : Value → Bytes
  pub widen : ℕ → ℕ
  pub format_float : ℕ → ℕ → Bytes
  pub parse_float : Bytes → Option ℕ

module _ (fm : Formats) where
  -- `finite`
  unfoldable pub finite : ℕ → ℕ → Value
  unfolding is_finite
  finite f bits =
      if not (is_finite f)
      then str (fm.format_float bits f)
      else if bits == 32
      then elim (fm.parse_float (fm.format_float 32 f)) [ none ↦ float64 f | some v ↦ float64 v ]
      else float64 f

  unfoldable mutual
    unfolding finite assign

    -- `jsonSafe`; the source does not go below a value that is too deep, and here that is dropped.
    pub json_safe : ℕ → Value → Value
    json_safe depth (untyped ps) =
        let out = safe_pairs (depth + 1) no_fields ps in
        if ltb max_json_depth depth then too_deep else typed out
    json_safe depth (typed fs) =
        let out = safe_fields (depth + 1) no_fields fs in
        if ltb max_json_depth depth then too_deep else typed out
    json_safe depth (list_of vs) =
        let out = safe_items (depth + 1) vs in
        if ltb max_json_depth depth then too_deep else list_of out
    json_safe depth (float64 f) = if ltb max_json_depth depth then too_deep else finite f 64
    json_safe depth (float32 f) =
        if ltb max_json_depth depth then too_deep else finite (fm.widen f) 32
    json_safe depth v = if ltb max_json_depth depth then too_deep else v

    -- Its three loops, at the depth of what they hold.
    pub safe_pairs : ℕ → Fields → Pairs → Fields
    safe_pairs depth out no_pairs = out
    safe_pairs depth out (pair k v ps) =
        safe_pairs depth (assign (fm.sprint k) (json_safe depth v) out) ps

    pub safe_fields : ℕ → Fields → Fields → Fields
    safe_fields depth out no_fields = out
    safe_fields depth out (field_of k v fs) =
        safe_fields depth (assign k (json_safe depth v) out) fs

    pub safe_items : ℕ → Items → Items
    safe_items depth nil = nil
    safe_items depth (cons v vs) = cons (json_safe depth v) (safe_items depth vs)
