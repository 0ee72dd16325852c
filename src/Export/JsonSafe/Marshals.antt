-- ===== src/Export/JsonSafe/Marshals.antt =====
-- internal/export/jsonsafe.go: what comes out encodes as JSON, and is not too deep.
use go_salt_events.Base.{
  Bool, Bool-cases, Bytes, Option-cases, arith, bytes_eq, either_way, false, inl, inr, ltb, some,
  suc, true, zero, ℕ, ℤ, ◌+◌, ◌==◌, ◌≡◌,
}
use go_salt_events.Saltipc.Value.{
  Fields, Items, Pairs, Value, cons, field_of, float32, float64, list_of, nil, no_fields, no_pairs,
  pair, time_of, typed, untyped,
}
use go_salt_events.Export.JsonSafe.{
  Formats, assign, finite, is_finite, json_safe, max_json_depth, safe_fields, safe_items,
  safe_pairs,
}

-- Every `time.Time` in the value, beside those in keys, is one whose `MarshalJSON` does not fail.
unfoldable mutual
  pub Dated : (ℤ → Bool) → Value → Type 0
  Dated encodes (time_of t) = encodes t ≡ true
  Dated encodes (list_of vs) = DatedItems encodes vs
  Dated encodes (untyped ps) = DatedPairs encodes ps
  Dated encodes (typed fs) = DatedFields encodes fs
  Dated encodes v = Unit {0}

  pub DatedItems : (ℤ → Bool) → Items → Type 0
  DatedItems encodes nil = Unit {0}
  DatedItems encodes (cons v vs) = Dated encodes v × DatedItems encodes vs

  pub DatedPairs : (ℤ → Bool) → Pairs → Type 0
  DatedPairs encodes no_pairs = Unit {0}
  DatedPairs encodes (pair k v ps) = Dated encodes v × DatedPairs encodes ps

  pub DatedFields : (ℤ → Bool) → Fields → Type 0
  DatedFields encodes no_fields = Unit {0}
  DatedFields encodes (field_of k v fs) = Dated encodes v × DatedFields encodes fs

-- `encoding/json` takes the value: no map in it has keys that are not texts, no float is NaN or infinite,
-- every time in it encodes, and lists and maps stand in one another at most `n` deep.
mutual
  pub Marshals : (ℤ → Bool) → ℕ → Value → Type 0
  Marshals encodes n (time_of t) = encodes t ≡ true
  Marshals encodes n (float64 f) = is_finite f ≡ true
  Marshals encodes n (float32 f) = is_finite f ≡ true
  Marshals encodes n (untyped ps) = ⊥
  Marshals encodes zero (typed fs) = ⊥
  Marshals encodes zero (list_of vs) = ⊥
  Marshals encodes (suc n) (typed fs) = EachField encodes n fs
  Marshals encodes (suc n) (list_of vs) = EachItem encodes n vs
  Marshals encodes n v = Unit {0}

  pub EachField : (ℤ → Bool) → ℕ → Fields → Type 0
  EachField encodes n no_fields = Unit {0}
  EachField encodes n (field_of k v fs) = Marshals encodes n v × EachField encodes n fs

  pub EachItem : (ℤ → Bool) → ℕ → Items → Type 0
  EachItem encodes n nil = Unit {0}
  EachItem encodes n (cons v vs) = Marshals encodes n v × EachItem encodes n vs

assign-EachField :
    (encodes : ℤ → Bool) (n : ℕ) (k : Bytes) (v : Value) (fs : Fields)
    → Marshals encodes n v
    → EachField encodes n fs
    → EachField encodes n (assign k v fs)
unfolding assign EachField
assign-EachField encodes n k v no_fields m h = (m, tt)
assign-EachField encodes n k v (field_of j w fs) m h =
    either_way (EachField encodes n) (bytes_eq j k) (m, h.1)
      (h.0, assign-EachField encodes n k v fs m h.1)

-- `ParseFloat` reads back the text of a finite float as a finite one.
abbrev pub ReadsBack : Formats → Type 0
ReadsBack fm =
    (f v : ℕ)
    → is_finite f ≡ true
    → fm.parse_float (fm.format_float 32 f) ≡ some v
    → is_finite v ≡ true

module _ (fm : Formats) (reads_back : ReadsBack fm) (encodes : ℤ → Bool) where
  finite-Marshals : (n f bits : ℕ) → Marshals encodes n (finite fm f bits)
  unfolding finite Marshals
  finite-Marshals n f bits = elim (Bool-cases (is_finite f)) [
    | inr odd ↦ rw (finite, odd) tt
    | inl ok ↦ elim (Bool-cases (bits == 32)) [
      | inr wide ↦ rw (finite, ok, wide) ok
      | inl narrow ↦ elim (Option-cases (fm.parse_float (fm.format_float 32 f))) [
        | inl bad ↦ rw (finite, ok, narrow, bad) ok
        | inr (v, good) ↦ rw (finite, ok, narrow, good) (reads_back f v ok good)
      ]
    ]
  ]

  below : (n depth : ℕ) → suc n + depth ≡ 33 → ltb max_json_depth depth ≡ false
  below n depth h = ground arith

  at_bound : (depth : ℕ) → 0 + depth ≡ 33 → ltb max_json_depth depth ≡ true
  at_bound depth h = ground arith

  mutual
    unfolding json_safe Marshals Dated

    json_safe-Marshals :
        (n depth : ℕ) (v : Value)
        → n + depth ≡ 33
        → Dated encodes v
        → Marshals encodes n (json_safe fm depth v)
    json_safe-Marshals zero depth (untyped ps) h d = rw (at_bound depth h) tt
    json_safe-Marshals zero depth (typed fs) h d = rw (at_bound depth h) tt
    json_safe-Marshals zero depth (list_of vs) h d = rw (at_bound depth h) tt
    json_safe-Marshals (suc n) depth (untyped ps) h d =
        rw (below n depth h) (safe_pairs-EachField n (depth + 1) no_fields ps (omega arith) d tt)
    json_safe-Marshals (suc n) depth (typed fs) h d =
        rw (below n depth h) (safe_fields-EachField n (depth + 1) no_fields fs (omega arith) d tt)
    json_safe-Marshals (suc n) depth (list_of vs) h d =
        rw (below n depth h) (safe_items-EachItem n (depth + 1) vs (omega arith) d)
    json_safe-Marshals n depth (float64 f) h d =
        either_way (Marshals encodes n) (ltb max_json_depth depth) tt (finite-Marshals n f 64)
    json_safe-Marshals n depth (float32 f) h d =
        either_way (Marshals encodes n) (ltb max_json_depth depth) tt
          (finite-Marshals n (fm.widen f) 32)
    json_safe-Marshals n depth (time_of t) h d =
        either_way (Marshals encodes n) (ltb max_json_depth depth) tt d
    json_safe-Marshals n depth v h d =
        either_way (Marshals encodes n) (ltb max_json_depth depth) tt tt

    safe_pairs-EachField :
        (n depth : ℕ) (out : Fields) (ps : Pairs)
        → n + depth ≡ 33
        → DatedPairs encodes ps
        → EachField encodes n out
        → EachField encodes n (safe_pairs fm depth out ps)
    safe_pairs-EachField n depth out no_pairs h d e = e
    safe_pairs-EachField n depth out (pair k v ps) h (d, ds) e =
        safe_pairs-EachField n depth (assign (fm.sprint k) (json_safe fm depth v) out) ps h ds (
          assign-EachField encodes n (fm.sprint k) (json_safe fm depth v) out
            (json_safe-Marshals n depth v h d) e)

    safe_fields-EachField :
        (n depth : ℕ) (out fs : Fields)
        → n + depth ≡ 33
        → DatedFields encodes fs
        → EachField encodes n out
        → EachField encodes n (safe_fields fm depth out fs)
    safe_fields-EachField n depth out no_fields h d e = e
    safe_fields-EachField n depth out (field_of k v fs) h (d, ds) e =
        safe_fields-EachField n depth (assign k (json_safe fm depth v) out) fs h ds (
          assign-EachField encodes n k (json_safe fm depth v) out (json_safe-Marshals n depth v h d)
            e)

    safe_items-EachItem :
        (n depth : ℕ) (vs : Items)
        → n + depth ≡ 33
        → DatedItems encodes vs
        → EachItem encodes n (safe_items fm depth vs)
    safe_items-EachItem n depth nil h d = tt
    safe_items-EachItem n depth (cons v vs) h (d, ds) =
        (json_safe-Marshals n depth v h d, safe_items-EachItem n depth vs h ds)

  -- What `encode` hands to `encoding/json` is something that it takes, whatever a minion sent, as long as every
  -- `time.Time` in it is one that encodes, which one after the year 9999 is not: every map has keys that are
  -- texts, no float in it is NaN or infinite, and it is at most 33 levels deep. The other hypothesis is that
  -- `ParseFloat` reads the text of a finite float as a finite one.
  pub json_safe_top-Marshals :
      (v : Value) → Dated encodes v → Marshals encodes 33 (json_safe fm 0 v)
  json_safe_top-Marshals v d = json_safe-Marshals 33 0 v (omega arith) d
