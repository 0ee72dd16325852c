-- ===== src/Saltipc/Codec/Extract.antt =====
-- internal/saltipc/codec.go: what the extraction makes of a payload that decodes.
use go_salt_events.Base.{Bytes, List, [], ap, length, pos, refl, some, true, ℕ, ◌∷◌, ◌≡◌}
use go_salt_events.Saltipc.Value.{Value}
use go_salt_events.Saltipc.Codec.{
  Decoder, Fields, Key, blank, extract_fields, extract_loop, extract_one, key_of, write_field,
}

-- The cursor stands before the entries of a map: a key is read as its text, and a value is left behind
-- whole, whether it is read or skipped.
abbrev pub Yields : (d : Decoder) → d.Cursor → List (Bytes × Value) → Type 0
Yields d c [] = Unit {0}
Yields d c ((k, v) ∷ es) =
    (c' : d.Cursor) × (after : d.Cursor) × (d.read_key c ≡ some (k, c'))
    × (d.read_value c' ≡ (some v, after))
    × (d.skip c' ≡ (true, after))
    × Yields d after es

-- What one entry adds: its value where the key is indexed, and for `return` only that it is there.
abbrev pub take_entry : Decoder → Key → Value → Fields → Fields
take_entry d Key.returned v f = record f { has_ret = true }
take_entry d Key.unknown v f = f
take_entry d k v f = write_field d k (some v) f

abbrev pub take_entries : Decoder → List (Bytes × Value) → Fields → Fields
take_entries d [] f = f
take_entries d ((k, v) ∷ es) f = take_entries d es (take_entry d (key_of k) v f)

extract_one-take :
    (d : Decoder) (k : Key) (v : Value) (c after : d.Cursor) (f : Fields)
    → d.read_value c ≡ (some v, after)
    → d.skip c ≡ (true, after)
    → extract_one d k c f ≡ (true, after, take_entry d k v f)
unfolding extract_one write_field
extract_one-take d Key.returned v c after f reads skips = rw (extract_one, skips) refl
extract_one-take d Key.unknown v c after f reads skips = rw (extract_one, skips) refl
extract_one-take d k v c after f reads skips = rw (extract_one, reads) refl

extract_loop-take :
    (d : Decoder) (es : List (Bytes × Value)) (c : d.Cursor) (f : Fields)
    → Yields d c es
    → extract_loop d (length es) c f ≡ take_entries d es f
unfolding extract_loop
extract_loop-take d [] c f h = refl
extract_loop-take d ((k, v) ∷ es) c f (c', after, key, reads, skips, more) =
    let one = extract_one-take d (key_of k) v c' after f reads skips in
    rw (extract_loop, key, ap (λ x. x.0) one)
      (rw (ap (λ x. x.1) one, ap (λ x. x.2) one)
        (extract_loop-take d es after (take_entry d (key_of k) v f) more))

-- A payload that is a map is read to its end: every entry counts for its own key, whatever the values
-- of the others are, and a value of an unexpected type or one that is skipped costs no other field.
pub extract_fields-take :
    (d : Decoder) (b : ℕ) (payload : Bytes) (es : List (Bytes × Value)) (c : d.Cursor)
    → d.map_len (d.start (b ∷ payload)) ≡ some (pos (length es), c)
    → Yields d c es
    → extract_fields d (b ∷ payload) ≡ take_entries d es blank
unfolding extract_fields
extract_fields-take d b payload es c opens h =
    rw (extract_fields, opens) (extract_loop-take d es c blank h)
