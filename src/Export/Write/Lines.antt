-- ===== src/Export/Write/Lines.antt =====
-- internal/export/export.go: what the file system holds after each operation, and what streaming writes.
use go_salt_events.Saltipc.Value.{Value}
use go_salt_events.Export.Options.{ExportError, Library, not_closed, not_synced}
use go_salt_events.Model.Event.{Event}
use go_salt_events.Base.{
  Bool-cases, Bytes, List, Option, Option-cases, [], ap, append-nil, append_assoc, arith, bytes_eq,
  bytes_eq→eq, either_way, exceeds, false, if◌then◌else◌, inl, inr, length, none, not, refl, some,
  sym, ℕ, ℤ, ◌++◌, ◌+◌, ◌∙◌, ◌∷◌, ◌≡◌, ◌⊎◌,
}
use go_salt_events.Export.Write.{encode, stream, write_all}
use go_salt_events.Export.Disk.{Disk, System, find, find-overwrite, find-remove, overwrite, remove}

-- Every path reads as it did.
abbrev pub Kept : Disk → Disk → Type 0
Kept d d' = (p : Bytes) → find d' p ≡ find d p

-- A path has this content, and every other path reads as it did.
abbrev pub Adds : Disk → Bytes → Bytes → Disk → Type 0
Adds d path content d' =
    (p : Bytes) → find d' p ≡ (if bytes_eq path p then some content else find d p)

pub removed-Kept :
    (d : Disk) (q b c : Bytes)
    → find d q ≡ none
    → Kept d (remove (overwrite (overwrite d q b) q c) q)
removed-Kept d q b c free p = ground (
  arith,
  find-remove (overwrite (overwrite d q b) q c) q p,
  find-overwrite (overwrite d q b) q p c,
  find-overwrite d q p b,
  bytes_eq→eq q p,
  ap (find d) (refl {a = p}),
  free,
)

pub replaced-Adds :
    (d : Disk) (q b c path : Bytes)
    → find d q ≡ none
    → Adds d path c (overwrite (remove (overwrite (overwrite d q b) q c) q) path c)
replaced-Adds d q b c path free p = ground (
  arith,
  find-overwrite (remove (overwrite (overwrite d q b) q c) q) path p c,
  removed-Kept d q b c free p,
)

module _ (lib : Library) (decode : Bytes → Option Value) where
  -- The lines of the events, in order, if each can be encoded.
  unfoldable pub all_lines : List Event → Option Bytes
  all_lines [] = some []
  all_lines (e ∷ es) = elim (encode lib decode e) [
    | none ↦ none
    | some line ↦ elim (all_lines es) [ none ↦ none | some more ↦ some (line ++ more) ]
  ]

  -- What streaming says: all lines are out, within the limit, or there is an error.
  abbrev pub Streams : ℤ → Bytes → List Event → Bytes ⊎ ExportError → Type 0
  Streams limit out es (inl c) =
      (rest : Bytes) × (all_lines es ≡ some rest)
      × (c ≡ out ++ rest)
      × (exceeds (length c) limit ≡ false)
  Streams limit out es (inr err) = Unit {0}

  Streams-cons :
      (limit : ℤ) (out line : Bytes) (e : Event) (es : List Event) (r : Bytes ⊎ ExportError)
      → encode lib decode e ≡ some line
      → Streams limit (out ++ line) es r
      → Streams limit out (e ∷ es) r
  unfolding all_lines
  Streams-cons limit out line e es (inr err) eq h = tt
  Streams-cons limit out line e es (inl c) eq (rest, lines, is, fits) =
      (line ++ rest, rw (all_lines, eq, lines) refl, is ∙ append_assoc out line rest, fits)

  stream-Streams :
      (sys : System) (limit : ℤ) (n : ℕ) (out : Bytes) (es : List Event)
      → exceeds (length out) limit ≡ false
      → Streams limit out es (stream lib sys decode limit n out es)
  unfolding stream all_lines
  stream-Streams sys limit n out [] fits =
      either_way (Streams limit out []) sys.flushes ([], refl, sym (append-nil out), fits) tt
  stream-Streams sys limit n out (e ∷ es) fits = elim (Option-cases (encode lib decode e)) [
    | inl bad ↦ rw (stream, bad) tt
    | inr (line, good) ↦
        let S = Streams limit out (e ∷ es) in
        rw (stream, good)
          (either_way S (not (sys.writes n)) tt
            (elim (Bool-cases (exceeds (length (out ++ line)) limit)) [
              | inl over ↦ rw over tt
              | inr under ↦ rw under (
                  Streams-cons limit out line e es
                    (stream lib sys decode limit (n + 1) (out ++ line) es) good
                    (stream-Streams sys limit (n + 1) (out ++ line) es under))
            ]))
  ]

  pub write_all-Streams :
      (sys : System) (limit : ℤ) (es : List Event)
      → exceeds 0 limit ≡ false
      → Streams limit [] es (write_all lib sys decode limit es)
  unfolding write_all
  write_all-Streams sys limit es fits =
      step (stream lib sys decode limit 0 [] es) (stream-Streams sys limit 0 [] es fits)
    where
      step :
          (r : Bytes ⊎ ExportError)
          → Streams limit [] es r
          → Streams limit [] es (elim r [
            | inr err ↦ inr err
            | inl out ↦
                if not sys.syncs
                then inr not_synced
                else if not sys.closes
                then inr not_closed
                else inl out
          ])
      step (inr err) h = tt
      step (inl out) h =
          either_way (Streams limit [] es) (not sys.syncs) tt
            (either_way (Streams limit [] es) (not sys.closes) tt h)
