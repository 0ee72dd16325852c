-- ===== src/Saltipc/Frame/Resync.antt =====
-- internal/saltipc/frame.go: a frame is read back as it was sent, and a bad one costs only itself.
use go_salt_events.Base.{
  Bytes, Option, [], arith, drop, false, length, length-append, refl, some, take, ℕ, ◌%◌, ◌&&◌,
  ◌++◌, ◌/◌, ◌<◌, ◌==◌, ◌∙◌, ◌∷◌, ◌≡◌, ◌≢◌, ◌≤◌,
}
use go_salt_events.Saltipc.Frame.{
  decode_frame, got, max_frame_size, next, next_body, split_tagend, uint32_of,
}

-- The length prefix of a frame, as the master writes it.
abbrev pub prefix_of : ℕ → Bytes
prefix_of n = n / 16777216 ∷ (n / 65536) % 256 ∷ (n / 256) % 256 ∷ n % 256 ∷ []

uint32_of-prefix :
    (n : ℕ) → uint32_of (n / 16777216) ((n / 65536) % 256) ((n / 256) % 256) (n % 256) ≡ n
unfolding uint32_of
uint32_of-prefix n = omega arith

take-append_all : (xs ys : Bytes) → take (length xs) (xs ++ ys) ≡ xs
take-append_all [] ys = ground arith
take-append_all (x ∷ xs) ys = rw (take-append_all xs ys) refl

drop-append_all : (xs ys : Bytes) → drop (length xs) (xs ++ ys) ≡ ys
drop-append_all [] ys = refl
drop-append_all (x ∷ xs) ys = drop-append_all xs ys

-- Whatever the body of a frame holds, reading it takes exactly the frame off the stream, and its answer
-- depends on that body alone: one malformed event does not desync the reader.
pub next-prefix :
    (unmarshal : Bytes → Option Bytes) (body rest : Bytes)
    → 0 < length body
    → length body ≤ max_frame_size
    → next unmarshal (prefix_of (length body) ++ body ++ rest) ≡ (decode_frame unmarshal body, rest)
unfolding next next_body
next-prefix unmarshal body rest some_body le =
    rw
      (
        uint32_of-prefix (length body),
        take-append_all body rest,
        drop-append_all body rest,
        length-append body rest,
      )
      (ground arith)

-- A tag in which no separator starts, not even with its last byte.
abbrev pub NoTagend : Bytes → Type 0
NoTagend [] = Unit {0}
NoTagend (a ∷ []) = a ≢ b'\n'
NoTagend (a ∷ b ∷ s) = (((a == b'\n') && (b == b'\n')) ≡ false) × NoTagend (b ∷ s)

split_tagend-append :
    (tag payload : Bytes)
    → NoTagend tag
    → split_tagend (tag ++ b'\n' ∷ b'\n' ∷ payload) ≡ some (tag, payload)
unfolding split_tagend
split_tagend-append [] payload h = refl
split_tagend-append (a ∷ []) payload h = ground (arith, h)
split_tagend-append (a ∷ b ∷ s) payload h = rw (h.0, split_tagend-append (b ∷ s) payload h.1) refl

-- A frame with a body of at least one byte and at most 64 MiB, and with a tag that neither holds a
-- separator nor ends in a newline, comes back with the tag and the payload that were sent, however many
-- separators the payload holds, and the next frame is read from where this one ends.
pub next-got :
    (unmarshal : Bytes → Option Bytes) (packed tag payload rest : Bytes)
    → unmarshal packed ≡ some (tag ++ b'\n' ∷ b'\n' ∷ payload)
    → NoTagend tag
    → 0 < length packed
    → length packed ≤ max_frame_size
    → next unmarshal (prefix_of (length packed) ++ packed ++ rest)
      ≡ (got (record { tag = tag; payload = payload }), rest)
unfolding decode_frame
next-got unmarshal packed tag payload rest sent clean some_body le =
    next-prefix unmarshal packed rest some_body le
    ∙ rw (decode_frame, sent, split_tagend-append tag payload clean) refl
