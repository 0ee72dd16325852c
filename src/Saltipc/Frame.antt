-- ===== src/Saltipc/Frame.antt =====
-- internal/saltipc/frame.go: the framing of the bus. The stream is the list of the bytes that it still
-- yields before it ends, and `unmarshal` stands for the msgpack library: the `body` of a frame, or
-- nothing where it reports an error.
pub mod Resync
use go_salt_events.Base.{
  Bytes, Option, [], drop, if◌then◌else◌, length, ltb, none, some, take, ℕ, ◌&&◌, ◌*◌, ◌+◌, ◌==◌,
  ◌||◌, ◌∷◌,
}

-- `64 << 20`
abbrev pub max_frame_size : ℕ
max_frame_size = 67108864

pub record Frame : Type 0 where
  pub tag : Bytes
  pub payload : Bytes

-- The errors of `Next`: `eof` is `io.EOF` itself, and the others are wrapped or made there. A stream that
-- ends where the body should begin is `no_body`, which wraps `io.EOF`; one that ends inside it is
-- `read_body`, which does not.
pub data FrameError : Type 0 where
  eof read_prefix frame_too_large no_body read_body bad_msgpack no_delimiter : FrameError

pub data Outcome : Type 0 where
  got : Frame → Outcome
  fails : FrameError → Outcome

-- `binary.BigEndian.Uint32`
unfoldable pub uint32_of : ℕ → ℕ → ℕ → ℕ → ℕ
uint32_of a b c d = a * 16777216 + b * 65536 + c * 256 + d

-- What stands before the first `tagend`, and what follows it.
unfoldable pub split_tagend : Bytes → Option (Bytes × Bytes)
split_tagend [] = none
split_tagend (a ∷ []) = none
split_tagend (a ∷ b ∷ s) =
    if (a == b'\n') && (b == b'\n')
    then some ([], s)
    else elim (split_tagend (b ∷ s)) [ none ↦ none | some (tag, data_of) ↦ some (a ∷ tag, data_of) ]

module _ (unmarshal : Bytes → Option Bytes) where
  -- `decodeFrame`
  unfoldable pub decode_frame : Bytes → Outcome
  unfolding split_tagend
  decode_frame buf = elim (unmarshal buf) [
    | none ↦ fails bad_msgpack
    | some body ↦ elim (split_tagend body) [
      | none ↦ fails no_delimiter
      | some (tag, payload) ↦ got (record { tag = tag; payload = payload })
    ]
  ]

  -- `Next` after the length prefix.
  unfoldable pub next_body : ℕ → Bytes → Outcome × Bytes
  unfolding decode_frame
  next_body n s =
      if (n == 0) || ltb max_frame_size n
      then (fails frame_too_large, s)
      else if ltb (length s) n
      then (fails (if length s == 0 then no_body else read_body), [])
      else (decode_frame (take n s), drop n s)

  -- `Next`, with what it leaves of the stream. A stream that ends inside the prefix is the end of it.
  unfoldable pub next : Bytes → Outcome × Bytes
  unfolding next_body uint32_of
  next [] = (fails read_prefix, [])
  next (a ∷ []) = (fails eof, [])
  next (a ∷ b ∷ []) = (fails eof, [])
  next (a ∷ b ∷ c ∷ []) = (fails eof, [])
  next (a ∷ b ∷ c ∷ d ∷ s) = next_body (uint32_of a b c d) s
