-- ===== src/Cmd/Capture.antt =====
-- cmd/salt-events/capture.go: the recorder of frames, and its flags.
pub mod Rest
pub mod Frames
use go_salt_events.Base.{
  Bool, Bytes, List, Option, [], bytes_eq, codes, drop, if◌then◌else◌, length, ltb, negsuc, none,
  not, pos, some, suc, take, zero, ℕ, ◌&&◌, ◌++◌, ◌+◌, ◌==◌, ◌||◌, ◌∷◌,
}
use go_salt_events.Base.Strconv.{parse_int}
use go_salt_events.Stats.Jobs.Ingest.{is_empty}
use go_salt_events.Saltipc.Frame.{uint32_of}

-- `captureOptions`
pub record CaptureOptions : Type 0 where
  pub frames : ℕ
  pub out : Bytes

abbrev pub no_capture : CaptureOptions
no_capture = record { frames = 0; out = [] }

abbrev pub flag_capture : Bytes
flag_capture = codes "capture"

abbrev pub flag_capture_out : Bytes
flag_capture_out = codes "capture-out"

-- `strings.TrimLeft(arg, "-")`
unfoldable pub trim_dashes : Bytes → Bytes
trim_dashes [] = []
trim_dashes (c ∷ s) = if c == b'-' then trim_dashes s else c ∷ s

-- `strings.Cut(s, "=")`: what stands before the first one, and what follows it.
unfoldable pub cut_equals : Bytes → Bytes × Option Bytes
cut_equals [] = ([], none)
cut_equals (c ∷ s) =
    let (before, after) = cut_equals s in if c == b'=' then ([], some s) else (c ∷ before, after)

-- `splitFlag`: the name, and the value of the `=` form.
unfoldable pub split_flag : Bytes → Bytes × Option Bytes
unfolding trim_dashes cut_equals
split_flag [] = ([], none)
split_flag (c ∷ s) = if c == b'-' then cut_equals (trim_dashes s) else ([], none)

-- The errors of the flags.
pub data CaptureError : Type 0 where
  needs_value : Bytes → CaptureError
  not_a_number : Bytes → CaptureError
  is_negative : Bytes → CaptureError
  needs_out : CaptureError

pub data Captured {ℓ} (A : Type ℓ) : Type ℓ where
  ok : A → Captured A
  refused : CaptureError → Captured A

-- `set`
unfoldable pub set_option : CaptureOptions → Bytes → Bytes → Captured CaptureOptions
set_option o name value =
    if bytes_eq name flag_capture_out
    then ok (record o { out = value })
    else elim (parse_int value) [
      | none ↦ refused (not_a_number value)
      | some (negsuc _) ↦ refused (is_negative value)
      | some (pos n) ↦ ok (record o { frames = n })
    ]

abbrev pub is_capture_flag : Bytes → Bool
is_capture_flag arg =
    let name = (split_flag arg).0 in bytes_eq name flag_capture || bytes_eq name flag_capture_out

-- `if err != nil { return opts, nil, err }`
abbrev pub and_then {ℓ κ} : {A : Type ℓ} {B : Type κ} → Captured A → (A → Captured B) → Captured B
and_then (ok a) f = f a
and_then (refused e) f = refused e

abbrev pub keep_arg :
    Bytes → Captured (CaptureOptions × List Bytes) → Captured (CaptureOptions × List Bytes)
keep_arg arg (ok (o, rest)) = ok (o, arg ∷ rest)
keep_arg arg (refused e) = refused e

-- The loop of `splitCaptureArgs`, with the options so far.
unfoldable pub split_args : CaptureOptions → List Bytes → Captured (CaptureOptions × List Bytes)
unfolding set_option split_flag
split_args o [] = ok (o, [])
split_args o (arg ∷ []) =
    let name = (split_flag arg).0 in
    if not (is_capture_flag arg) then ok (o, arg ∷ []) else elim (split_flag arg).1 [
      | none ↦ refused (needs_value name)
      | some v ↦ and_then (set_option o name v) (λ p. ok (p, []))
    ]
split_args o (arg ∷ following ∷ args) =
    let name = (split_flag arg).0 in
    if not (is_capture_flag arg)
    then keep_arg arg (split_args o (following ∷ args))
    else elim (split_flag arg).1 [
      | none ↦ and_then (set_option o name following) (λ p. split_args p args)
      | some v ↦ and_then (set_option o name v) (λ p. split_args p (following ∷ args))
    ]

abbrev pub checked : Captured (CaptureOptions × List Bytes) → Captured (CaptureOptions × List Bytes)
checked (refused e) = refused e
checked (ok (o, rest)) =
    if ltb 0 o.frames && is_empty o.out then refused needs_out else ok (o, rest)

-- `splitCaptureArgs`
unfoldable pub split_capture_args : List Bytes → Captured (CaptureOptions × List Bytes)
unfolding split_args
split_capture_args args = checked (split_args no_capture args)

-- `64 << 20`
abbrev pub max_capture_frame : ℕ
max_capture_frame = 67108864

-- How `copyFrames` ends.
pub data CopyEnd : Type 0 where
  copied : CopyEnd
  no_length : CopyEnd
  desynced : ℕ → CopyEnd
  no_body : CopyEnd
  length_not_written : CopyEnd
  body_not_written : CopyEnd

-- What a destination answers to each of its writes in turn: nothing, when it takes all the bytes, or how
-- many it took before it failed.
abbrev pub Answers : Type 0
Answers = ℕ → Option ℕ

-- `copyFrames`, to a destination that was written to `w` times: how it ends, what it has written, and
-- what is left of the stream, which is the list of the bytes that it still yields.
unfoldable pub copy_frames : Answers → ℕ → ℕ → Bytes → CopyEnd × Bytes × Bytes
unfolding uint32_of
copy_frames dst w zero s = (copied, [], s)
copy_frames dst w (suc n) [] = (no_length, [], [])
copy_frames dst w (suc n) (a ∷ []) = (no_length, [], [])
copy_frames dst w (suc n) (a ∷ b ∷ []) = (no_length, [], [])
copy_frames dst w (suc n) (a ∷ b ∷ c ∷ []) = (no_length, [], [])
copy_frames dst w (suc n) (a ∷ b ∷ c ∷ d ∷ s) =
    let size = uint32_of a b c d in
    let (end, written, left) = copy_frames dst (w + 2) n (drop size s) in
    if ltb max_capture_frame size
    then (desynced size, [], s)
    else if ltb (length s) size
    then (no_body, [], [])
    else elim (dst w) [
      | some taken ↦ (length_not_written, take taken (a ∷ b ∷ c ∷ d ∷ []), drop size s)
      | none ↦ elim (dst (w + 1)) [
        | some taken ↦ (body_not_written, a ∷ b ∷ c ∷ d ∷ take taken (take size s), drop size s)
        | none ↦ (end, a ∷ b ∷ c ∷ d ∷ (take size s ++ written), left)
      ]
    ]
