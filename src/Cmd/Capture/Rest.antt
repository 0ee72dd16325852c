-- ===== src/Cmd/Capture/Rest.antt =====
-- cmd/salt-events/capture.go, `splitCaptureArgs`: what is left for the configuration.
use go_salt_events.Base.{
  Bool-cases, Bytes, List, Option-cases, [], false, inl, inr, ltb, none, some, true, ◌&&◌, ◌∷◌, ◌≡◌,
}
use go_salt_events.Stats.Jobs.Ingest.{is_empty}
use go_salt_events.Cmd.Capture.{
  CaptureOptions, Captured, and_then, checked, is_capture_flag, keep_arg, no_capture, ok, refused,
  set_option, split_args, split_capture_args, split_flag,
}

-- The arguments with none of the capture flags and none of their values, in their order.
pub data Without : List Bytes → List Bytes → Type 0 where
  end : Without [] []
  keep :
      {arg : Bytes} {args rest : List Bytes}
      → is_capture_flag arg ≡ false
      → Without args rest
      → Without (arg ∷ args) (arg ∷ rest)
  joined :
      {arg v : Bytes} {args rest : List Bytes}
      → is_capture_flag arg ≡ true
      → (split_flag arg).1 ≡ some v
      → Without args rest
      → Without (arg ∷ args) rest
  apart :
      {arg v : Bytes} {args rest : List Bytes}
      → is_capture_flag arg ≡ true
      → (split_flag arg).1 ≡ none
      → Without args rest
      → Without (arg ∷ v ∷ args) rest

abbrev WhenOk : List Bytes → Captured (CaptureOptions × List Bytes) → Type 0
WhenOk args (refused e) = Unit {0}
WhenOk args (ok (o, rest)) = Without args rest

and_then-WhenOk :
    (args : List Bytes) (c : Captured CaptureOptions)
    (f : CaptureOptions → Captured (CaptureOptions × List Bytes))
    → ((o : CaptureOptions) → WhenOk args (f o))
    → WhenOk args (and_then c f)
and_then-WhenOk args (refused e) f h = tt
and_then-WhenOk args (ok o) f h = h o

joined-WhenOk :
    (arg v : Bytes) (args : List Bytes) (c : Captured (CaptureOptions × List Bytes))
    → is_capture_flag arg ≡ true
    → (split_flag arg).1 ≡ some v
    → WhenOk args c
    → WhenOk (arg ∷ args) c
joined-WhenOk arg v args (refused e) flag given h = tt
joined-WhenOk arg v args (ok (o, rest)) flag given h = joined flag given h

apart-WhenOk :
    (arg v : Bytes) (args : List Bytes) (c : Captured (CaptureOptions × List Bytes))
    → is_capture_flag arg ≡ true
    → (split_flag arg).1 ≡ none
    → WhenOk args c
    → WhenOk (arg ∷ v ∷ args) c
apart-WhenOk arg v args (refused e) flag bare h = tt
apart-WhenOk arg v args (ok (o, rest)) flag bare h = apart flag bare h

keep_arg-WhenOk :
    (arg : Bytes) (args : List Bytes) (c : Captured (CaptureOptions × List Bytes))
    → is_capture_flag arg ≡ false
    → WhenOk args c
    → WhenOk (arg ∷ args) (keep_arg arg c)
keep_arg-WhenOk arg args (refused e) other h = tt
keep_arg-WhenOk arg args (ok (o, rest)) other h = keep other h

split_args-WhenOk : (o : CaptureOptions) (args : List Bytes) → WhenOk args (split_args o args)
unfolding split_args
split_args-WhenOk o [] = end
split_args-WhenOk o (arg ∷ []) = elim (Bool-cases (is_capture_flag arg)) [
  | inr plain ↦ rw plain (keep plain end)
  | inl flag ↦ elim (Option-cases (split_flag arg).1) [
    | inl bare ↦ rw (flag, bare) tt
    | inr (v, given) ↦
        rw (flag, given)
          (and_then-WhenOk (arg ∷ []) (set_option o (split_flag arg).0 v) _
            (λ p. joined flag given end))
  ]
]
split_args-WhenOk o (arg ∷ following ∷ args) = elim (Bool-cases (is_capture_flag arg)) [
  | inr plain ↦
      rw plain
        (keep_arg-WhenOk arg (following ∷ args) _ plain (split_args-WhenOk o (following ∷ args)))
  | inl flag ↦ elim (Option-cases (split_flag arg).1) [
    | inl bare ↦
        rw (flag, bare)
          (and_then-WhenOk (arg ∷ following ∷ args) (set_option o (split_flag arg).0 following) _
            (λ p. apart-WhenOk arg following args _ flag bare (split_args-WhenOk p args)))
    | inr (v, given) ↦
        rw (flag, given)
          (and_then-WhenOk (arg ∷ following ∷ args) (set_option o (split_flag arg).0 v) _ (λ p.
            joined-WhenOk arg v (following ∷ args) _ flag given
              (split_args-WhenOk p (following ∷ args))))
  ]
]

-- What `splitCaptureArgs` answers without an error: the arguments without its own flags, in order, and
-- a place to record to when there is anything to record.
abbrev pub Sorted : List Bytes → Captured (CaptureOptions × List Bytes) → Type 0
Sorted args (refused e) = Unit {0}
Sorted args (ok (o, rest)) = Without args rest × ((ltb 0 o.frames && is_empty o.out) ≡ false)

checked-Sorted :
    (args : List Bytes) (c : Captured (CaptureOptions × List Bytes))
    → WhenOk args c
    → Sorted args (checked c)
checked-Sorted args (refused e) h = tt
checked-Sorted args (ok (o, rest)) h = elim (Bool-cases (ltb 0 o.frames && is_empty o.out)) [
  | inl bad ↦ rw bad tt
  | inr good ↦ rw good (h, good)
]

-- Without an error, what is left of the arguments is all of them but the capture flags and their values,
-- in their order, and frames are asked for only with a file to record to.
pub split_capture_args-Sorted : (args : List Bytes) → Sorted args (split_capture_args args)
unfolding split_capture_args
split_capture_args-Sorted args =
    checked-Sorted args (split_args no_capture args) (split_args-WhenOk no_capture args)
