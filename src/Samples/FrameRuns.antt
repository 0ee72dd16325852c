-- ===== src/Samples/FrameRuns.antt =====
-- internal/saltipc/frame.go: frames of a few bytes, with an encoding that leaves the body as it is.
use go_salt_events.Base.{Bytes, Option, [], arith, codes, length, refl, some, ◌++◌, ◌∷◌, ◌≡◌}
use go_salt_events.Saltipc.Frame.{fails, frame_too_large, got, next, next_body, uint32_of}
use go_salt_events.Saltipc.Frame.Resync.{next-got, prefix_of}

abbrev plain : Bytes → Option Bytes
plain s = some s

abbrev tag : Bytes
tag = codes "ab"

-- It holds a separator itself.
abbrev payload : Bytes
payload = b'x' ∷ b'\n' ∷ b'\n' ∷ b'y' ∷ []

abbrev packed : Bytes
packed = tag ++ b'\n' ∷ b'\n' ∷ payload

abbrev rest : Bytes
rest = 0 ∷ 0 ∷ []

desynced : next plain (255 ∷ 0 ∷ 0 ∷ 0 ∷ rest) ≡ (fails frame_too_large, rest)
unfolding next next_body uint32_of
desynced = refl

next-got_example :
    next plain (prefix_of (length packed) ++ packed ++ rest)
    ≡ (got (record { tag = tag; payload = payload }), rest)
next-got_example =
    next-got plain packed tag payload rest refl (refl, ground arith) (omega arith) (omega arith)
