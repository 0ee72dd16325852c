-- ===== src/Base/Utf8.antt =====
-- Go's decoding of UTF-8 (unicode/utf8), and the functions of package strings that walk runes.
use Prim.Native.Nat.{suc, zero, ℕ, ◌*◌, ◌+◌, ◌-◌}
use mathlib.Core.Bool.{Bool, ◌&&◌, ◌||◌}
use mathlib.Core.List.{List, [], ◌++◌, ◌∷◌}
use go_salt_events.Base.Tests.{if◌then◌else◌, leb, ltb, ◌==◌}
use go_salt_events.Base.Lists.{drop, length, take}
use go_salt_events.Base.Strings.{Bytes}

abbrev pub rune_error : ℕ
rune_error = 0xFFFD

abbrev pub in_range : ℕ → ℕ → ℕ → Bool
in_range lo hi b = leb lo b && leb b hi

abbrev pub bad_rune : ℕ × ℕ
bad_rune = (rune_error, 1)

abbrev pub tail_bits : ℕ → ℕ
tail_bits b = b - 0x80

-- The rest of a sequence of two, three and four bytes, with the range of its second byte.
unfoldable pub two_bytes : ℕ → Bytes → ℕ × ℕ
two_bytes a [] = bad_rune
two_bytes a (b ∷ _) = if in_range 0x80 0xBF b then ((a - 0xC0) * 64 + tail_bits b, 2) else bad_rune

unfoldable pub three_bytes : ℕ → ℕ → ℕ → Bytes → ℕ × ℕ
three_bytes lo hi a [] = bad_rune
three_bytes lo hi a (_ ∷ []) = bad_rune
three_bytes lo hi a (b ∷ c ∷ _) =
    if in_range lo hi b && in_range 0x80 0xBF c
    then ((a - 0xE0) * 4096 + tail_bits b * 64 + tail_bits c, 3)
    else bad_rune

unfoldable pub four_bytes : ℕ → ℕ → ℕ → Bytes → ℕ × ℕ
four_bytes lo hi a [] = bad_rune
four_bytes lo hi a (_ ∷ []) = bad_rune
four_bytes lo hi a (_ ∷ _ ∷ []) = bad_rune
four_bytes lo hi a (b ∷ c ∷ d ∷ _) =
    if in_range lo hi b && (in_range 0x80 0xBF c && in_range 0x80 0xBF d)
    then ((a - 0xF0) * 262144 + tail_bits b * 4096 + tail_bits c * 64 + tail_bits d, 4)
    else bad_rune

-- `utf8.DecodeRuneInString`: the rune and its width.
unfoldable pub decode_rune : Bytes → ℕ × ℕ
unfolding two_bytes three_bytes four_bytes
decode_rune [] = (rune_error, 0)
decode_rune (a ∷ s) =
    if ltb a 0x80
    then (a, 1)
    else if in_range 0xC2 0xDF a
    then two_bytes a s
    else if in_range 0xE0 0xEF a
    then three_bytes (if a == 0xE0 then 0xA0 else 0x80) (if a == 0xED then 0x9F else 0xBF) a s
    else if in_range 0xF0 0xF4 a
    then four_bytes (if a == 0xF0 then 0x90 else 0x80) (if a == 0xF4 then 0x8F else 0xBF) a s
    else bad_rune

-- `[]rune(s)`; the fuel is the number of bytes.
unfoldable pub runes_from : ℕ → Bytes → List ℕ
runes_from zero s = []
runes_from (suc f) [] = []
runes_from (suc f) (a ∷ s) = let (r, w) = decode_rune (a ∷ s) in r ∷ runes_from f (drop w (a ∷ s))

unfoldable pub runes : Bytes → List ℕ
unfolding runes_from decode_rune
runes s = runes_from (length s) s

-- `strings.ToValidUTF8(s, "")`: a byte that starts no rune is dropped.
unfoldable pub valid_from : ℕ → Bytes → Bytes
valid_from zero s = []
valid_from (suc f) [] = []
valid_from (suc f) (a ∷ s) =
    let (r, w) = decode_rune (a ∷ s) in
    let rest = valid_from f (drop w (a ∷ s)) in
    if (r == rune_error) && (w == 1) then rest else take w (a ∷ s) ++ rest

unfoldable pub to_valid : Bytes → Bytes
unfolding valid_from decode_rune
to_valid s = valid_from (length s) s

-- `unicode.IsSpace`
unfoldable pub is_space : ℕ → Bool
is_space r =
    in_range 9 13 r
    || (r == 32)
    || (r == 0x85)
    || (r == 0xA0)
    || (r == 0x1680)
    || in_range 0x2000 0x200A r
    || (r == 0x2028)
    || (r == 0x2029)
    || (r == 0x202F)
    || (r == 0x205F)
    || (r == 0x3000)

abbrev pub put_word : Bytes → List Bytes → List Bytes
put_word [] ws = ws
put_word (c ∷ word) ws = (c ∷ word) ∷ ws

-- `strings.Fields`: the fuel is the number of bytes, and `word` is what stands before them.
unfoldable pub fields_from : ℕ → Bytes → Bytes → List Bytes
fields_from zero word s = put_word word []
fields_from (suc f) word [] = put_word word []
fields_from (suc f) word (a ∷ s) =
    let (r, w) = decode_rune (a ∷ s) in
    let after = drop w (a ∷ s) in
    let ends = put_word word (fields_from f [] after) in
    let goes_on = fields_from f (word ++ take w (a ∷ s)) after in
    if is_space r then ends else goes_on

unfoldable pub fields : Bytes → List Bytes
unfolding fields_from decode_rune is_space
fields s = fields_from (length s) [] s

-- `strings.TrimSpace`: the leading spaces dropped, and then all that follows the last other rune.
unfoldable pub trim_left : ℕ → Bytes → Bytes
trim_left zero s = s
trim_left (suc f) [] = []
trim_left (suc f) (a ∷ s) =
    let (r, w) = decode_rune (a ∷ s) in
    let rest = trim_left f (drop w (a ∷ s)) in if is_space r then rest else a ∷ s

-- `held` is the run of spaces that has been passed, which is kept if another rune follows.
unfoldable pub trim_right : ℕ → Bytes → Bytes → Bytes
trim_right zero held s = []
trim_right (suc f) held [] = []
trim_right (suc f) held (a ∷ s) =
    let (r, w) = decode_rune (a ∷ s) in
    let here = take w (a ∷ s) in
    let after = drop w (a ∷ s) in
    let more_held = trim_right f (held ++ here) after in
    let kept = held ++ here ++ trim_right f [] after in if is_space r then more_held else kept

unfoldable pub trim_space : Bytes → Bytes
unfolding trim_left trim_right decode_rune is_space
trim_space s = let t = trim_left (length s) s in trim_right (length t) [] t
