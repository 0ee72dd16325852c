-- ===== src/Base/Strconv.antt =====
-- What the code uses of Go's `strconv` to read settings.
use go_salt_events.Base.{
  Bool, Bytes, Option, [], bytes_eq, codes, false, if◌then◌else◌, leb, negsuc, none, pos, some, suc,
  true, zero, ℕ, ℤ, ◌&&◌, ◌*◌, ◌+◌, ◌-◌, ◌||◌, ◌∷◌,
}

-- The number that digits read as after `n`.
unfoldable pub digits_from : ℕ → Bytes → Option ℕ
digits_from n [] = some n
digits_from n (c ∷ s) =
    let rest = digits_from (n * 10 + (c - b'0')) s in
    if leb b'0' c && leb c b'9' then rest else none

unfoldable pub parse_digits : Bytes → Option ℕ
unfolding digits_from
parse_digits [] = none
parse_digits (c ∷ s) = digits_from 0 (c ∷ s)

abbrev pub positive : Option ℕ → Option ℤ
positive none = none
positive (some n) = if leb n 9223372036854775807 then some (pos n) else none

abbrev pub negative : Option ℕ → Option ℤ
negative none = none
negative (some zero) = some (pos 0)
negative (some (suc n)) = if leb n 9223372036854775807 then some (negsuc n) else none

-- `ParseInt(s, 10, 64)`, and `Atoi` where an int has 64 bits.
unfoldable pub parse_int : Bytes → Option ℤ
unfolding parse_digits
parse_int [] = none
parse_int (c ∷ s) =
    if bytes_eq (c ∷ []) (codes "-")
    then negative (parse_digits s)
    else if bytes_eq (c ∷ []) (codes "+")
    then positive (parse_digits s)
    else positive (parse_digits (c ∷ s))

-- `ParseBool`
unfoldable pub parse_bool : Bytes → Option Bool
parse_bool s =
    if bytes_eq s (codes "1")
      || bytes_eq s (codes "t")
      || bytes_eq s (codes "T")
      || bytes_eq s (codes "TRUE")
      || bytes_eq s (codes "true")
      || bytes_eq s (codes "True")
    then some true
    else if bytes_eq s (codes "0")
        || bytes_eq s (codes "f")
        || bytes_eq s (codes "F")
        || bytes_eq s (codes "FALSE")
        || bytes_eq s (codes "false")
        || bytes_eq s (codes "False")
    then some false
    else none
