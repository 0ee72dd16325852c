-- ===== src/SaltTag/Jid.antt =====
-- internal/salttag/salttag.go, `isJID`: exactly the texts that Salt makes JIDs of.
use go_salt_events.SaltTag.Split.{NoSlash}
use go_salt_events.Base.{
  Bytes, [], ap, arith, drop, inl, inr, length, length-append, length-take, refl, subst, suc, sym,
  take, take-append-drop, take-append_le, take_all, true, zero, ℕ, ◌++◌, ◌<◌, ◌↔◌, ◌∷◌, ◌≡◌, ◌≤◌,
  ◌⊎◌,
}
use go_salt_events.SaltTag.{all_digits, digits_only, is_jid, is_pid_suffix}

-- Every byte is an ASCII digit.
abbrev pub AreDigits : Bytes → Type 0
AreDigits [] = Unit {0}
AreDigits (c ∷ s) = (b'0' ≤ c) × (c ≤ b'9') × AreDigits s

-- Twenty digits, alone or followed by "_" and the digits of a process id.
pub data IsJid (s : Bytes) : Type 0 where
  plain : length s ≡ 20 → AreDigits s → IsJid s
  with_pid :
      (stamp pid : Bytes)
      → s ≡ stamp ++ b'_' ∷ pid
      → length stamp ≡ 20
      → AreDigits stamp
      → 0 < length pid
      → AreDigits pid
      → IsJid s

digits_only→AreDigits : (s : Bytes) → digits_only s ≡ true → AreDigits s
unfolding digits_only
digits_only→AreDigits [] h = tt
digits_only→AreDigits (c ∷ s) h = ground (arith, digits_only→AreDigits s)

AreDigits→digits_only : (s : Bytes) → AreDigits s → digits_only s ≡ true
unfolding digits_only
AreDigits→digits_only [] h = refl
AreDigits→digits_only (c ∷ s) h = ground (arith, AreDigits→digits_only s h.2)

all_digits-nonempty : (s : Bytes) → 0 < length s → all_digits s ≡ digits_only s
unfolding all_digits
all_digits-nonempty [] h = absurd (omega arith)
all_digits-nonempty (c ∷ s) h = refl

all_digits→AreDigits : (s : Bytes) → all_digits s ≡ true → AreDigits s
unfolding all_digits
all_digits→AreDigits [] h = tt
all_digits→AreDigits (c ∷ s) h = digits_only→AreDigits (c ∷ s) h

pid-IsJid :
    (stamp rest : Bytes)
    → length stamp ≡ 20
    → AreDigits stamp
    → is_pid_suffix rest ≡ true
    → IsJid (stamp ++ rest)
unfolding is_pid_suffix
pid-IsJid stamp [] n d h = cc
pid-IsJid stamp (u ∷ pid) n d h =
    with_pid stamp pid (ap (λ c. stamp ++ c ∷ pid) (ground arith)) n d (ground arith)
      (all_digits→AreDigits pid (ground arith))

is_jid-parts :
    (s : Bytes)
    → is_jid s ≡ true
    → (20 ≤ length s)
      × (all_digits (take 20 s) ≡ true)
      × ((length s ≡ 20) ⊎ (is_pid_suffix (drop 20 s) ≡ true))
unfolding is_jid
is_jid-parts s h = ground arith

is_jid-of_parts :
    (s : Bytes)
    → 20 ≤ length s
    → all_digits (take 20 s) ≡ true
    → (length s ≡ 20) ⊎ (is_pid_suffix (drop 20 s) ≡ true)
    → is_jid s ≡ true
unfolding is_jid
is_jid-of_parts s le digits h = ground arith

pub is_jid→IsJid : (s : Bytes) → is_jid s ≡ true → IsJid s
is_jid→IsJid s h =
    let (le, digits, more) = is_jid-parts s h in
    let d : AreDigits (take 20 s) = all_digits→AreDigits (take 20 s) digits in
    elim more [
      | inl n ↦ plain n (subst AreDigits (take_all 20 s (omega arith)) d)
      | inr suffix ↦
          subst IsJid (take-append-drop 20 s)
            (pid-IsJid (take 20 s) (drop 20 s) (omega (arith, length-take 20 s)) d suffix)
    ]

drop-append : (n : ℕ) (xs ys : Bytes) → length xs ≡ n → drop n (xs ++ ys) ≡ ys
drop-append zero [] ys h = refl
drop-append zero (x ∷ xs) ys h = absurd (omega arith)
drop-append (suc n) [] ys h = absurd (omega arith)
drop-append (suc n) (x ∷ xs) ys h = drop-append n xs ys (omega arith)

IsJid→is_jid : (s : Bytes) → IsJid s → is_jid s ≡ true
IsJid→is_jid s (plain n d) =
    is_jid-of_parts s (omega arith)
      (rw (take_all 20 s (omega arith), all_digits-nonempty s (omega arith))
        (AreDigits→digits_only s d))
      (inl n)
IsJid→is_jid s (with_pid stamp pid e n d some_pid d') = rw e (
    is_jid-of_parts (stamp ++ b'_' ∷ pid) (omega (arith, length-append stamp (b'_' ∷ pid)))
      (rw
        (
          take-append_le 20 stamp (b'_' ∷ pid) (omega arith),
          take_all 20 stamp (omega arith),
          all_digits-nonempty stamp (omega arith),
        )
        (AreDigits→digits_only stamp d))
      (inr (
        rw (drop-append 20 stamp (b'_' ∷ pid) n) (
          unfold is_pid_suffix in
          ground (arith, all_digits-nonempty pid some_pid, AreDigits→digits_only pid d')))))

-- `isJID` accepts exactly the texts of twenty digits, and those with "_" and more digits behind.
pub is_jid_iff : (s : Bytes) → (is_jid s ≡ true) ↔ IsJid s
is_jid_iff s = (is_jid→IsJid s, IsJid→is_jid s)

AreDigits-NoSlash : (s : Bytes) → AreDigits s → NoSlash s
AreDigits-NoSlash [] d = tt
AreDigits-NoSlash (c ∷ s) d = (omega (arith, d.0), AreDigits-NoSlash s d.2)

NoSlash-append : (xs ys : Bytes) → NoSlash xs → NoSlash ys → NoSlash (xs ++ ys)
NoSlash-append [] ys h k = k
NoSlash-append (x ∷ xs) ys h k = (h.0, NoSlash-append xs ys h.1 k)

-- A JID is one segment of a tag.
pub IsJid-NoSlash : (s : Bytes) → IsJid s → NoSlash s
IsJid-NoSlash s (plain n d) = AreDigits-NoSlash s d
IsJid-NoSlash s (with_pid stamp pid e n d some_pid d') = subst NoSlash (sym e) (
    NoSlash-append stamp (b'_' ∷ pid) (AreDigits-NoSlash stamp d)
      (omega arith, AreDigits-NoSlash pid d'))
