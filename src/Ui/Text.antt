-- ===== src/Ui/Text.antt =====
-- internal/ui/components/text.go, `Sanitise`. Text on the screen is the runes that it holds.
use go_salt_events.Base.{
  Bool, Bytes, List, [], arith, false, if◌then◌else◌, leb, ltb, map, refl, true, ℕ, ◌&&◌, ◌++◌,
  ◌==◌, ◌||◌, ◌∷◌, ◌≡◌,
}
use go_salt_events.Base.Utf8.{runes}

abbrev pub Runes : Type 0
Runes = List ℕ

abbrev pub control_glyph : ℕ
control_glyph = 0xB7

-- `isControl`
unfoldable pub is_control : ℕ → Bool
is_control r = ltb r 0x20 || (r == 0x7F || (leb 0x80 r && leb r 0x9F))

-- What `Sanitise` maps a rune to.
unfoldable pub clean : ℕ → ℕ
clean r = if is_control r then control_glyph else r

-- `Sanitise`; a text with no control character, which the code returns as it is, is mapped to itself.
unfoldable pub sanitise : Bytes → Runes
unfolding clean
sanitise s = map clean (runes s)

-- No control character stands in the text.
unfoldable pub is_clear : Runes → Bool
unfolding is_control
is_clear [] = true
is_clear (r ∷ rs) = if is_control r then false else is_clear rs

abbrev pub IsClear : Runes → Type 0
IsClear rs = is_clear rs ≡ true

clean-clear : (r : ℕ) → is_control (clean r) ≡ false
unfolding clean is_control
clean-clear r = ground arith

map-clean-IsClear : (rs : Runes) → IsClear (map clean rs)
unfolding is_clear
map-clean-IsClear [] = refl
map-clean-IsClear (r ∷ rs) = rw (clean-clear r) (map-clean-IsClear rs)

pub sanitise-IsClear : (s : Bytes) → IsClear (sanitise s)
unfolding sanitise
sanitise-IsClear s = map-clean-IsClear (runes s)

unless_control :
    (bad here there : Bool)
    → (here ≡ true → there ≡ true)
    → (if bad then false else here) ≡ true
    → (if bad then false else there) ≡ true
unless_control true here there f h = h
unless_control false here there f h = f h

pub append-IsClear : (a b : Runes) → IsClear a → IsClear b → IsClear (a ++ b)
unfolding is_clear
append-IsClear [] b ha hb = hb
append-IsClear (r ∷ rs) b ha hb =
    unless_control (is_control r) (is_clear rs) (is_clear (rs ++ b)) (λ h. append-IsClear rs b h hb)
      ha
