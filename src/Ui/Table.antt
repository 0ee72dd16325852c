-- ===== src/Ui/Table.antt =====
-- internal/ui/components/table.go: the widths of a table's columns.
pub mod Fits
use go_salt_events.Base.{
  Bool, Bytes, List, Option, [], exceeds, if◌then◌else◌, leb, length, ltb, map, max, negsuc, none,
  pos, set, some, suc, zero, ℕ, ℤ, ◌+◌, ◌-◌, ◌∷◌,
}

pub record Column : Type 0 where
  pub title : Bytes
  pub width : ℤ
  pub flex : Bool

-- `max(0, w)`
abbrev pub natural : ℤ → ℕ
natural (pos n) = n
natural (negsuc n) = 0

-- A difference of ints.
unfoldable pub minus : ℤ → ℕ → ℤ
minus (pos a) b = if leb b a then pos (a - b) else negsuc (b - a - 1)
minus (negsuc a) b = negsuc (a + b)

abbrev pub sum : List ℕ → ℕ
sum [] = 0
sum (w ∷ ws) = w + sum ws

-- The loop of `layout`: the widths, what the columns that are not flexible take, and the last one that is.
unfoldable pub fixed_width : List Column → ℕ
fixed_width [] = 0
fixed_width (c ∷ cs) = let rest = fixed_width cs in if c.flex then rest else natural c.width + rest

unfoldable pub last_flex : ℕ → Option ℕ → List Column → Option ℕ
last_flex i k [] = k
last_flex i k (c ∷ cs) = last_flex (i + 1) (if c.flex then some i else k) cs

-- The loop that finds the widest, the first of them, with its width.
unfoldable pub widest_from : ℕ → ℕ → ℕ → List ℕ → ℕ × ℕ
widest_from i k top [] = (k, top)
widest_from i k top (w ∷ ws) =
    let here = widest_from (i + 1) i w ws in
    let there = widest_from (i + 1) k top ws in if ltb top w then here else there

unfoldable pub widest : List ℕ → ℕ × ℕ
unfolding widest_from
widest [] = (0, 0)
widest (w ∷ ws) = widest_from 1 0 w ws

-- `widths[k]--`
unfoldable pub lower : ℕ → List ℕ → List ℕ
lower k [] = []
lower zero (w ∷ ws) = (w - 1) ∷ ws
lower (suc k) (w ∷ ws) = w ∷ lower k ws

-- `shrink`; a round lowers `fixed` by one, so `fixed` rounds are enough.
unfoldable pub shrink_loop : ℕ → List ℕ → ℕ → ℤ → List ℕ
unfolding widest lower
shrink_loop zero ws fixed avail = ws
shrink_loop (suc f) ws fixed avail =
    let (k, top) = widest ws in
    let rest = shrink_loop f (lower k ws) (fixed - 1) avail in
    if exceeds fixed avail then (if leb top 1 then ws else rest) else ws

unfoldable pub shrink : List ℕ → ℕ → ℤ → List ℕ
unfolding shrink_loop
shrink ws fixed avail = shrink_loop fixed ws fixed avail

-- `layout`
unfoldable pub layout : List Column → ℤ → List ℕ
unfolding fixed_width last_flex minus shrink
layout [] width = []
layout (c ∷ cs) width =
    let cols = c ∷ cs in
    let widths = map (λ (x : Column). natural x.width) cols in
    let avail = minus width (length cs) in
    elim (last_flex 0 none cols) [
      | some i ↦ set widths i (max 1 (natural (minus avail (fixed_width cols))))
      | none ↦ shrink widths (fixed_width cols) avail
    ]
