-- ===== src/Ui/Jobs/Scroll.antt =====
-- internal/ui/jobs/jobs.go: the windows of the list and of the drill-down.
use go_salt_events.Base.{
  List, arith, get_elem?, get_elem?-slice, length, length-slice, max, min, ℕ, ◌+◌, ◌-◌, ◌<◌, ◌≡◌,
  ◌≤◌,
}
use go_salt_events.Ui.Jobs.{scroll_start, window_of}

scroll_start-bounds :
    (cursor window n : ℕ)
    → cursor < n
    → 0 < window
    → let first = scroll_start cursor window n in
      (first ≤ cursor) × (cursor < min (first + window) n) × (first ≤ min (first + window) n)
unfolding scroll_start
scroll_start-bounds cursor window n lt some_row = ground arith

-- A window that does not end before the list does is full.
scroll_start_full :
    (cursor window n : ℕ)
    → cursor < n
    → 0 < window
    → min (scroll_start cursor window n + window) n - scroll_start cursor window n ≡ min window n
unfolding scroll_start
scroll_start_full cursor window n lt some_row = ground arith

-- In a box of any height, the list and the drill-down draw as many rows as fit below their chrome or
-- as there are, and the cursor, held to the last row, is on the one that they highlight.
pub window_follows {ℓ} :
    {A : Type ℓ} (chrome cursor h : ℕ) (xs : List A)
    → 0 < length xs
    → let (body, mark) = window_of chrome cursor h xs in
      (length body ≡ min (max 1 (h - chrome)) (length xs))
      × (mark < length body)
      × (get_elem? body mark ≡ get_elem? xs (min cursor (length xs - 1)))
unfolding window_of
window_follows chrome cursor h xs some_row =
    let window = max 1 (h - chrome) in
    let at = min cursor (length xs - 1) in
    let first = scroll_start at window (length xs) in
    let stop = min (first + window) (length xs) in
    let lt : at < length xs = omega arith in
    let (below, above, le) = scroll_start-bounds at window (length xs) lt (omega arith) in
    let full = scroll_start_full at window (length xs) lt (omega arith) in
    let len = length-slice first stop xs le (omega arith) in
    (
      omega (arith, len, full),
      omega (arith, len, below, above),
      get_elem?-slice first stop at xs below above,
    )
