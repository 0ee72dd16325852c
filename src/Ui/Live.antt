-- ===== src/Ui/Live.antt =====
-- internal/ui/live/live.go: the tail of the events, its cursor and its window.
pub mod Window
use go_salt_events.Base.{
  Bool, List, Option, [], codes, false, get_elem?, if◌then◌else◌, length, ltb, max, min, none,
  slice, some, suc, take, true, zero, ℕ, ◌+◌, ◌-◌, ◌==◌, ◌||◌,
}
use go_salt_events.Model.Event.{Event}
use go_salt_events.Ui.Messages.{Cmd, Key, is_key, one_of, open_detail_msg, send}

-- `Pane`
pub record LivePane : Type 0 where
  pub cursor : ℕ
  pub follow : Bool

-- `New`
abbrev pub new_live : LivePane
new_live = record { cursor = 0; follow = true }

-- `cursorIn`
unfoldable pub cursor_in : LivePane → List Event → ℕ
cursor_in p events =
    if length events == 0
    then 0
    else if p.follow
    then length events - 1
    else min p.cursor (length events - 1)

-- `Selected`
unfoldable pub selected : LivePane → List Event → Option Event
unfolding cursor_in
selected p events = get_elem? events (cursor_in p events)

-- `openSelected`
unfoldable pub open_selected : LivePane → List Event → Option Cmd
unfolding selected
open_selected p events = elim (selected p events) [
  | none ↦ none
  | some e ↦ some (send (open_detail_msg e))
]

-- The keys of `Update`.
unfoldable pub live_key : LivePane → Key → List Event → LivePane × Option Cmd
unfolding cursor_in open_selected
live_key p k events =
    let last = length events - 1 in
    if one_of k (codes "down") (codes "j")
    then (record { cursor = min (cursor_in p events + 1) last; follow = false }, none)
    else if one_of k (codes "up") (codes "k")
    then (record { cursor = cursor_in p events - 1; follow = false }, none)
    else if one_of k (codes "G") (codes "end")
    then (record { cursor = last; follow = true }, none)
    else if one_of k (codes "g") (codes "home")
    then (record { cursor = 0; follow = false }, none)
    else if is_key k (codes "enter")
    then (p, open_selected p events)
    else (p, none)

abbrev pub header_rows : ℕ
header_rows = 1

-- `windowStart`
unfoldable pub window_start : ℕ → ℕ → ℕ → ℕ
window_start cursor rows n = if ltb cursor (n - rows) then cursor else n - rows

-- The choice of rows in `View`, for a box of `w` columns and `h` rows and at least one event: the events drawn, and the index of the highlighted one among the rows of the table. The table
-- has its header and a line for each row, and is cut to the height of the box.
unfoldable pub shown : LivePane → ℕ → ℕ → List Event → List Event × Option ℕ
unfolding cursor_in window_start
shown p zero h events = ([], none)
shown p (suc w) zero events = ([], none)
shown p (suc w) (suc h) events =
    let rows = max 1 (suc h - header_rows) in
    let cursor = cursor_in p events in
    let first = window_start cursor rows (length events) in
    let stop = min (length events) (first + rows) in
    let body = slice first stop events in
    (
      take h body,
      if ltb cursor first || ltb (length body) (cursor - first + 1)
          then none
          else some (cursor - first),
    )

-- What `marker` appends to the tag.
pub data Marker : Type 0 where
  intact trimmed_at_master shed_here : Marker

-- `marker`
unfoldable pub marker : Event → Marker
marker e = if e.master_trimmed then trimmed_at_master else if e.shed then shed_here else intact
