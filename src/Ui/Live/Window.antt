-- ===== src/Ui/Live/Window.antt =====
-- internal/ui/live/live.go: the window and what `enter` opens.
use go_salt_events.Base.{
  List, Option-cases, [], ap, arith, bytes_eq, codes, get_elem?, get_elem?-slice, if◌then◌else◌,
  inl, inr, length, length-le_of_none, length-slice, ltb, max, min, none, refl, slice, some, suc,
  take, take_all, zero, ℕ, ◌+◌, ◌-◌, ◌<◌, ◌||◌, ◌∙◌, ◌≡◌, ◌≤◌,
}
use go_salt_events.Model.Event.{Event}
use go_salt_events.Ui.Messages.{open_detail_msg, send}
use go_salt_events.Ui.Live.{
  LivePane, cursor_in, header_rows, live_key, open_selected, selected, shown, window_start,
}

cursor_in-lt :
    (p : LivePane) (events : List Event) → 0 < length events → cursor_in p events < length events
unfolding cursor_in
cursor_in-lt p events some_event = ground arith

window_start-bounds :
    (cursor rows n : ℕ)
    → cursor < n
    → 0 < rows
    → let first = window_start cursor rows n in
      (first ≤ cursor) × (cursor < min n (first + rows)) × (first ≤ min n (first + rows))
unfolding window_start
window_start-bounds cursor rows n lt some_row = ground arith

selected-some :
    (p : LivePane) (events : List Event)
    → 0 < length events
    → (e : Event) × (selected p events ≡ some e)
unfolding selected
selected-some p events some_event = elim (Option-cases (selected p events)) [
  | inl missing ↦ absurd (
      omega (
        arith,
        cursor_in-lt p events some_event,
        length-le_of_none events (cursor_in p events) missing,
      ))
  | inr found ↦ found
]

in_window :
    (c first len : ℕ)
    → first ≤ c
    → c - first < len
    → (if ltb c first || ltb len (c - first + 1) then none else some (c - first)) ≡ some (c - first)
in_window c first len le lt = ground arith

enter_opens :
    (p : LivePane) (events : List Event) (e : Event)
    → selected p events ≡ some e
    → live_key p (record { name = codes "enter"; typed = [] }) events
      ≡ (p, some (send (open_detail_msg e)))
unfolding live_key open_selected bytes_eq
enter_opens p events e eq = rw (live_key, open_selected, eq) refl

-- In a box with a column and with a row below the header, when there is an event, at least one event is drawn and at most as many as there are
-- such rows, one of those drawn is highlighted, and it is the event that `enter` opens.
pub opens_highlighted :
    (p : LivePane) (w h : ℕ) (events : List Event)
    → 0 < w
    → header_rows < h
    → 0 < length events
    → let (body, mark) = shown p w h events in
      (0 < length body)
      × (length body ≤ h - header_rows)
      × ((i : ℕ) × (e : Event) × (mark ≡ some i)
          × (get_elem? body i ≡ some e)
          × (live_key p (record { name = codes "enter"; typed = [] }) events
              ≡ (p, some (send (open_detail_msg e)))))
unfolding shown
opens_highlighted p zero h events wide roomy some_event = elim wide [ ]
opens_highlighted p (suc w) zero events wide roomy some_event = elim roomy [ ]
opens_highlighted p (suc w) (suc h) events wide roomy some_event =
    let rows = max 1 (suc h - header_rows) in
    let c = cursor_in p events in
    let first = window_start c rows (length events) in
    let stop = min (length events) (first + rows) in
    let body = slice first stop events in
    let (below, above, le) =
      window_start-bounds c rows (length events) (cursor_in-lt p events some_event) (omega arith) in
    let len = length-slice first stop events le (omega arith) in
    let (e, eq) = selected-some p events some_event in
    let whole : take h body ≡ body = take_all h body (omega (arith, len, roomy)) in
    let same = ap length whole in
    (
      omega (arith, len, same, above, below),
      omega (arith, len, same, roomy),
      (
        c - first,
        e,
        in_window c first (length body) below (omega (arith, len, above, below)),
        ap (λ b. get_elem? b (c - first)) whole
            ∙ get_elem?-slice first stop c events below above
            ∙ unfold selected in eq,
        enter_opens p events e eq,
      ),
    )
