-- ===== src/Ui/Detail.antt =====
-- internal/ui/detail/detail.go: one event, its payload decoded and laid out as lines. What formats a time
-- and what prints a leaf of a payload are the standard library's, and a parameter.
pub mod Render
pub mod Clear
pub mod Bounds
pub mod Screen
pub mod Memo
use go_salt_events.Base.{
  Bytes, List, Option, [], codes, drop, if◌then◌else◌, length, min, none, some, suc, take, zero, ℕ,
  ◌++◌, ◌+◌, ◌-◌, ◌==◌, ◌∷◌,
}
use go_salt_events.Model.Event.{Event}
use go_salt_events.Ui.Messages.{Key, one_of}
use go_salt_events.Ui.Text.{sanitise}
use go_salt_events.Ui.Detail.Render.{
  Decoded, Formats, Line, error_slot, failed, header_slot, line, muted, render, value, value_slot,
  warn_slot,
}

-- `shedLines`
abbrev pub shed_lines : List Line
shed_lines =
    line [] (codes "payload dropped by this tool's cache to stay inside its memory budget.") muted
    ∷ line [] (codes "The event's indexed fields above are intact; only the body is gone.") muted
    ∷ line [] (codes "Raise --max-memory to keep payloads for longer.") muted
    ∷ []

-- `masterTrimmedLines`
abbrev pub master_trimmed_lines : List Line
master_trimmed_lines =
    line [] (codes "Salt trimmed this event at the master: it exceeded max_event_size,") warn_slot
    ∷ line [] (codes "so values below may read VALUE_TRIMMED. This tool never saw the") warn_slot
    ∷ line [] (codes "originals — raise max_event_size in /etc/salt/master to keep them.") warn_slot
    ∷ line [] [] value_slot
    ∷ []

-- What a pane with no event draws.
abbrev pub hint_line : Line
hint_line = line [] (codes "no event selected — pick one in Live and press enter") muted

-- `Pane`; the lines are none until they are built.
pub record DetailPane : Type 0 where
  pub decode : Option (Bytes → Decoded)
  pub event : Option Event
  pub body : Option (List Line)
  pub offset : ℕ

-- `New`
unfoldable pub new_detail : Option (Bytes → Decoded) → DetailPane
new_detail decode = record { decode = decode; event = none; body = none; offset = 0 }

-- `SetEvent`
unfoldable pub set_event : DetailPane → Event → DetailPane
set_event p e = record p { event = some e; body = none; offset = 0 }

module _ (fmt : Formats) where
  -- `headLines`
  unfoldable pub head_lines : Event → List Line
  head_lines e =
      line [] (sanitise e.tag) header_slot
        ∷ line (codes "arrival ") (fmt.clock e.arrival) value_slot
        ∷ (if e.stamp == 0 then [] else line (codes "_stamp  ") (fmt.clock e.stamp) value_slot ∷ [])
      ++ line [] [] value_slot ∷ []

  -- The end of `payloadLines`, for a payload that is there.
  unfoldable pub decoded_lines : Option (Bytes → Decoded) → Option Bytes → List Line
  decoded_lines decode none = line [] (codes "no payload") muted ∷ []
  decoded_lines none (some []) = line [] (codes "no payload") muted ∷ []
  decoded_lines (some f) (some []) = line [] (codes "no payload") muted ∷ []
  decoded_lines none (some (b ∷ bs)) =
      line [] (codes "no decoder was wired into this pane") error_slot ∷ []
  decoded_lines (some f) (some (b ∷ bs)) = elim (f (b ∷ bs)) [
    | failed err ↦ line [] (codes "could not decode payload: " ++ sanitise err) error_slot ∷ []
    | value v ↦ render fmt v
  ]

  -- `payloadLines`
  unfoldable pub payload_lines : Option (Bytes → Decoded) → Event → List Line
  unfolding decoded_lines
  payload_lines decode e =
      if e.shed
      then shed_lines
      else (if e.master_trimmed then master_trimmed_lines else []) ++ decoded_lines decode e.payload

  -- What `lines` builds; the event of a pane that has none is the zero one, with no field set.
  unfoldable pub built_lines : Option (Bytes → Decoded) → Option Event → List Line
  unfolding head_lines payload_lines
  built_lines decode none =
      line [] [] header_slot
      ∷ line (codes "arrival ") (fmt.clock 0) value_slot
      ∷ line [] [] value_slot
      ∷ line [] (codes "no payload") muted
      ∷ []
  built_lines decode (some e) = head_lines e ++ payload_lines decode e

  -- `lines`, for the body that there is: the lines, and the pane that has them.
  unfoldable pub lines_with : DetailPane → Option (List Line) → List Line × DetailPane
  unfolding built_lines
  lines_with p (some body) = (body, p)
  lines_with p none =
      let body = built_lines p.decode p.event in (body, record p { body = some body })

  unfoldable pub lines : DetailPane → List Line × DetailPane
  unfolding lines_with
  lines p = lines_with p p.body

  -- `Update`, for a key.
  unfoldable pub detail_key : DetailPane → Key → DetailPane
  unfolding lines
  detail_key p k =
      if one_of k (codes "down") (codes "j")
      then record p { offset = p.offset + 1 }
      else if one_of k (codes "up") (codes "k")
      then record p { offset = p.offset - 1 }
      else if one_of k (codes "g") (codes "home")
      then record p { offset = 0 }
      else if one_of k (codes "G") (codes "end")
      then (let (body, q) = lines p in record q { offset = length body })
      else p

  -- The lines that `View` draws in a box that it draws in, of `h` rows, and the pane with the offset that it writes back.
  unfoldable pub view_of : DetailPane → Option Event → ℕ → List Line × DetailPane
  unfolding lines
  view_of p none h = (hint_line ∷ [], p)
  view_of p (some e) h =
      let (body, q) = lines p in
      if length body == 0
      then ([], q)
      else (let first = min q.offset (length body - 1) in
          (take h (drop first body), record q { offset = first }))

  -- `View`, up to the width of its lines.
  unfoldable pub view : DetailPane → ℕ → ℕ → List Line × DetailPane
  unfolding view_of
  view p zero h = ([], p)
  view p (suc w) zero = ([], p)
  view p (suc w) (suc h) = view_of p p.event (suc h)
