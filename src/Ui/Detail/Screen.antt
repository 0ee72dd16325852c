-- ===== src/Ui/Detail/Screen.antt =====
-- internal/ui/detail/detail.go: what no event does to the screen.
use go_salt_events.Base.{Bytes, Option, [], codes, either_way, none, refl, some, ◌++◌, ◌==◌, ◌∷◌}
use go_salt_events.Model.Event.{Event}
use go_salt_events.Ui.Text.{append-IsClear, is_clear, is_control, sanitise, sanitise-IsClear}
use go_salt_events.Ui.Detail.{built_lines, decoded_lines, head_lines, payload_lines}
use go_salt_events.Ui.Detail.Render.{
  Decoded, Formats, error_slot, failed, line, render, value, value_slot,
}
use go_salt_events.Ui.Detail.Clear.{All, AreClear, ClearLine, append-All}
use go_salt_events.Ui.Detail.Bounds.{render-bounded}

module _ (fmt : Formats) (clear : AreClear fmt) where
  decoded_lines-ClearLine :
      (decode : Option (Bytes → Decoded)) (payload : Option Bytes)
      → All ClearLine (decoded_lines fmt decode payload)
  unfolding decoded_lines is_clear is_control
  decoded_lines-ClearLine decode none = ((refl, refl), tt)
  decoded_lines-ClearLine none (some []) = ((refl, refl), tt)
  decoded_lines-ClearLine (some f) (some []) = ((refl, refl), tt)
  decoded_lines-ClearLine none (some (b ∷ bs)) = ((refl, refl), tt)
  decoded_lines-ClearLine (some f) (some (b ∷ bs)) = by_answer (f (b ∷ bs))
    where
      by_answer :
          (d : Decoded)
          → All ClearLine (elim d [
            | failed err ↦
                line [] (codes "could not decode payload: " ++ sanitise err) error_slot ∷ []
            | value v ↦ render fmt v
          ])
      by_answer (failed err) = (
        (
          refl,
          append-IsClear (codes "could not decode payload: ") (sanitise err) refl
              (sanitise-IsClear err),
        ),
        tt,
      )
      by_answer (value v) = (render-bounded fmt clear v).1

  head_lines-ClearLine : (e : Event) → All ClearLine (head_lines fmt e)
  unfolding head_lines is_clear is_control
  head_lines-ClearLine e = (
    (refl, sanitise-IsClear e.tag),
    (
      (refl, clear.clock e.arrival),
      append-All ClearLine _ (line [] [] value_slot ∷ [])
          (either_way (All ClearLine) (e.stamp == 0) tt ((refl, clear.clock e.stamp), tt))
          ((refl, refl), tt),
    ),
  )

  -- Whatever the event and whatever its decoder answers, no line of the Detail pane holds a control
  -- character, when the formats of a number and of a time print none.
  pub built_lines-ClearLine :
      (decode : Option (Bytes → Decoded)) (e : Event)
      → All ClearLine (built_lines fmt decode (some e))
  unfolding built_lines payload_lines is_clear is_control
  built_lines-ClearLine decode e =
      append-All ClearLine (head_lines fmt e) _ (head_lines-ClearLine e) (
        either_way (All ClearLine) e.shed ((refl, refl), ((refl, refl), ((refl, refl), tt)))
          (append-All ClearLine _ (decoded_lines fmt decode e.payload)
            (either_way (All ClearLine) e.master_trimmed
              ((refl, refl), ((refl, refl), ((refl, refl), ((refl, refl), tt)))) tt)
            (decoded_lines-ClearLine decode e.payload)))
