-- ===== src/Ui/Detail/Bounds.antt =====
-- internal/ui/detail/detail.go: what no payload does to the screen.
use go_salt_events.Base.{
  Bool, Bool-cases, List, [], arith, codes, either_way, false, inl, inr, leb, length, length-append,
  refl, suc, true, zero, ℕ, ◌++◌, ◌+◌, ◌<◌, ◌∷◌, ◌≡◌, ◌≤◌,
}
use go_salt_events.Saltipc.Value.{Value}
use go_salt_events.Ui.Text.{IsClear, Runes, append-IsClear, is_clear, is_control}
use go_salt_events.Ui.Detail.Render.{
  Formats, Line, Shape, each, emit, head, lay_out, leaf, line, mapping_of, max_depth, max_lines,
  node, opening, render, sequence_of, shape, stopped, value_slot,
}
use go_salt_events.Ui.Detail.Clear.{
  All, AreClear, ClearKey, ClearLine, ClearShape, append-All, head-IsClear, shape-ClearShape,
}

-- What the renderer keeps of the lines so far.
record Fits (out : List Line) : Type 0 where
  bounded : length out ≤ max_lines
  clear : All ClearLine out

below_limit : (n : ℕ) → leb max_lines n ≡ false → n < max_lines
below_limit n e = ground arith

emit-Fits : (out : List Line) (l : Line) → Fits out → ClearLine l → Fits (emit out l)
unfolding emit
emit-Fits out l h hl = elim (Bool-cases (leb max_lines (length out))) [
  | inl full ↦ rw full h
  | inr room ↦ rw room (record {
    bounded = omega (arith, length-append out (l ∷ []), below_limit (length out) room);
    clear = append-All ClearLine out (l ∷ []) h.clear (hl, tt);
  })
]

opening-Fits :
    (indent : ℕ) (name : Runes) (item : Bool) (out : List Line)
    → IsClear name
    → Fits out
    → Fits (opening indent name item out).1
unfolding opening
opening-Fits indent name item out clear h =
    either_way (λ (x : ℕ × List Line). Fits x.1) _
      (emit-Fits out (line (head indent name item true) [] value_slot) h
        (head-IsClear indent name item true clear, unfold is_clear in refl))
      h

each_unit : (vs : List Value) → All (λ x. Unit {0}) vs
each_unit [] = tt
each_unit (v ∷ vs) = (tt, each_unit vs)

each-Fits {ℓ} :
    {A : Type ℓ} (P : A → Type 0) (f : List Line → A → List Line)
    → ((out : List Line) (x : A) → P x → Fits out → Fits (f out x))
    → (xs : List A) (out : List Line) → All P xs
    → Fits out
    → Fits (each f out xs)
unfolding each
each-Fits P f keeps [] out hs h = h
each-Fits P f keeps (x ∷ xs) out (hx, hxs) h =
    each-Fits P f keeps xs (f out x) hxs (keeps out x hx h)

abbrev KeepsFits : (ℕ → Runes → Bool → Value → List Line → List Line) → Type 0
KeepsFits inner =
    (indent : ℕ) (name : Runes) (item : Bool) (v : Value) (out : List Line)
    → IsClear name
    → Fits out
    → Fits (inner indent name item v out)

lay_out-Fits :
    (inner : ℕ → Runes → Bool → Value → List Line → List Line)
    → KeepsFits inner
    → (indent : ℕ) (name : Runes) (item : Bool) (s : Shape) (out : List Line) → IsClear name
    → ClearShape s
    → Fits out
    → Fits (lay_out inner indent name item s out)
unfolding lay_out is_clear is_control
lay_out-Fits inner keeps indent name item (mapping_of []) out named clear h =
    emit-Fits out _ h (head-IsClear indent name item false named, refl)
lay_out-Fits inner keeps indent name item (mapping_of (e ∷ es)) out named clear h =
    each-Fits ClearKey _ (λ acc x ok fits. keeps _ x.key false x.val acc ok fits) (e ∷ es) _ clear
      (opening-Fits indent name item out named h)
lay_out-Fits inner keeps indent name item (sequence_of []) out named clear h =
    emit-Fits out _ h (head-IsClear indent name item false named, refl)
lay_out-Fits inner keeps indent name item (sequence_of (v ∷ vs)) out named clear h =
    each-Fits (λ x. Unit {0}) _ (λ acc x ok fits. keeps _ [] true x acc refl fits) (v ∷ vs) _
      (each_unit (v ∷ vs)) (opening-Fits indent name item out named h)
lay_out-Fits inner keeps indent name item (leaf text) out named clear h =
    emit-Fits out _ h (head-IsClear indent name item false named, clear)

module _ (fmt : Formats) (clear : AreClear fmt) where
  node-Fits : (left : ℕ) → KeepsFits (node fmt left)
  unfolding node is_clear is_control
  node-Fits zero indent name item v out named h =
      emit-Fits out _ h (head-IsClear indent name item false named, refl)
  node-Fits (suc left) indent name item v out named h =
      either_way Fits (leb max_lines (length out)) h (
        lay_out-Fits (node fmt left) (node-Fits left) indent name item (shape fmt v) out named
          (shape-ClearShape fmt clear v) h)

  stopped-ClearLine : ClearLine (stopped fmt)
  unfolding is_clear is_control
  stopped-ClearLine = (
    refl,
    append-IsClear (codes "… display stopped after " ++ fmt.itoa max_lines)
        (codes " lines; the rest of this payload is not shown.")
        (append-IsClear (codes "… display stopped after ") (fmt.itoa max_lines) refl
          (clear.itoa max_lines))
        refl,
  )

  -- Whatever the payload, it renders to at most one line more than the limit, and to no control
  -- character in any line, when the formats of a number and of a time print none.
  pub render-bounded :
      (v : Value) → (length (render fmt v) ≤ max_lines + 1) × All ClearLine (render fmt v)
  unfolding render is_clear
  render-bounded v =
      let out = node fmt (max_depth + 1) 0 [] false v [] in
      let fits : Fits out =
        node-Fits (max_depth + 1) 0 [] false v [] refl
          (record { bounded = omega arith; clear = tt }) in
      elim (Bool-cases (leb max_lines (length out))) [
        | inl full ↦ rw full (
          omega (arith, length-append out (stopped fmt ∷ []), fits.bounded),
          append-All ClearLine out (stopped fmt ∷ []) fits.clear (stopped-ClearLine, tt),
        )
        | inr room ↦ rw room (omega (arith, fits.bounded), fits.clear)
      ]
