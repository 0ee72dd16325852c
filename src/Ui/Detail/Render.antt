-- ===== src/Ui/Detail/Render.antt =====
-- internal/ui/detail/detail.go: the renderer of a decoded payload.
use go_salt_events.Base.{
  Bool, Bytes, List, [], bytes_eq, bytes_ltb, codes, false, if◌then◌else◌, leb, length, replicate,
  sort, suc, true, zero, ℕ, ℤ, ◌++◌, ◌+◌, ◌∷◌,
}
use go_salt_events.Stats.Jobs.Ingest.{is_empty}
use go_salt_events.Saltipc.Value.{
  Fields, Items, Pairs, Value, bin, bool_of, cons, field_of, float32, float64, int_of, list_of, nil,
  no_fields, no_pairs, null, pair, str, time_of, typed, untyped,
}
use go_salt_events.Ui.Text.{Runes, sanitise}

-- What a `DecodeFunc` answers: a value, or the text of the error.
pub data Decoded : Type 0 where
  value : Value → Decoded
  failed : Bytes → Decoded

-- `slot`
pub data Slot : Type 0 where
  value_slot header_slot muted warn_slot error_slot : Slot

-- `line`
pub data Line : Type 0 where
  line : Runes → Runes → Slot → Line

-- `Time.Format(clockLayout)`; and the text of a leaf that is neither nil nor a string: `strconv.Itoa` of
-- the length of a binary, `Time.Format(time.RFC3339Nano)` or `fmt.Sprint`.
pub record Formats : Type 0 where
  pub clock : ℕ → Runes
  pub itoa : ℕ → Runes
  pub stamp : ℤ → Runes
  pub print : Value → Bytes

abbrev pub max_depth : ℕ
max_depth = 32

abbrev pub max_lines : ℕ
max_lines = 20000

abbrev pub indent_step : ℕ
indent_step = 2

abbrev pub value_trimmed : Runes
value_trimmed = codes "VALUE_TRIMMED"

-- `pair`, with its key as text.
pub record Entry : Type 0 where
  pub key : Runes
  pub val : Value

-- What `node` tells apart.
pub data Shape : Type 0 where
  mapping_of : List Entry → Shape
  sequence_of : List Value → Shape
  leaf : Runes → Shape

unfoldable pub items : Items → List Value
items nil = []
items (cons v vs) = v ∷ items vs

abbrev pub separator : Bool → Runes
separator true = codes ":"
separator false = codes ": "

-- `head`
unfoldable pub head : ℕ → Runes → Bool → Bool → Runes
head indent key true true = replicate indent 32 ++ codes "-"
head indent key true false = replicate indent 32 ++ codes "- "
head indent [] false container = replicate indent 32
head indent (k ∷ ks) false container = replicate indent 32 ++ (k ∷ ks) ++ separator container

-- `scalarSlot`
unfoldable pub scalar_slot : Runes → Slot
scalar_slot text = if bytes_eq text value_trimmed then warn_slot else value_slot

-- `emit`
unfoldable pub emit : List Line → Line → List Line
emit out l = if leb max_lines (length out) then out else out ++ l ∷ []

-- The line that names a container, when there is one, and the indent of what is in it.
unfoldable pub opening : ℕ → Runes → Bool → List Line → ℕ × List Line
unfolding head emit
opening indent key item out =
    if not_top
    then (indent + indent_step, emit out (line (head indent key item true) [] value_slot))
    else (indent, out)
  where
    not_top : Bool
    not_top = if is_empty key then item else true

-- A `for` loop over what a container holds.
unfoldable pub each {ℓ} :
    {A : Type ℓ} → (List Line → A → List Line) → List Line → List A → List Line
each f out [] = out
each f out (x ∷ xs) = each f (f out x) xs

-- `mapping`, `sequence` and the end of `node`, for what renders a value one level down.
unfoldable pub lay_out :
    (ℕ → Runes → Bool → Value → List Line → List Line)
    → ℕ
    → Runes
    → Bool
    → Shape
    → List Line
    → List Line
unfolding opening each emit head scalar_slot
lay_out inner indent key item (mapping_of []) out =
    emit out (line (head indent key item false) (codes "{}") value_slot)
lay_out inner indent key item (mapping_of (e ∷ es)) out =
    let (child, opened) = opening indent key item out in
    each (λ acc (x : Entry). inner child x.key false x.val acc) opened (e ∷ es)
lay_out inner indent key item (sequence_of []) out =
    emit out (line (head indent key item false) (codes "[]") value_slot)
lay_out inner indent key item (sequence_of (v ∷ vs)) out =
    let (child, opened) = opening indent key item out in
    each (λ acc x. inner child [] true x acc) opened (v ∷ vs)
lay_out inner indent key item (leaf text) out =
    emit out (line (head indent key item false) text (scalar_slot text))

module _ (fmt : Formats) where
  -- `scalar`
  unfoldable pub scalar : Value → Runes
  scalar null = codes "null"
  scalar (str s) = sanitise s
  scalar (bin b) = codes "<" ++ fmt.itoa (length b) ++ codes " bytes of binary>"
  scalar (bool_of b) = sanitise (fmt.print (bool_of b))
  scalar (int_of k i) = sanitise (fmt.print (int_of k i))
  scalar (float64 x) = sanitise (fmt.print (float64 x))
  scalar (float32 x) = sanitise (fmt.print (float32 x))
  scalar (list_of xs) = sanitise (fmt.print (list_of xs))
  scalar (untyped ps) = sanitise (fmt.print (untyped ps))
  scalar (typed fs) = sanitise (fmt.print (typed fs))
  scalar (time_of t) = fmt.stamp t

  unfoldable pub untyped_entries : Pairs → List Entry
  unfolding scalar
  untyped_entries no_pairs = []
  untyped_entries (pair k v ps) = record { key = scalar k; val = v } ∷ untyped_entries ps

  unfoldable pub typed_entries : Fields → List Entry
  typed_entries no_fields = []
  typed_entries (field_of k v fs) = record { key = sanitise k; val = v } ∷ typed_entries fs

  -- `pairs`, the type switch of `node` and its `scalar`. Text in runes is ordered as its UTF-8 is.
  unfoldable pub shape : Value → Shape
  unfolding untyped_entries typed_entries scalar
  shape (untyped ps) = mapping_of (sort (λ a b. bytes_ltb a.key b.key) (untyped_entries ps))
  shape (typed fs) = mapping_of (sort (λ a b. bytes_ltb a.key b.key) (typed_entries fs))
  shape (list_of xs) = sequence_of (items xs)
  shape null = leaf (scalar null)
  shape (str s) = leaf (scalar (str s))
  shape (bin b) = leaf (scalar (bin b))
  shape (bool_of b) = leaf (scalar (bool_of b))
  shape (int_of k i) = leaf (scalar (int_of k i))
  shape (float64 x) = leaf (scalar (float64 x))
  shape (float32 x) = leaf (scalar (float32 x))
  shape (time_of t) = leaf (scalar (time_of t))

  -- `node`, for a value at a depth of `max_depth + 1` less `left`.
  unfoldable pub node : ℕ → ℕ → Runes → Bool → Value → List Line → List Line
  unfolding shape lay_out emit head
  node zero indent key item v out =
      emit out (line (head indent key item false) (codes "…(nested too deeply to display)") muted)
  node (suc left) indent key item v out =
      if leb max_lines (length out) then out else lay_out (node left) indent key item (shape v) out

  -- The last line of a payload that is cut short.
  abbrev pub stopped : Line
  stopped =
      line []
        (codes "… display stopped after "
          ++ fmt.itoa max_lines
          ++ codes " lines; the rest of this payload is not shown.")
        muted

  -- `render`
  unfoldable pub render : Value → List Line
  unfolding node
  render v =
      let out = node (max_depth + 1) 0 [] false v [] in
      if leb max_lines (length out) then out ++ stopped ∷ [] else out
