-- ===== src/Ui/Detail/Clear.antt =====
-- internal/ui/detail/detail.go: text that cannot drive the terminal.
use go_salt_events.Base.{
  Bool, Bool-cases, List, [], bytes_ltb, codes, false, inl, inr, insert_sorted, length, refl,
  replicate, sort, suc, true, zero, ℕ, ℤ, ◌++◌, ◌∷◌,
}
use go_salt_events.Saltipc.Value.{
  Fields, Pairs, Value, bin, bool_of, field_of, float32, float64, int_of, list_of, no_fields,
  no_pairs, null, pair, str, time_of, typed, untyped,
}
use go_salt_events.Ui.Text.{IsClear, Runes, append-IsClear, is_clear, is_control, sanitise-IsClear}
use go_salt_events.Ui.Detail.Render.{
  Entry, Formats, Line, Shape, head, leaf, line, mapping_of, scalar, separator, sequence_of, shape,
  typed_entries, untyped_entries,
}

-- What the formats are documented to give: the digits and signs of a number and of a time.
pub record AreClear (fmt : Formats) : Type 0 where
  pub clock : (t : ℕ) → IsClear (fmt.clock t)
  pub itoa : (n : ℕ) → IsClear (fmt.itoa n)
  pub stamp : (t : ℤ) → IsClear (fmt.stamp t)

abbrev pub All {ℓ} : {A : Type ℓ} → (A → Type 0) → List A → Type 0
All P [] = Unit {0}
All P (x ∷ xs) = P x × All P xs

pub append-All {ℓ} :
    {A : Type ℓ} (P : A → Type 0) (a b : List A) → All P a → All P b → All P (a ++ b)
append-All P [] b ha hb = hb
append-All P (l ∷ ls) b (h, hs) hb = (h, append-All P ls b hs hb)

abbrev pub ClearLine : Line → Type 0
ClearLine (line before text slot) = IsClear before × IsClear text

abbrev pub ClearKey : Entry → Type 0
ClearKey e = IsClear e.key

spaces-IsClear : (n : ℕ) → IsClear (replicate n 32)
unfolding is_clear is_control
spaces-IsClear zero = refl
spaces-IsClear (suc n) = spaces-IsClear n

separator-IsClear : (container : Bool) → IsClear (separator container)
unfolding is_clear is_control
separator-IsClear true = refl
separator-IsClear false = refl

pub head-IsClear :
    (indent : ℕ) (name : Runes) (item container : Bool)
    → IsClear name
    → IsClear (head indent name item container)
unfolding head is_clear is_control
head-IsClear indent name true true h =
    append-IsClear (replicate indent 32) (codes "-") (spaces-IsClear indent) refl
head-IsClear indent name true false h =
    append-IsClear (replicate indent 32) (codes "- ") (spaces-IsClear indent) refl
head-IsClear indent [] false container h = spaces-IsClear indent
head-IsClear indent (k ∷ ks) false container h =
    append-IsClear (replicate indent 32 ++ (k ∷ ks)) (separator container)
      (append-IsClear (replicate indent 32) (k ∷ ks) (spaces-IsClear indent) h)
      (separator-IsClear container)

module _ {ℓ} {A : Type ℓ} (P : A → Type 0) (less : A → A → Bool) where
  insert_sorted-All : (x : A) (xs : List A) → P x → All P xs → All P (insert_sorted less x xs)
  unfolding insert_sorted
  insert_sorted-All x [] h hs = (h, tt)
  insert_sorted-All x (y ∷ ys) h (hy, hys) = elim (Bool-cases (less y x)) [
    | inl eq ↦ rw eq (hy, insert_sorted-All x ys h hys)
    | inr eq ↦ rw eq (h, (hy, hys))
  ]

  sort-All : (xs : List A) → All P xs → All P (sort less xs)
  unfolding sort
  sort-All [] h = h
  sort-All (x ∷ xs) (h, hs) = insert_sorted-All x (sort less xs) h (sort-All xs hs)

-- The keys and the text of what is laid out.
abbrev pub ClearShape : Shape → Type 0
ClearShape (mapping_of es) = All ClearKey es
ClearShape (sequence_of vs) = Unit {0}
ClearShape (leaf text) = IsClear text

module _ (fmt : Formats) (clear : AreClear fmt) where
  pub scalar-IsClear : (v : Value) → IsClear (scalar fmt v)
  unfolding scalar is_clear is_control
  scalar-IsClear null = refl
  scalar-IsClear (str s) = sanitise-IsClear s
  scalar-IsClear (bin b) =
      append-IsClear (codes "<") (fmt.itoa (length b) ++ codes " bytes of binary>") refl (
        append-IsClear (fmt.itoa (length b)) (codes " bytes of binary>") (clear.itoa (length b))
          refl)
  scalar-IsClear (bool_of b) = sanitise-IsClear (fmt.print (bool_of b))
  scalar-IsClear (int_of k i) = sanitise-IsClear (fmt.print (int_of k i))
  scalar-IsClear (float64 x) = sanitise-IsClear (fmt.print (float64 x))
  scalar-IsClear (float32 x) = sanitise-IsClear (fmt.print (float32 x))
  scalar-IsClear (list_of xs) = sanitise-IsClear (fmt.print (list_of xs))
  scalar-IsClear (untyped ps) = sanitise-IsClear (fmt.print (untyped ps))
  scalar-IsClear (typed fs) = sanitise-IsClear (fmt.print (typed fs))
  scalar-IsClear (time_of t) = clear.stamp t

  untyped-ClearKey : (ps : Pairs) → All ClearKey (untyped_entries fmt ps)
  unfolding untyped_entries
  untyped-ClearKey no_pairs = tt
  untyped-ClearKey (pair k v ps) = (scalar-IsClear k, untyped-ClearKey ps)

  typed-ClearKey : (fs : Fields) → All ClearKey (typed_entries fmt fs)
  unfolding typed_entries
  typed-ClearKey no_fields = tt
  typed-ClearKey (field_of k v fs) = (sanitise-IsClear k, typed-ClearKey fs)

  pub shape-ClearShape : (v : Value) → ClearShape (shape fmt v)
  unfolding shape
  shape-ClearShape (untyped ps) =
      sort-All ClearKey (λ a b. bytes_ltb a.key b.key) (untyped_entries fmt ps)
        (untyped-ClearKey ps)
  shape-ClearShape (typed fs) =
      sort-All ClearKey (λ a b. bytes_ltb a.key b.key) (typed_entries fmt fs) (typed-ClearKey fs)
  shape-ClearShape (list_of xs) = tt
  shape-ClearShape null = scalar-IsClear null
  shape-ClearShape (str s) = scalar-IsClear (str s)
  shape-ClearShape (bin b) = scalar-IsClear (bin b)
  shape-ClearShape (bool_of b) = scalar-IsClear (bool_of b)
  shape-ClearShape (int_of k i) = scalar-IsClear (int_of k i)
  shape-ClearShape (float64 x) = scalar-IsClear (float64 x)
  shape-ClearShape (float32 x) = scalar-IsClear (float32 x)
  shape-ClearShape (time_of t) = scalar-IsClear (time_of t)
