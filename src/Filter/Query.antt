-- ===== src/Filter/Query.antt =====
-- internal/filter/filter.go: the terms of a query and how they match an event. `decode` stands for the
-- decoding of a string into runes, which Go does for `[]rune(s)` and for the walk of `fnmatch`.
pub mod Literal
pub mod Terms
pub mod Accepted
pub mod Parse
use go_salt_events.Base.{
  Bool, Bytes, List, Option, [], bytes_eq, codes, false, if◌then◌else◌, length, ltb, none, not,
  some, suc, true, zero, ℕ, ◌&&◌, ◌==◌, ◌||◌, ◌∷◌,
}
use go_salt_events.Model.Event.{Event, kind_string}
use go_salt_events.Filter.Glob.{Runes, after_bang, class_end, fnmatch}
use go_salt_events.Model.Job.{is_zero}

abbrev pub field_tag : Bytes
field_tag = []

abbrev pub field_minion : Bytes
field_minion = codes "minion"

abbrev pub field_jid : Bytes
field_jid = codes "jid"

abbrev pub field_fun : Bytes
field_fun = codes "fun"

abbrev pub field_ok : Bytes
field_ok = codes "ok"

abbrev pub field_ns : Bytes
field_ns = codes "ns"

abbrev pub field_kind : Bytes
field_kind = codes "kind"

abbrev pub value_true : Bytes
value_true = codes "true"

abbrev pub value_false : Bytes
value_false = codes "false"

abbrev pub max_glob_runes : ℕ
max_glob_runes = 512

-- `validKinds`
abbrev pub valid_kinds : List Bytes
valid_kinds =
    codes "new"
    ∷ codes "ret"
    ∷ codes "prog"
    ∷ codes "start"
    ∷ codes "auth"
    ∷ codes "key"
    ∷ codes "presence"
    ∷ codes "other"
    ∷ []

-- `validFields`
abbrev pub valid_fields : List Bytes
valid_fields = field_minion ∷ field_jid ∷ field_fun ∷ field_ok ∷ field_ns ∷ field_kind ∷ []

unfoldable pub is_in : List Bytes → Bytes → Bool
is_in [] s = false
is_in (n ∷ ns) s = bytes_eq n s || is_in ns s

-- `term`; a nil pattern is `none`.
pub record Term : Type 0 where
  pub field : Bytes
  pub value : Bytes
  pub pattern : Option Runes

-- What is wrong with a term, instead of the message.
pub data TermError : Type 0 where
  unknown_field no_value bad_ok unknown_kind too_long unclosed_class : TermError

pub data Parsed : Type 0 where
  ok : Term → Parsed
  failed : TermError → Parsed

-- `ContainsAny(value, metachars)`
unfoldable pub has_meta : Bytes → Bool
has_meta [] = false
has_meta (c ∷ s) = (c == b'*') || (c == b'?') || (c == b'[') || has_meta s

-- The loop of `validateGlob`, which jumps past each bracket expression; the fuel counts the runes.
unfoldable pub closed_classes : ℕ → Runes → Bool
closed_classes zero p = true
closed_classes (suc f) [] = true
closed_classes (suc f) (x ∷ p) = elim (x == b'[') [
  | false ↦ closed_classes f p
  | true ↦ elim (class_end (after_bang p)) [
    | none ↦ false
    | some (body, rest) ↦ closed_classes f rest
  ]
]

-- `validateGlob`
unfoldable pub validate_glob : Runes → Bool
unfolding closed_classes
validate_glob p = closed_classes (length p) p

-- `strings.Cut(f, ":")`
unfoldable pub cut_colon : Bytes → Option (Bytes × Bytes)
cut_colon [] = none
cut_colon (c ∷ s) =
    if c == b':'
    then some ([], s)
    else elim (cut_colon s) [ none ↦ none | some (a, b) ↦ some (c ∷ a, b) ]

-- `okMatch`
unfoldable pub ok_match : Bool → Event → Bool
ok_match want e =
    let succeeded = is_zero e.ret_code && e.success in
    if not e.has_ret then false else if want then succeeded else not succeeded

module _ (decode : Bytes → Runes) where
  -- `compileGlob`
  unfoldable pub compile_glob : Bytes → Bytes → Parsed
  unfolding has_meta validate_glob
  compile_glob field value =
      let pattern = decode value in
      if not (has_meta value)
      then ok (record { field = field; value = value; pattern = none })
      else if ltb max_glob_runes (length pattern)
      then failed too_long
      else if not (validate_glob pattern)
      then failed unclosed_class
      else ok (record { field = field; value = value; pattern = some pattern })

  -- `parseFieldTerm`
  unfoldable pub parse_field_term : Bytes → Bytes → Parsed
  unfolding compile_glob is_in
  parse_field_term field value =
      let plain = ok (record { field = field; value = value; pattern = none }) in
      if bytes_eq field field_ok
      then if not (bytes_eq value value_true) && not (bytes_eq value value_false)
        then failed bad_ok
        else plain
      else if bytes_eq field field_kind
      then if not (is_in valid_kinds value) then failed unknown_kind else plain
      else compile_glob field value

  -- `parseTerm`
  unfoldable pub parse_term : Bytes → Parsed
  unfolding parse_field_term
  parse_term f = elim (cut_colon f) [
    | none ↦ compile_glob field_tag f
    | some (field, value) ↦
        if not (is_in valid_fields field)
        then failed unknown_field
        else if bytes_eq value []
        then failed no_value
        else parse_field_term field value
  ]

  -- `globMatch`; `fnmatch` always answers.
  unfoldable pub glob_match : Term → Bytes → Bool
  glob_match t s = elim t.pattern [
    | none ↦ bytes_eq t.value s
    | some p ↦ elim (fnmatch p (decode s)) [ none ↦ false | some b ↦ b ]
  ]

  -- `match`
  unfoldable pub match_term : Term → Event → Bool
  unfolding glob_match
  match_term t e =
      if bytes_eq t.field field_tag
      then glob_match t e.tag
      else if bytes_eq t.field field_minion
      then glob_match t e.minion
      else if bytes_eq t.field field_jid
      then glob_match t e.jid
      else if bytes_eq t.field field_fun
      then glob_match t e.fun
      else if bytes_eq t.field field_ns
      then glob_match t e.namespace
      else if bytes_eq t.field field_kind
      then bytes_eq (kind_string e.kind) t.value
      else if bytes_eq t.field field_ok
      then ok_match (bytes_eq t.value value_true) e
      else false

  -- `Match`
  unfoldable pub match_all : List Term → Event → Bool
  unfolding match_term
  match_all [] e = true
  match_all (t ∷ ts) e = if not (match_term t e) then false else match_all ts e
