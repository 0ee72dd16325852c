-- ===== src/Hub/Facts.antt =====
-- cmd/salt-events/hub.go, `factsFor`: what a job/new payload says beyond the extracted fields.
pub mod Complete
use go_salt_events.Base.{
  Bool, Bytes, List, Option, [], bytes_eq, codes, false, if◌then◌else◌, leb, length, none, not,
  some, take, true, ℕ, ◌++◌, ◌==◌, ◌||◌, ◌∷◌,
}
use go_salt_events.Base.Utf8.{to_valid}
use go_salt_events.Model.Event.{Event, Kind, payload_len}
use go_salt_events.Saltipc.Codec.{trimmed_marker}
use go_salt_events.Saltipc.Value.{
  Fields, Items, Pairs, Value, bin, cons, field_of, list_of, nil, no_fields, no_pairs, pair, str,
  typed, untyped,
}

abbrev pub max_label_bytes : ℕ
max_label_bytes = 256

-- `newJobFacts`; a nil `expected` is `none`.
pub record JobFacts : Type 0 where
  pub expected : Option (List Bytes)
  pub trimmed : Bool
  pub tgt : Bytes
  pub tgt_type : Bytes
  pub user : Bytes

abbrev pub no_facts : JobFacts
no_facts = record { expected = none; trimmed = false; tgt = []; tgt_type = []; user = [] }

-- `text`
unfoldable pub text : Value → Option Bytes
text (str s) = some s
text (bin s) = some s
text _ = none

-- `t[key]` on `map[interface{}]interface{}`, for a key that is a string.
unfoldable pub find_pair : Pairs → Bytes → Option Value
find_pair no_pairs k = none
find_pair (pair (str j) v ps) k = if bytes_eq j k then some v else find_pair ps k
find_pair (pair _ v ps) k = find_pair ps k

-- `t[key]` on `map[string]interface{}`
unfoldable pub find_field : Fields → Bytes → Option Value
find_field no_fields k = none
find_field (field_of j v fs) k = if bytes_eq j k then some v else find_field fs k

-- `field`
unfoldable pub field : Value → Bytes → Option Value
unfolding find_pair find_field
field (untyped ps) k = find_pair ps k
field (typed fs) k = find_field fs k
field _ k = none

-- The loop of `expectedFrom`: none if an item is no text.
unfoldable pub all_texts : Items → Option (List Bytes)
unfolding text
all_texts nil = some []
all_texts (cons v vs) = elim (text v) [
  | none ↦ none
  | some s ↦ elim (all_texts vs) [ none ↦ none | some ss ↦ some (s ∷ ss) ]
]

-- The `minions` that are there: `expectedFrom` past its first test.
unfoldable pub expected_value : Value → Option (List Bytes) × Bool
unfolding all_texts
expected_value (str s) = (none, bytes_eq s trimmed_marker)
expected_value (bin s) = (none, bytes_eq s trimmed_marker)
expected_value (list_of vs) = (all_texts vs, false)
expected_value _ = (none, false)

-- `expectedFrom`
unfoldable pub expected_from : Value → Option (List Bytes) × Bool
unfolding expected_value
expected_from v = elim (field v (codes "minions")) [
  | none ↦ (none, false)
  | some raw ↦ expected_value raw
]

-- `clampLabel`
unfoldable pub clamp_label : Bytes → Bytes
clamp_label s = if leb (length s) max_label_bytes then s else to_valid (take max_label_bytes s)

-- The loop of `label` over a list, and `strings.Join`.
unfoldable pub some_texts : Items → List Bytes
unfolding text
some_texts nil = []
some_texts (cons v vs) = elim (text v) [ none ↦ some_texts vs | some s ↦ s ∷ some_texts vs ]

unfoldable pub join_commas : List Bytes → Bytes
join_commas [] = []
join_commas (s ∷ []) = s
join_commas (s ∷ t ∷ ss) = s ++ b',' ∷ join_commas (t ∷ ss)

-- `label`
unfoldable pub label : Option Value → Bytes
unfolding clamp_label some_texts join_commas
label none = []
label (some (str s)) = clamp_label s
label (some (bin s)) = clamp_label s
label (some (list_of vs)) = clamp_label (join_commas (some_texts vs))
label (some _) = []

-- What `factsFor` makes of a decoded payload.
unfoldable pub facts_of : Value → JobFacts
unfolding expected_from label
facts_of v =
    let (expected, trimmed) = expected_from v in
    record {
      expected = expected;
      trimmed = trimmed;
      tgt = label (field v (codes "tgt"));
      tgt_type = label (field v (codes "tgt_type"));
      user = label (field v (codes "user"));
    }

abbrev pub is_new : Kind → Bool
is_new Kind.new = true
is_new Kind.ret = false
is_new Kind.other = false
is_new Kind.prog = false
is_new Kind.start = false
is_new Kind.auth = false
is_new Kind.key = false
is_new Kind.presence = false

abbrev pub bytes_of : Option Bytes → Bytes
bytes_of none = []
bytes_of (some p) = p

-- `factsFor`; a nil decoder is `none`, and a decoder's error too.
unfoldable pub facts_for : Option (Bytes → Option Value) → Event → JobFacts
unfolding facts_of
facts_for none e = no_facts
facts_for (some decode) e =
    if not (is_new e.kind) || (payload_len e.payload == 0)
    then no_facts
    else elim (decode (bytes_of e.payload)) [ none ↦ no_facts | some v ↦ facts_of v ]
