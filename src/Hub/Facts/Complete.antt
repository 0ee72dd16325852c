-- ===== src/Hub/Facts/Complete.antt =====
-- cmd/salt-events/hub.go: when `expectedFrom` knows the targets of a job.
use go_salt_events.Base.{
  Bool, Bytes, List, Option, Option-cases, [], ap, arith, codes, false, inl, inr, none, refl, some,
  subst, sym, ◌↔◌, ◌∙◌, ◌∷◌, ◌≡◌,
}
use go_salt_events.Saltipc.Value.{Items, Value, bin, cons, list_of, nil, str}
use go_salt_events.Hub.Facts.{all_texts, expected_from, expected_value, field, text}

-- The items are texts, one for one.
pub data Texts : Items → List Bytes → Type 0 where
  no_texts : Texts nil []
  str_text :
      (s : Bytes) (vs : Items) (ss : List Bytes) → Texts vs ss → Texts (cons (str s) vs) (s ∷ ss)
  bin_text :
      (s : Bytes) (vs : Items) (ss : List Bytes) → Texts vs ss → Texts (cons (bin s) vs) (s ∷ ss)

all_texts_complete : (vs : Items) (ss : List Bytes) → Texts vs ss → all_texts vs ≡ some ss
unfolding all_texts text
all_texts_complete _ _ no_texts = refl
all_texts_complete _ _ (str_text s vs ss t) = rw (all_texts_complete vs ss t) refl
all_texts_complete _ _ (bin_text s vs ss t) = rw (all_texts_complete vs ss t) refl

-- A result that may be missing is the texts of the items.
abbrev Reads : Items → Option (List Bytes) → Type 0
Reads vs none = Unit {0}
Reads vs (some ss) = Texts vs ss

str-Reads :
    (s : Bytes) (vs : Items) (rest : Option (List Bytes))
    → Reads vs rest
    → Reads (cons (str s) vs) (elim rest [ none ↦ none | some ss ↦ some (s ∷ ss) ])
str-Reads s vs none h = tt
str-Reads s vs (some ss) h = str_text s vs ss h

bin-Reads :
    (s : Bytes) (vs : Items) (rest : Option (List Bytes))
    → Reads vs rest
    → Reads (cons (bin s) vs) (elim rest [ none ↦ none | some ss ↦ some (s ∷ ss) ])
bin-Reads s vs none h = tt
bin-Reads s vs (some ss) h = bin_text s vs ss h

all_texts-Reads : (vs : Items) → Reads vs (all_texts vs)
unfolding all_texts text
all_texts-Reads nil = no_texts
all_texts-Reads (cons (str s) vs) = str-Reads s vs (all_texts vs) (all_texts-Reads vs)
all_texts-Reads (cons (bin s) vs) = bin-Reads s vs (all_texts vs) (all_texts-Reads vs)
all_texts-Reads (cons v vs) = tt

all_texts_sound : (vs : Items) (ss : List Bytes) → all_texts vs ≡ some ss → Texts vs ss
all_texts_sound vs ss h = subst (Reads vs) h (all_texts-Reads vs)

-- What a `minions` that is there says when its targets are known.
expected_value_sound :
    (raw : Value) (ss : List Bytes) (trimmed : Bool)
    → expected_value raw ≡ (some ss, trimmed)
    → (trimmed ≡ false) × ((vs : Items) × ((raw ≡ list_of vs) × Texts vs ss))
unfolding expected_value
expected_value_sound (list_of vs) ss trimmed h =
    (sym (ap (λ x. x.1) h), (vs, (refl, all_texts_sound vs ss (ap (λ x. x.0) h))))
expected_value_sound v ss trimmed h = ground (arith, ap (λ x. x.0) h)

-- The payload's `minions` is a list of texts, and these are all of them, in order.
abbrev pub Lists : Value → List Bytes → Type 0
Lists v ss = (vs : Items) × ((field v (codes "minions") ≡ some (list_of vs)) × Texts vs ss)

known-Lists :
    (v : Value) (ss : List Bytes)
    → (expected_from v).0 ≡ some ss
    → Lists v ss × ((expected_from v).1 ≡ false)
unfolding expected_from
known-Lists v ss h = elim (Option-cases (field v (codes "minions"))) [
  | inl absent ↦ ground (arith, absent, h)
  | inr (raw, there) ↦
      let e : expected_from v ≡ expected_value raw = rw (expected_from, there) refl in
      let (off, (vs, (is_list, texts))) =
        expected_value_sound raw ss (expected_value raw).1
          (sym (rw (← e) (ap (λ x. (x, (expected_from v).1)) (sym h)))) in
      ((vs, (there ∙ ap some is_list, texts)), ap (λ x. x.1) e ∙ off)
]

Lists-known :
    (v : Value) (ss : List Bytes)
    → Lists v ss × ((expected_from v).1 ≡ false)
    → (expected_from v).0 ≡ some ss
unfolding expected_from expected_value
Lists-known v ss ((vs, (there, texts)), _) =
    rw (expected_from, there, all_texts_complete vs ss texts) refl

-- The targets of a job are known exactly when the payload's `minions` is a list whose every item is a
-- text: they are then those texts, all of them, in order, and are not flagged as trimmed. So a partial
-- list is never taken for the whole.
pub expected_from_iff :
    (v : Value) (ss : List Bytes)
    → ((expected_from v).0 ≡ some ss) ↔ (Lists v ss × ((expected_from v).1 ≡ false))
expected_from_iff v ss = (known-Lists v ss, Lists-known v ss)
