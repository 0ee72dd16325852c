-- ===== src/Filter/Query/Accepted.antt =====
-- internal/filter/filter.go, `parseTerm`: what an accepted term satisfies.
use go_salt_events.Base.{
  Bool, Bool-cases, Bytes, Option-cases, [], arith, bytes_eq, either_way, false, if◌then◌else◌, inl,
  inr, length, ltb, none, not, refl, some, true, ◌&&◌, ◌≡◌, ◌≤◌, ◌⊎◌,
}
use go_salt_events.Filter.Glob.{Runes}
use go_salt_events.Filter.Query.{
  Parsed, Term, TermError, bad_ok, compile_glob, cut_colon, failed, field_kind, field_ok, field_tag,
  has_meta, is_in, max_glob_runes, no_value, ok, parse_field_term, parse_term, unknown_kind,
  valid_fields, valid_kinds, validate_glob, value_false, value_true,
}

-- A pattern that `fnmatch` is given: it is the decoded value, with every class closed and no more
-- runes than the limit; a value without one is compared as it stands.
pub record IsMatchable (decode : Bytes → Runes) (t : Term) : Type 0 where
  pub known_field : (t.field ≡ field_tag) ⊎ (is_in valid_fields t.field ≡ true)
  pub pattern :
      (t.pattern ≡ none)
      ⊎ ((t.pattern ≡ some (decode t.value))
          × (validate_glob (decode t.value) ≡ true)
          × (length (decode t.value) ≤ max_glob_runes))

-- What a term that was accepted satisfies.
abbrev pub WhenOk : (Term → Type 0) → Parsed → Type 0
WhenOk P (ok t) = P t
WhenOk P (failed _) = Unit {0}

-- A rejected branch asks nothing.
WhenOk-guard :
    (P : Term → Type 0) (guard : Bool) (err : TermError) (r : Parsed)
    → WhenOk P r
    → WhenOk P (if guard then failed err else r)
WhenOk-guard P true err r h = tt
WhenOk-guard P false err r h = h

module _ (decode : Bytes → Runes) where
  compile_glob-IsMatchable :
      (field value : Bytes)
      → (field ≡ field_tag) ⊎ (is_in valid_fields field ≡ true)
      → WhenOk (IsMatchable decode) (compile_glob decode field value)
  unfolding compile_glob
  compile_glob-IsMatchable field value h =
      let pattern = decode value in
      elim (Bool-cases (has_meta value)) [
        | inr plain ↦ rw plain (record { known_field = h; pattern = inl refl })
        | inl meta ↦ elim (Bool-cases (ltb max_glob_runes (length pattern))) [
          | inl long ↦ rw (meta, long) tt
          | inr fits ↦ elim (Bool-cases (validate_glob pattern)) [
            | inr broken ↦ rw (meta, fits, broken) tt
            | inl closed ↦
                rw (meta, fits, closed)
                  (record { known_field = h; pattern = inr (refl, closed, ground (arith, fits)) })
          ]
        ]
      ]

  parse_field_term-IsMatchable :
      (field value : Bytes)
      → is_in valid_fields field ≡ true
      → WhenOk (IsMatchable decode) (parse_field_term decode field value)
  unfolding parse_field_term
  parse_field_term-IsMatchable field value h =
      let plain : IsMatchable decode (record { field = field; value = value; pattern = none }) =
        record { known_field = inr h; pattern = inl refl } in
      let term : Parsed = ok (record { field = field; value = value; pattern = none }) in
      let Good = WhenOk (IsMatchable decode) in
      either_way Good (bytes_eq field field_ok)
        (WhenOk-guard (IsMatchable decode)
          (not (bytes_eq value value_true) && not (bytes_eq value value_false)) bad_ok term plain)
        (either_way Good (bytes_eq field field_kind)
          (WhenOk-guard (IsMatchable decode) (not (is_in valid_kinds value)) unknown_kind term
            plain)
          (compile_glob-IsMatchable field value (inr h)))

  -- Whatever `parseTerm` accepts can be matched as written: its field is one that `match` knows, so
  -- the branch for an unknown field is never reached; and its pattern, where it has one, is the text
  -- of the term with every bracket expression closed and within the limit on its length.
  pub parse_term-IsMatchable : (f : Bytes) → WhenOk (IsMatchable decode) (parse_term decode f)
  unfolding parse_term
  parse_term-IsMatchable f = elim (Option-cases (cut_colon f)) [
    | inl bare ↦ rw (parse_term, bare) (compile_glob-IsMatchable field_tag f (inl refl))
    | inr ((field, value), cut) ↦ elim (Bool-cases (is_in valid_fields field)) [
      | inr bad ↦ rw (parse_term, cut, bad) tt
      | inl good ↦
          rw (parse_term, cut, good)
            (WhenOk-guard (IsMatchable decode) (bytes_eq value []) no_value
              (parse_field_term decode field value) (parse_field_term-IsMatchable field value good))
    ]
  ]
