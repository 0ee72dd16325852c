-- ===== src/Filter/Query/Parse.antt =====
-- internal/filter/filter.go, `Parse`: a whole query.
pub mod Accepts
use go_salt_events.Base.{Bool, Bytes, List, [], if◌then◌else◌, length, ltb, ℕ, ◌++◌, ◌==◌, ◌∷◌}
use go_salt_events.Base.Utf8.{fields, runes, trim_space}
use go_salt_events.Model.Event.{Event}
use go_salt_events.Filter.Query.{Term, TermError, failed, match_all, ok, parse_term}

abbrev pub max_terms : ℕ
max_terms = 64

pub record Query : Type 0 where
  pub terms : List Term
  pub raw : Bytes

-- The zero `Query`.
abbrev pub zero_query : Query
zero_query = record { terms = []; raw = [] }

pub data QueryError : Type 0 where
  too_many_terms : ℕ → QueryError
  bad_term : TermError → QueryError

pub data ParsedQuery : Type 0 where
  accepted : Query → ParsedQuery
  refused : QueryError → ParsedQuery

-- The loop of `Parse`, with the terms compiled so far; it ends at the first term that is refused.
unfoldable pub parse_terms : Bytes → List Term → List Bytes → ParsedQuery
unfolding parse_term
parse_terms raw done [] = accepted (record { terms = done; raw = raw })
parse_terms raw done (f ∷ fs) = elim (parse_term runes f) [
  | failed err ↦ refused (bad_term err)
  | ok t ↦ parse_terms raw (done ++ t ∷ []) fs
]

-- `Parse`; with an error it also returns the zero query.
unfoldable pub parse : Bytes → ParsedQuery
unfolding parse_terms
parse s =
    let words = fields s in
    if ltb max_terms (length words)
    then refused (too_many_terms (length words))
    else parse_terms (trim_space s) [] words

-- The query that `Parse` returns, with an error or without.
unfoldable pub query_of : ParsedQuery → Query
query_of (accepted q) = q
query_of (refused _) = zero_query

-- `IsZero`
unfoldable pub is_zero : Query → Bool
is_zero q = length q.terms == 0

-- `String`
unfoldable pub to_string : Query → Bytes
to_string q = q.raw

-- `Match`
unfoldable pub match_query : Query → Event → Bool
unfolding match_all
match_query q e = match_all runes q.terms e
