-- ===== src/Filter/Query/Parse/Accepts.antt =====
-- internal/filter/filter.go, `Parse`: what an accepted query is made of, and what a refused one gives.
use go_salt_events.Base.{
  Bool-cases, Bytes, List, [], append-nil, append_assoc, arith, inl, inr, length, ltb, refl, subst,
  ◌++◌, ◌<◌, ◌∷◌, ◌≡◌, ◌≤◌, ◌⊎◌,
}
use go_salt_events.Base.Utf8.{fields, runes, trim_space}
use go_salt_events.Filter.Query.{Parsed, Term, failed, ok, parse_term}
use go_salt_events.Filter.Query.Accepted.{IsMatchable, WhenOk, parse_term-IsMatchable}
use go_salt_events.Filter.Query.Parse.{
  ParsedQuery, accepted, bad_term, max_terms, parse, parse_terms, refused, too_many_terms,
}

-- The terms are those of the words, in order.
abbrev pub Compiled : List Bytes → List Term → Type 0
Compiled [] [] = Unit {0}
Compiled [] (_ ∷ _) = ⊥
Compiled (_ ∷ _) [] = ⊥
Compiled (f ∷ fs) (t ∷ ts) = (parse_term runes f ≡ ok t) × IsMatchable runes t × Compiled fs ts

-- What `Parse` says of a text with those words: all were compiled, or one was not, and which comes first
-- decides the error.
abbrev pub Reports : Bytes → List Bytes → ParsedQuery → Type 0
Reports raw ws (accepted q) = Compiled ws q.terms × (q.raw ≡ raw) × (length ws ≤ max_terms)
Reports raw ws (refused (too_many_terms n)) = (n ≡ length ws) × (max_terms < n)
Reports raw ws (refused (bad_term err)) =
    (before : List Bytes) × (f : Bytes) × (after : List Bytes) × (ws ≡ before ++ f ∷ after)
    × (parse_term runes f ≡ failed err)

Compiled-snoc :
    (fs : List Bytes) (ts : List Term) (f : Bytes) (t : Term)
    → Compiled fs ts
    → parse_term runes f ≡ ok t
    → IsMatchable runes t
    → Compiled (fs ++ f ∷ []) (ts ++ t ∷ [])
Compiled-snoc [] [] f t h p m = (p, m, tt)
Compiled-snoc [] (_ ∷ _) f t h p m = elim h [ ]
Compiled-snoc (_ ∷ _) [] f t h p m = elim h [ ]
Compiled-snoc (g ∷ gs) (s ∷ ss) f t h p m = (h.0, h.1, Compiled-snoc gs ss f t h.2 p m)

Parsed-cases : (r : Parsed) → ((t : Term) × (r ≡ ok t)) ⊎ ((err : _) × (r ≡ failed err))
Parsed-cases (ok t) = inl (t, refl)
Parsed-cases (failed err) = inr (err, refl)

parse_terms-Reports :
    (raw : Bytes) (before ws : List Bytes) (done : List Term)
    → Compiled before done
    → length (before ++ ws) ≤ max_terms
    → Reports raw (before ++ ws) (parse_terms raw done ws)
unfolding parse_terms
parse_terms-Reports raw before [] done h few = (rw (append-nil before) h, refl, few)
parse_terms-Reports raw before (f ∷ ws) done h few = elim (Parsed-cases (parse_term runes f)) [
  | inr (err, e) ↦ rw (parse_terms, e) (before, f, ws, refl, e)
  | inl (t, e) ↦
      let good : IsMatchable runes t =
        subst (WhenOk (IsMatchable runes)) e (parse_term-IsMatchable runes f) in
      rw (parse_terms, e)
        (rw (← append_assoc before (f ∷ []) ws) (
          parse_terms-Reports raw (before ++ f ∷ []) ws (done ++ t ∷ [])
            (Compiled-snoc before done f t h e good) (rw (append_assoc before (f ∷ []) ws) few)))
]

-- A query is accepted only if each of its words is, in order, and then with at most 64 terms that can
-- all be matched as written; otherwise the error is that there are more words, or that of a word that
-- is there.
pub parse-Reports : (s : Bytes) → Reports (trim_space s) (fields s) (parse s)
unfolding parse
parse-Reports s = elim (Bool-cases (ltb max_terms (length (fields s)))) [
  | inl many ↦ rw (parse, many) (refl, ground (arith, many))
  | inr few ↦
      rw (parse, few) (parse_terms-Reports (trim_space s) [] (fields s) [] tt (ground (arith, few)))
]
