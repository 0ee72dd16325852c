-- ===== src/Filter/Query/Terms.antt =====
-- internal/filter/filter.go: what a compiled term accepts.
use go_salt_events.Base.{Bytes, List, [], arith, false, refl, true, ◌&&◌, ◌||◌, ◌∷◌, ◌≡◌}
use go_salt_events.Model.Event.{Event}
use go_salt_events.Cache.{stripped}
use go_salt_events.Filter.Glob.{Runes}
use go_salt_events.Filter.Query.{Term, match_all, match_term, ok_match}

match_term-stripped :
    (decode : Bytes → Runes) (t : Term) (e : Event)
    → match_term decode t (stripped e) ≡ match_term decode t e
unfolding match_term stripped ok_match
match_term-stripped decode t e = refl

-- A filter answers the same for an event before and after its payload is shed.
pub match_all-stripped :
    (decode : Bytes → Runes) (ts : List Term) (e : Event)
    → match_all decode ts (stripped e) ≡ match_all decode ts e
unfolding match_all
match_all-stripped decode [] e = refl
match_all-stripped decode (t ∷ ts) e =
    rw (match_term-stripped decode t e, match_all-stripped decode ts e) refl

-- An event that carries a return matches exactly one of ok:true and ok:false, and any other event
-- matches neither.
pub ok_match_splits :
    (e : Event)
    → ((ok_match true e || ok_match false e) ≡ e.has_ret)
      × ((ok_match true e && ok_match false e) ≡ false)
unfolding ok_match
ok_match_splits e = (ground arith, ground arith)
