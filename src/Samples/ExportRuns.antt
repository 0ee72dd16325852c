-- ===== src/Samples/ExportRuns.antt =====
-- internal/export: one event exported, and an export whose writing fails.
use go_salt_events.Base.{
  Bool, Bytes, List, [], arith, codes, false, ltb, negsuc, none, pos, refl, some, true, ◌++◌, ◌/◌,
  ◌∷◌, ◌≡◌, ℤ,
}
use go_salt_events.Model.Event.{Event, Kind}
use go_salt_events.Saltipc.Value.{
  Value, cons, float64, list_of, nil, no_pairs, null, pair, time_of, untyped,
}
use go_salt_events.Export.JsonSafe.{Formats, is_finite, json_safe}
use go_salt_events.Export.JsonSafe.Marshals.{Dated, Marshals, ReadsBack, json_safe_top-Marshals}
use go_salt_events.Base.{bytes_eq, subst}
use go_salt_events.Config.Paths.{join}
use go_salt_events.Saltipc.Codec.{format_int}
use go_salt_events.Export.Disk.{System, find, overwrite, remove}
use go_salt_events.Export.Options.{Library, Options, failed, not_synced}
use go_salt_events.Export.Write.{write}
use go_salt_events.Export.Write.Safe.{Says, write-Says}

-- Every number reads as 0.
abbrev plain : Formats
plain = record {
  sprint = λ v. codes "key";
  widen = λ f. f;
  format_float = λ bits f. codes "0";
  parse_float = λ s. some 0;
}

plain-ReadsBack : ReadsBack plain
unfolding is_finite
plain-ReadsBack f v fin h =
    let e : 0 ≡ v = ground (arith, h) in subst (λ x. is_finite x ≡ true) e refl

-- A map with a key that is no text, of a time and a NaN.
abbrev odd_map : Value
odd_map =
    untyped (
      pair null (list_of (cons (time_of (pos 5)) (cons (float64 9221120237041090561) nil)))
        no_pairs)

-- Times from the zero instant to the end of the year 9999.
abbrev up_to_9999 : ℤ → Bool
up_to_9999 (pos t) = ltb t 315537897600000000000
up_to_9999 (negsuc t) = false

json_safe_top-Marshals_example : Marshals up_to_9999 33 (json_safe plain 0 odd_map)
unfolding Dated
json_safe_top-Marshals_example =
    json_safe_top-Marshals plain plain-ReadsBack up_to_9999 odd_map ((refl, (tt, tt)), tt)

abbrev go_library : Library
go_library = record {
  formats = plain;
  rfc3339 = λ t. codes "t";
  file_stamp = λ t. codes "s";
  marshal = λ l. some (l.tag);
  as_float = λ n. n;
  tenth = λ n. n / 10;
}

abbrev in_tmp : Options
in_tmp = record {
  dir = codes "/tmp/";
  max = pos 1000;
  now = 7;
  space = some (λ p. some (2000000000, 4000000000));
  chown = none;
  decode = some (λ b. some null);
}

abbrev sound : System
sound = record {
  hidden = λ p. false;
  creates = true;
  writes = λ n. true;
  flushes = true;
  syncs = true;
  closes = true;
  removes = true;
  renames = true;
  torn = codes "ab";
}

abbrev event_tagged : Bytes → Event
event_tagged tag = record {
  arrival = 5;
  stamp = 0;
  tag = tag;
  namespace = [];
  category = [];
  jid = [];
  minion = [];
  fun = [];
  kind = Kind.other;
  ret_code = pos 0;
  success = false;
  has_ret = false;
  payload = some (codes "xyz");
  shed = false;
  master_trimmed = false;
}

abbrev two_events : List Event
two_events = event_tagged (codes "ab") ∷ event_tagged (codes "c") ∷ []

abbrev first_name : Bytes
first_name = codes "/tmp/salt-events-s.ndjson"

taken_name :
    find
      (write go_library sound ((first_name, codes "x") ∷ []) in_tmp two_events).1
      (codes "/tmp/salt-events-s-2.ndjson")
    ≡ some (codes "ab" ++ b'\n' ∷ b'c' ∷ b'\n' ∷ [])
unfolding write find bytes_eq join overwrite format_int
taken_name = refl

no_sync :
    (write go_library (record sound { syncs = false }) [] in_tmp two_events)
    ≡ (failed not_synced, [])
unfolding write find bytes_eq join overwrite remove
no_sync = refl

write-Says_example :
    Says go_library sound [] in_tmp two_events (write go_library sound [] in_tmp two_events)
write-Says_example = write-Says go_library sound [] in_tmp two_events
