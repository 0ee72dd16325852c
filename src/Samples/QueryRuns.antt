-- ===== src/Samples/QueryRuns.antt =====
-- internal/filter/filter.go: terms on short texts; decoding is the identity, as it is on ASCII.
use go_salt_events.Base.{Bytes, codes, refl, ◌≡◌}
use go_salt_events.Filter.Glob.{Runes, after_bang, class_end}
use go_salt_events.Filter.Query.{
  compile_glob, cut_colon, failed, has_meta, parse_term, unclosed_class,
}
use go_salt_events.Base.Utf8.{fields, trim_space}
use go_salt_events.Filter.Query.Parse.{parse}
use go_salt_events.Filter.Query.Parse.Accepts.{Reports, parse-Reports}

abbrev ascii : Bytes → Runes
ascii s = s

unclosed : parse_term ascii (codes "[web") ≡ failed unclosed_class
unfolding parse_term compile_glob cut_colon has_meta class_end after_bang
unclosed = refl

parse-Reports_example :
    Reports
      (trim_space (codes " minion:web-* ok:true "))
      (fields (codes " minion:web-* ok:true "))
      (parse (codes " minion:web-* ok:true "))
parse-Reports_example = parse-Reports (codes " minion:web-* ok:true ")
