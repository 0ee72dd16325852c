-- ===== src/Samples/TagRuns.antt =====
-- internal/salttag: tags as a master fires them.
use go_salt_events.Base.{Bytes, List, [], bytes_eq, codes, refl, true, ◌≡◌, ◌⊎◌}
use go_salt_events.Model.Event.{Kind}
use go_salt_events.SaltTag.{
  all_digits, contains, is_jid, is_pid_suffix, job_verb, max_segments, parse, parse_job_shaped,
  parse_prefixed, parse_segs, parse_unprefixed,
}
use go_salt_events.SaltTag.Split.{join, split_n}
use go_salt_events.SaltTag.Category.{Starred, parse-category}

abbrev jid : Bytes
jid = codes "20260101120000123456"

new_tag : parse (codes "salt/job/20260101120000123456/new") ≡ record {
  namespace = codes "job";
  category = codes "salt/job/*/new";
  jid = jid;
  minion = [];
  kind = Kind.new;
}
unfolding parse parse_segs parse_prefixed contains parse_job_shaped job_verb is_jid all_digits
    is_pid_suffix split_n join bytes_eq
new_tag = refl

refresh_tag : (parse (codes "minion/refresh/web-1")).category ≡ codes "minion/refresh/*"
unfolding parse parse_segs parse_unprefixed is_jid all_digits is_pid_suffix split_n join bytes_eq
refresh_tag = refl

parse-category_example :
    ((norm : List Bytes) × Starred (split_n max_segments jid) norm
      × ((parse jid).category ≡ join norm))
    ⊎ ((is_jid jid ≡ true) × ((parse jid).category ≡ []))
parse-category_example = parse-category jid
