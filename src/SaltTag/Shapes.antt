-- ===== src/SaltTag/Shapes.antt =====
-- internal/salttag/salttag.go: what `Parse` reads off the tags that the panes are built on.
use go_salt_events.SaltTag.Jid.{IsJid-NoSlash, is_jid→IsJid}
use go_salt_events.Base.{
  Bytes, List, [], ap, arith, bytes_eq, codes, length, refl, replicate, true, ◌∙◌, ◌∷◌, ◌≡◌, ◌≤◌,
}
use go_salt_events.Model.Event.{Kind}
use go_salt_events.SaltTag.{
  Info, Segs, blank_info, contains, is_jid, job_verb, ns_job, parse, parse_job_shaped,
  parse_prefixed, parse_segs, salt_seg, star_from, star_seg, take_minion,
}
use go_salt_events.SaltTag.Split.{NoSlash, NoSlashes, join, split_n-join}

-- The tag of a return: salt/job/<jid>/ret/<minion>/...
abbrev pub ret_tag : Bytes → Bytes → List Bytes → Bytes
ret_tag jid minion more = join (salt_seg ∷ ns_job ∷ jid ∷ codes "ret" ∷ minion ∷ more)

abbrev pub ret_info : Bytes → Bytes → List Bytes → Info
ret_info jid minion more = record {
  namespace = ns_job;
  category =
      join
        (salt_seg ∷ ns_job ∷ star_seg ∷ codes "ret" ∷ star_seg ∷ replicate (length more) star_seg);
  jid = jid;
  minion = minion;
  kind = Kind.ret;
}

parse-segs :
    (s : Bytes) (segs : List Bytes)
    → NoSlashes (s ∷ segs)
    → length segs ≤ 63
    → parse (join (s ∷ segs))
      ≡ record (parse_segs (s ∷ segs)).1 { category = join (parse_segs (s ∷ segs)).0 }
unfolding parse
parse-segs s segs h le = rw (split_n-join 63 s segs h le)

star_from-replicate : (segs : Segs) → star_from 0 segs ≡ replicate (length segs) star_seg
unfolding star_from
star_from-replicate [] = refl
star_from-replicate (s ∷ segs) = ap (λ t. star_seg ∷ t) (star_from-replicate segs)

abbrev ret_segs : Bytes → Bytes → List Bytes → Segs
ret_segs jid minion more = salt_seg ∷ ns_job ∷ jid ∷ codes "ret" ∷ minion ∷ more

abbrev job_info : Info
job_info = record blank_info { namespace = ns_job }

job_verb-ret :
    (jid minion : Bytes) (more : List Bytes) (norm : Segs) (info : Info)
    → job_verb (ret_segs jid minion more) norm info
      ≡ (star_from 4 norm, record info { kind = Kind.ret; minion = minion })
unfolding job_verb take_minion bytes_eq
job_verb-ret jid minion more norm info = ground arith

job_shaped-ret :
    (jid minion : Bytes) (more : List Bytes)
    → is_jid jid ≡ true
    → parse_job_shaped (ret_segs jid minion more) (ret_segs jid minion more) job_info ≡ (
      salt_seg ∷ ns_job ∷ star_seg ∷ codes "ret" ∷ star_seg ∷ star_from 0 more,
      record job_info { jid = jid; kind = Kind.ret; minion = minion },
    )
unfolding parse_job_shaped star_from
job_shaped-ret jid minion more j = ground (
  arith,
  job_verb-ret jid minion more (salt_seg ∷ ns_job ∷ star_seg ∷ codes "ret" ∷ minion ∷ more)
      (record job_info { jid = jid }),
)

parse_segs-ret :
    (jid minion : Bytes) (more : List Bytes)
    → parse_segs (ret_segs jid minion more)
      ≡ parse_job_shaped (ret_segs jid minion more) (ret_segs jid minion more) job_info
unfolding parse_segs parse_prefixed contains bytes_eq
parse_segs-ret jid minion more = ground arith

-- Every return of a job is decoded into its JID, its minion and the kind `ret`, and all returns of
-- all jobs by all minions fall into one category: nothing of the JID, of the minion or of what
-- follows the minion is left in it.
pub parse-ret :
    (jid minion : Bytes) (more : List Bytes)
    → is_jid jid ≡ true
    → NoSlash minion
    → NoSlashes more
    → length more ≤ 59
    → parse (ret_tag jid minion more) ≡ ret_info jid minion more
parse-ret jid minion more j m ms le =
    parse-segs salt_seg (ns_job ∷ jid ∷ codes "ret" ∷ minion ∷ more)
      (omega arith, (omega arith, (IsJid-NoSlash jid (is_jid→IsJid jid j), (omega arith, (m, ms)))))
      (omega arith)
    ∙ ap (λ (r : Segs × Info). record r.1 { category = join r.0 })
        (parse_segs-ret jid minion more ∙ job_shaped-ret jid minion more j)
    ∙ ap
        (λ t. record (ret_info jid minion more) {
          category = join (salt_seg ∷ ns_job ∷ star_seg ∷ codes "ret" ∷ star_seg ∷ t);
        })
        (star_from-replicate more)
