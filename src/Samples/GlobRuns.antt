-- ===== src/Samples/GlobRuns.antt =====
-- internal/filter/glob.go: the pattern of every return of a job, and classes.
use go_salt_events.Filter.Glob.Correct.{fnmatch-Answers}
use go_salt_events.Base.{codes, false, refl, some, true, ◌≡◌}
use go_salt_events.Filter.Glob.{
  after_bang, after_star, class_end, class_has, fnmatch, is_negated, loop, match_class, match_one,
  only_stars,
}
use go_salt_events.Filter.Glob.Matches.{Matches}
use go_salt_events.Filter.Glob.Open.{Answers}

star_crosses_slashes : fnmatch (codes "salt/job/*") (codes "salt/job/1/ret/m") ≡ some true
unfolding fnmatch loop match_one match_class class_has class_end is_negated after_bang only_stars
    after_star
star_crosses_slashes = refl

classes : fnmatch (codes "[!a-c]]*?") (codes "d]xy") ≡ some true
unfolding fnmatch loop match_one match_class class_has class_end is_negated after_bang only_stars
    after_star
classes = refl

backtracks : fnmatch (codes "*ab") (codes "aba") ≡ some false
unfolding fnmatch loop match_one match_class class_has class_end is_negated after_bang only_stars
    after_star
backtracks = refl

fnmatch-Answers_example :
    Answers (Matches (codes "*b") (codes "ab")) (fnmatch (codes "*b") (codes "ab"))
fnmatch-Answers_example = fnmatch-Answers (codes "*b") (codes "ab")
