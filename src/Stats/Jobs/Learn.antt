-- ===== src/Stats/Jobs/Learn.antt =====
-- internal/stats/jobs.go, `observeNew`: when a job's expected set becomes known.
use go_salt_events.Stats.Jobs.Ingest.{expect_all, learn_expected, publish}
use go_salt_events.Base.{
  Bool, Bool-cases, Bytes, List, Option, [], arith, inl, inr, none, not, refl, some, ◌&&◌, ◌||◌,
  ◌∙◌, ◌∷◌, ◌≡◌,
}
use go_salt_events.Model.Event.{Event}
use go_salt_events.Model.Job.{Job, add_expected, is_some}
use go_salt_events.Stats.Jobs.{is_known}

expect_all-state : (j : Job) (ms : List Bytes) → (expect_all j ms).expected_state ≡ j.expected_state
unfolding expect_all
expect_all-state j [] = refl
expect_all-state j (m ∷ ms) =
    expect_all-state (add_expected j m) ms ∙ unfold add_expected in ground arith

-- After a publication the expected set is known exactly if it was known before, or the publication
-- carries a list, an empty one included, and is not marked as trimmed: a known set is never lost, and
-- none is ever made up.
pub publish-is_known :
    (j : Job) (e : Event) (expected : Option (List Bytes)) (is_trimmed : Bool)
    → is_known (publish j e expected is_trimmed).expected_state
      ≡ (is_known j.expected_state || (is_some expected && not is_trimmed))
unfolding publish learn_expected
publish-is_known j e none is_trimmed = ground arith
publish-is_known j e (some ms) is_trimmed =
    elim (Bool-cases (is_trimmed && not (is_known j.expected_state))) [
      | inl lost ↦ rw lost (ground (arith, lost))
      | inr keeps ↦ rw (keeps, expect_all-state _ ms) (ground (arith, keeps))
    ]
