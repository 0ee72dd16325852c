-- ===== src/Hub/Pinned.antt =====
-- cmd/salt-events/hub.go: the pinned job stays in the index, whatever the reader delivers.
use go_salt_events.Base.{
  Bool-cases, Bytes, List, Option, Option-cases, [], arith, bytes_eq_iff, either_way, false, inl,
  inr, not, refl, true, ◌&&◌, ◌∙◌, ◌∷◌, ◌≡◌,
}
use go_salt_events.Saltipc.Value.{Value}
use go_salt_events.Saltipc.Reader.{Call, attached, decode_error, event, gap}
use go_salt_events.Model.Event.{Event}
use go_salt_events.Model.Job.{is_some}
use go_salt_events.Stats.Jobs.{JobEntry, JobIndex, find_entry, pin, put_entry}
use go_salt_events.Stats.Jobs.Ingest.{is_empty, observe}
use go_salt_events.Stats.Jobs.Observe.{observe-IsValid, observe-keeps_pinned}
use go_salt_events.Stats.Jobs.Valid.{IsValid}
use go_salt_events.Hub.{
  Hub, deliver, deliver_all, describe_job, described, is_job_kind, observe_job, on_event, pin_job,
}
use go_salt_events.Hub.Facts.{JobFacts, facts_for}
use go_salt_events.Hub.Index.{describe_job-IsValid}

-- The job `k` is pinned, and in the index.
pub record Held (k : Bytes) (idx : JobIndex) : Type 0 where
  pub valid : IsValid idx
  pub pinned : idx.pinned ≡ k
  pub there : is_some (find_entry idx.order k) ≡ true

put_entry-there :
    (es : List JobEntry) (v : JobEntry) (k : Bytes)
    → is_some (find_entry es k) ≡ true
    → is_some (find_entry (put_entry es v) k) ≡ true
unfolding find_entry put_entry
put_entry-there [] v k h = h
put_entry-there (e ∷ es) v k h = ground (
  arith,
  put_entry-there es v k,
  h,
  bytes_eq_iff e.job.jid v.job.jid,
  bytes_eq_iff e.job.jid k,
  bytes_eq_iff v.job.jid k,
)

describe_job-kept :
    (k : Bytes) (idx : JobIndex) (jid : Bytes) (facts : JobFacts)
    → is_some (find_entry idx.order k) ≡ true
    → let after = describe_job idx jid facts in
      (after.pinned ≡ idx.pinned) × (is_some (find_entry after.order k) ≡ true)
unfolding describe_job
describe_job-kept k idx jid facts h =
    elim (Bool-cases (is_empty facts.tgt && (is_empty facts.user && is_empty facts.tgt_type))) [
      | inl nothing ↦ rw (describe_job, nothing) (refl, h)
      | inr something ↦ elim (Option-cases (find_entry idx.order jid)) [
        | inl absent ↦ rw (describe_job, something, absent) (refl, h)
        | inr (e, hit) ↦
            rw (describe_job, something, hit)
              (refl, put_entry-there idx.order (record e { job = described e.job facts }) k h)
      ]
    ]

describe_job-Held :
    (k : Bytes) (idx : JobIndex) (jid : Bytes) (facts : JobFacts)
    → Held k idx
    → Held k (describe_job idx jid facts)
describe_job-Held k idx jid facts h =
    let (pinned, there) = describe_job-kept k idx jid facts h.there in
    record {
      valid = describe_job-IsValid idx jid facts h.valid;
      pinned = pinned ∙ h.pinned;
      there = there;
    }

observe-Held :
    (k : Bytes) (idx : JobIndex) (e : Event) (facts : JobFacts)
    → Held k idx
    → Held k (observe idx e facts.expected facts.trimmed)
observe-Held k idx e facts h =
    let (pinned, there) =
      observe-keeps_pinned idx e facts.expected facts.trimmed h.valid (rw h.pinned h.there) in
    let same = pinned ∙ h.pinned in
    record {
      valid = observe-IsValid idx e facts.expected facts.trimmed h.valid;
      pinned = same;
      there = rw⁻¹ same there;
    }

observe_job-Held :
    (k : Bytes) (idx : JobIndex) (e : Event) (facts : JobFacts)
    → Held k idx
    → Held k (observe_job idx e facts)
unfolding observe_job
observe_job-Held k idx e facts h =
    let after = observe-Held k idx e facts h in
    either_way (Held k) (not (is_job_kind e.kind)) h (
      either_way (Held k) (is_empty e.jid) after
        (describe_job-Held k (observe idx e facts.expected facts.trimmed) e.jid facts after))

pub pin_job-Held :
    (h : Hub) (k : Bytes)
    → IsValid h.jobs
    → is_empty k ≡ false
    → is_some (find_entry h.jobs.order k) ≡ true
    → Held k (pin_job h k).jobs
unfolding pin_job pin
pin_job-Held h k valid named there = rw named (record {
  valid = record { distinct = valid.distinct; charged = valid.charged; total = valid.total };
  pinned = refl;
  there = there;
})

module _ (decode : Option (Bytes → Option Value)) where
  deliver-Held : (k : Bytes) (h : Hub) (c : Call) → Held k h.jobs → Held k (deliver decode h c).jobs
  unfolding deliver on_event
  deliver-Held k h (event e) v = observe_job-Held k h.jobs e (facts_for decode e) v
  deliver-Held k h (gap from to) v = v
  deliver-Held k h (decode_error e) v = v
  deliver-Held k h (attached a) v = v

  pub deliver_all-Held :
      (k : Bytes) (h : Hub) (cs : List Call) → Held k h.jobs → Held k (deliver_all decode h cs).jobs
  unfolding deliver_all
  deliver_all-Held k h [] v = v
  deliver_all-Held k h (c ∷ cs) v =
      deliver_all-Held k (deliver decode h c) cs (deliver-Held k h c v)
