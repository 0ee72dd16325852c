-- ===== src/Hub/Index.antt =====
-- cmd/salt-events/hub.go: `observeJob`, `describeJob` and `PinJob` on the job index.
use go_salt_events.Saltipc.Value.{Value}
use go_salt_events.Stats.Jobs.Observe.{observe-IsValid}
use go_salt_events.Saltipc.Reader.{Call, attached, decode_error, event, gap}
use go_salt_events.Model.Event.{Event}
use go_salt_events.Base.{
  Bool-cases, Bytes, List, Option, Option-cases, [], arith, bytes_eq, either_way, inl, inr, not,
  refl, some, subst, sym, ℤ, ◌&&◌, ◌∙◌, ◌∷◌, ◌≡◌,
}
use go_salt_events.Model.Job.{Job, expected_count, returned}
use go_salt_events.Stats.Jobs.{JobEntry, JobIndex, find_entry, job_bytes, new_job_index, pin, unpin}
use go_salt_events.Stats.Jobs.Ingest.{is_empty, observe}
use go_salt_events.Stats.Jobs.Entries.{Distinct-put, Each, Each-put, IsCharged, weigh-put}
use go_salt_events.Stats.Jobs.Valid.{IsValid, find_entry-named}
use go_salt_events.Hub.{
  Hub, deliver, describe_job, described, is_job_kind, new_hub, observe_job, on_event, pin_job,
}
use go_salt_events.Hub.Facts.{JobFacts, facts_for}

-- Neither the name nor the weight of a job depends on what `describeJob` writes.
described-bytes : (j : Job) (facts : JobFacts) → job_bytes (described j facts) ≡ job_bytes j
unfolding described job_bytes expected_count returned
described-bytes j facts = refl

described-jid : (j : Job) (facts : JobFacts) → (described j facts).jid ≡ j.jid
unfolding described
described-jid j facts = refl

find_entry-IsCharged :
    (es : List JobEntry) (k : Bytes) (e : JobEntry)
    → Each IsCharged es
    → find_entry es k ≡ some e
    → IsCharged e
unfolding find_entry
find_entry-IsCharged [] k e h eq = ground arith
find_entry-IsCharged (x ∷ es) k e h eq = elim (Bool-cases (bytes_eq x.job.jid k)) [
  | inl hit ↦ let same : x ≡ e = ground (arith, hit, eq) in subst IsCharged same h.0
  | inr skips ↦ find_entry-IsCharged es k e h.1 (ground (arith, skips, eq))
]

pub describe_job-IsValid :
    (idx : JobIndex) (jid : Bytes) (facts : JobFacts)
    → IsValid idx
    → IsValid (describe_job idx jid facts)
unfolding describe_job
describe_job-IsValid idx jid facts h =
    elim (Bool-cases (is_empty facts.tgt && (is_empty facts.user && is_empty facts.tgt_type))) [
      | inl nothing ↦ rw (describe_job, nothing) h
      | inr something ↦ elim (Option-cases (find_entry idx.order jid)) [
        | inl absent ↦ rw (describe_job, something, absent) h
        | inr (e, there) ↦
            let v : JobEntry = record e { job = described e.job facts } in
            let same : v.job.jid ≡ jid =
              described-jid e.job facts ∙ find_entry-named idx.order jid e there in
            rw (describe_job, something, there)
              (record {
                distinct = Distinct-put idx.order v h.distinct;
                charged =
                    Each-put IsCharged idx.order v
                      (find_entry-IsCharged idx.order jid e h.charged there
                        ∙ sym (described-bytes e.job facts))
                      h.charged;
                total = omega (
                  arith,
                  weigh-put idx.order v e
                      (subst (λ k. find_entry idx.order k ≡ some e) (sym same) there),
                  h.total,
                );
              })
      ]
    ]

observe_job-IsValid :
    (idx : JobIndex) (e : Event) (facts : JobFacts)
    → IsValid idx
    → IsValid (observe_job idx e facts)
unfolding observe_job
observe_job-IsValid idx e facts h =
    let after = observe idx e facts.expected facts.trimmed in
    let h' = observe-IsValid idx e facts.expected facts.trimmed h in
    either_way IsValid (not (is_job_kind e.kind)) h
      (either_way IsValid (is_empty e.jid) h' (describe_job-IsValid after e.jid facts h'))

pin_job-IsValid : (h : Hub) (jid : Bytes) → IsValid h.jobs → IsValid (pin_job h jid).jobs
unfolding pin_job pin unpin
pin_job-IsValid h jid v =
    either_way IsValid (is_empty jid)
      (record { distinct = v.distinct; charged = v.charged; total = v.total })
      (record { distinct = v.distinct; charged = v.charged; total = v.total })

-- What reaches the hub: a call of the reader, or `PinJob` from a pane.
pub data Touch : Type 0 where
  told : Call → Touch
  pinned_to : Bytes → Touch

module _ (decode : Option (Bytes → Option Value)) where
  unfoldable pub handle : Hub → Touch → Hub
  unfolding deliver pin_job
  handle h (told c) = deliver decode h c
  handle h (pinned_to jid) = pin_job h jid

  unfoldable pub handle_all : Hub → List Touch → Hub
  unfolding handle
  handle_all h [] = h
  handle_all h (t ∷ ts) = handle_all (handle h t) ts

  deliver-IsValid : (h : Hub) (c : Call) → IsValid h.jobs → IsValid (deliver decode h c).jobs
  unfolding deliver on_event
  deliver-IsValid h (event e) v = observe_job-IsValid h.jobs e (facts_for decode e) v
  deliver-IsValid h (gap from to) v = v
  deliver-IsValid h (decode_error e) v = v
  deliver-IsValid h (attached a) v = v

  handle_all-IsValid : (h : Hub) (ts : List Touch) → IsValid h.jobs → IsValid (handle_all h ts).jobs
  unfolding handle_all handle
  handle_all-IsValid h [] v = v
  handle_all-IsValid h (told c ∷ ts) v =
      handle_all-IsValid (deliver decode h c) ts (deliver-IsValid h c v)
  handle_all-IsValid h (pinned_to jid ∷ ts) v =
      handle_all-IsValid (pin_job h jid) ts (pin_job-IsValid h jid v)

  -- However the reader's calls and the panes' pins interleave, and whatever the decoder makes of the
  -- payloads, the hub's job index keeps its accounts: no JID twice, each job charged exactly what it
  -- weighs although `describeJob` writes to it after the index has charged it, and the total the sum of
  -- the charges.
  pub handle_all-accounts :
      (max_memory max_jobs : ℤ) (ts : List Touch)
      → IsValid (handle_all (new_hub max_memory max_jobs) ts).jobs
  unfolding new_hub new_job_index
  handle_all-accounts max_memory max_jobs ts =
      handle_all-IsValid (new_hub max_memory max_jobs) ts
        (unfold new_hub new_job_index in record { distinct = tt; charged = tt; total = refl })
