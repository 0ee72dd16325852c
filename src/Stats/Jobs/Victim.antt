-- ===== src/Stats/Jobs/Victim.antt =====
-- internal/stats/jobs.go, `oldestEvictable`: the three tiers, against the first entries of each.
use go_salt_events.Base.{
  Bool, Bool-cases, Bytes, List, Option, [], arith, bytes_eq, false, inl, inr, none, not, refl,
  some, subst, sym, true, ◌&&◌, ◌∙◌, ◌∷◌, ◌≡◌, ◌⊎◌,
}
use go_salt_events.Model.Job.{Job, complete}
use go_salt_events.Stats.Jobs.{
  JobEntry, JobIndex, find_entry, is_known, oldest_evictable, or_else, pick,
}
use go_salt_events.Stats.Jobs.Entries.{Distinct, Each, Each-found}

-- The oldest entry that passes a test.
abbrev pub first : (JobEntry → Bool) → List JobEntry → Option JobEntry
first q [] = none
first q (e ∷ es) = elim (q e) [ true ↦ some e | false ↦ first q es ]

-- The tiers.
abbrev pub finished : Bytes → JobEntry → Bool
finished p e = not (bytes_eq e.job.jid p) && complete e.job

abbrev pub never_completable : Bytes → JobEntry → Bool
never_completable p e = not (bytes_eq e.job.jid p) && not (is_known e.job.expected_state)

abbrev pub progressing : Bytes → JobEntry → Bool
progressing p e =
    not (bytes_eq e.job.jid p) && (is_known e.job.expected_state && not (complete e.job))

complete→is_known : (j : Job) → complete j ≡ true → is_known j.expected_state ≡ true
unfolding complete
complete→is_known j h = ground arith

or_else_assoc : (a b c : Option JobEntry) → or_else (or_else a b) c ≡ or_else a (or_else b c)
or_else_assoc none b c = refl
or_else_assoc (some a) b c = refl

pick-tiers :
    (p : Bytes) (es : List JobEntry) (nc pr : Option JobEntry)
    → pick p es nc pr
      ≡ or_else (first (finished p) es) (
          or_else
            (or_else nc (first (never_completable p) es))
            (or_else pr (first (progressing p) es)))
unfolding pick
pick-tiers p [] none none = refl
pick-tiers p [] none (some x) = refl
pick-tiers p [] (some x) pr = refl
pick-tiers p (e ∷ es) nc pr = ground (
  arith,
  complete→is_known e.job,
  pick-tiers p es nc pr,
  pick-tiers p es (or_else nc (some e)) pr,
  pick-tiers p es nc (or_else pr (some e)),
)

-- The victim is the oldest unpinned job that is complete; without one, the oldest that can never
-- complete, its expected set being unknown; and only without either, the oldest that is still
-- progressing. The pinned job is in no tier.
pub oldest_evictable_tiers :
    (idx : JobIndex)
    → oldest_evictable idx
      ≡ or_else (first (finished idx.pinned) idx.order) (
          or_else
            (first (never_completable idx.pinned) idx.order)
            (first (progressing idx.pinned) idx.order))
unfolding oldest_evictable
oldest_evictable_tiers idx = pick-tiers idx.pinned idx.order none none

-- Every job is pinned, or there is none.
abbrev pub AllPinned : Bytes → List JobEntry → Type 0
AllPinned p es = Each (λ e. bytes_eq e.job.jid p ≡ true) es

all_tiers :
    (p : Bytes) (es : List JobEntry)
    → first (finished p) es ≡ none
    → first (never_completable p) es ≡ none
    → first (progressing p) es ≡ none
    → AllPinned p es
all_tiers p [] f n g = tt
all_tiers p (e ∷ es) f n g = (
  ground (arith, f, n, g),
  all_tiers p es (ground (arith, f)) (ground (arith, n)) (ground (arith, g)),
)

pub oldest_evictable-none :
    (idx : JobIndex) → oldest_evictable idx ≡ none → AllPinned idx.pinned idx.order
oldest_evictable-none idx h =
    let t = oldest_evictable_tiers idx in
    let c = first (never_completable idx.pinned) idx.order in
    all_tiers idx.pinned idx.order (ground (arith, h, t)) (ground (arith, h, t))
      (ground (arith, h, t))

-- What is true of a victim: it is in the index under its JID, and it is not pinned.
pub record IsVictim (idx : JobIndex) (v : JobEntry) : Type 0 where
  pub present : find_entry idx.order v.job.jid ≡ some v
  pub unpinned : bytes_eq v.job.jid idx.pinned ≡ false

first-Each :
    (q : JobEntry → Bool) (P : JobEntry → Type 0) (es : List JobEntry) (v : JobEntry)
    → Each P es
    → first q es ≡ some v
    → P v × (q v ≡ true)
first-Each q P [] v h eq = ground (arith, eq)
first-Each q P (e ∷ es) v h eq = elim (Bool-cases (q e)) [
  | inl yes_q ↦
      let same : e ≡ v = ground (arith, eq, yes_q) in
      subst (λ x. P x × (q x ≡ true)) same (h.0, yes_q)
  | inr no_q ↦ first-Each q P es v h.1 (ground (arith, eq, no_q))
]

or_else-some :
    (a b c : Option JobEntry) (v : JobEntry)
    → or_else a (or_else b c) ≡ some v
    → (a ≡ some v) ⊎ ((b ≡ some v) ⊎ (c ≡ some v))
or_else-some (some a) b c v h = inl h
or_else-some none (some b) c v h = inr (inl h)
or_else-some none none c v h = inr (inr h)

pub oldest_evictable-IsVictim :
    (idx : JobIndex) (v : JobEntry)
    → Distinct idx.order
    → oldest_evictable idx ≡ some v
    → IsVictim idx v
oldest_evictable-IsVictim idx v d h =
    let p = idx.pinned in
    let es = idx.order in
    let F = Each-found es d in
    elim (or_else-some _ _ _ v (sym (oldest_evictable_tiers idx) ∙ h)) [
      | inl e ↦
          let (there, test) = first-Each (finished p) _ es v F e in
          record { present = there; unpinned = ground (arith, test) }
      | inr (inl e) ↦
          let (there, test) = first-Each (never_completable p) _ es v F e in
          record { present = there; unpinned = ground (arith, test) }
      | inr (inr e) ↦
          let (there, test) = first-Each (progressing p) _ es v F e in
          record { present = there; unpinned = ground (arith, test) }
    ]
