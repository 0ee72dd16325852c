-- ===== src/Stats/Jobs/Entries.antt =====
-- internal/stats/jobs.go: finding, replacing and removing a job in the list of entries.
use go_salt_events.Base.{
  Bool-cases, Bytes, List, [], arith, bytes_eq, bytes_eq_iff, bytes_eq_refl, bytes_eq→eq, false,
  if◌then◌else◌, inl, inr, length, none, refl, some, subst, suc, ℕ, ◌++◌, ◌+◌, ◌∷◌, ◌≡◌,
}
use go_salt_events.Stats.Jobs.{JobEntry, find_entry, job_bytes, put_entry, remove_entry}

-- What the entries are charged together.
abbrev pub weigh : List JobEntry → ℕ
weigh [] = 0
weigh (e ∷ es) = e.bytes + weigh es

-- No two entries have the same JID.
abbrev pub Distinct : List JobEntry → Type 0
Distinct [] = Unit {0}
Distinct (e ∷ es) = (find_entry es e.job.jid ≡ none) × Distinct es

abbrev pub Each : (JobEntry → Type 0) → List JobEntry → Type 0
Each P [] = Unit {0}
Each P (e ∷ es) = P e × Each P es

-- An entry is charged what its job weighs.
abbrev pub IsCharged : JobEntry → Type 0
IsCharged e = e.bytes ≡ job_bytes e.job

pub map-Each :
    (P Q : JobEntry → Type 0) (es : List JobEntry)
    → ((e : JobEntry) → P e → Q e)
    → Each P es
    → Each Q es
map-Each P Q [] f h = tt
map-Each P Q (e ∷ es) f h = (f e h.0, map-Each P Q es f h.1)

pub find_entry-put :
    (es : List JobEntry) (v : JobEntry) (k : Bytes)
    → find_entry (put_entry es v) k ≡ (
        if bytes_eq v.job.jid k
        then elim (find_entry es v.job.jid) [ none ↦ none | some _ ↦ some v ]
        else find_entry es k)
unfolding find_entry put_entry
find_entry-put [] v k = ground arith
find_entry-put (e ∷ es) v k = ground (
  arith,
  find_entry-put es v k,
  bytes_eq_iff e.job.jid v.job.jid,
  bytes_eq_iff e.job.jid k,
  bytes_eq_iff v.job.jid k,
)

pub find_entry-remove :
    (es : List JobEntry) (j k : Bytes)
    → bytes_eq j k ≡ false
    → find_entry (remove_entry es j) k ≡ find_entry es k
unfolding find_entry remove_entry
find_entry-remove [] j k ne = refl
find_entry-remove (e ∷ es) j k ne = ground (
  arith,
  find_entry-remove es j k ne,
  bytes_eq_iff e.job.jid j,
  bytes_eq_iff e.job.jid k,
  bytes_eq_iff j k,
)

pub find_entry-remove_none :
    (es : List JobEntry) (j k : Bytes)
    → find_entry es k ≡ none
    → find_entry (remove_entry es j) k ≡ none
unfolding find_entry remove_entry
find_entry-remove_none [] j k h = refl
find_entry-remove_none (e ∷ es) j k h = ground (arith, find_entry-remove_none es j k)

pub weigh-put :
    (es : List JobEntry) (v old : JobEntry)
    → find_entry es v.job.jid ≡ some old
    → weigh (put_entry es v) + old.bytes ≡ weigh es + v.bytes
unfolding find_entry put_entry
weigh-put [] v old h = ground arith
weigh-put (e ∷ es) v old h = ground (arith, weigh-put es v old)

pub weigh-remove :
    (es : List JobEntry) (k : Bytes) (v : JobEntry)
    → find_entry es k ≡ some v
    → weigh (remove_entry es k) + v.bytes ≡ weigh es
unfolding find_entry remove_entry
weigh-remove [] k v h = ground arith
weigh-remove (e ∷ es) k v h = ground (arith, weigh-remove es k v)

pub length-remove_entry :
    (es : List JobEntry) (k : Bytes) (v : JobEntry)
    → find_entry es k ≡ some v
    → suc (length (remove_entry es k)) ≡ length es
unfolding find_entry remove_entry
length-remove_entry [] k v h = ground arith
length-remove_entry (e ∷ es) k v h = ground (arith, length-remove_entry es k v)

pub Distinct-remove : (es : List JobEntry) (k : Bytes) → Distinct es → Distinct (remove_entry es k)
unfolding remove_entry
Distinct-remove [] k d = tt
Distinct-remove (e ∷ es) k d = elim (Bool-cases (bytes_eq e.job.jid k)) [
  | inl eq ↦ rw eq d.1
  | inr ne ↦ rw ne (find_entry-remove_none es k e.job.jid d.0, Distinct-remove es k d.1)
]

find_entry-put_none :
    (es : List JobEntry) (v : JobEntry) (k : Bytes)
    → find_entry es k ≡ none
    → find_entry (put_entry es v) k ≡ none
unfolding find_entry put_entry
find_entry-put_none [] v k h = refl
find_entry-put_none (e ∷ es) v k h = ground (
  arith,
  find_entry-put_none es v k,
  bytes_eq_iff e.job.jid v.job.jid,
  bytes_eq_iff e.job.jid k,
  bytes_eq_iff v.job.jid k,
)

pub Distinct-put : (es : List JobEntry) (v : JobEntry) → Distinct es → Distinct (put_entry es v)
unfolding put_entry
Distinct-put [] v d = tt
Distinct-put (e ∷ es) v d = elim (Bool-cases (bytes_eq e.job.jid v.job.jid)) [
  | inl eq ↦
      rw eq (subst (λ k. find_entry es k ≡ none) (bytes_eq→eq e.job.jid v.job.jid eq) d.0, d.1)
  | inr ne ↦ rw ne (find_entry-put_none es v e.job.jid d.0, Distinct-put es v d.1)
]

module _ (P : JobEntry → Type 0) where
  pub Each-remove : (es : List JobEntry) (k : Bytes) → Each P es → Each P (remove_entry es k)
  unfolding remove_entry
  Each-remove [] k h = tt
  Each-remove (e ∷ es) k h = elim (Bool-cases (bytes_eq e.job.jid k)) [
    | inl eq ↦ rw eq h.1
    | inr ne ↦ rw ne (h.0, Each-remove es k h.1)
  ]

  pub Each-put : (es : List JobEntry) (v : JobEntry) → P v → Each P es → Each P (put_entry es v)
  unfolding put_entry
  Each-put [] v p h = tt
  Each-put (e ∷ es) v p h = elim (Bool-cases (bytes_eq e.job.jid v.job.jid)) [
    | inl eq ↦ rw eq (p, h.1)
    | inr ne ↦ rw ne (h.0, Each-put es v p h.1)
  ]

  pub Each-snoc : (es : List JobEntry) (v : JobEntry) → P v → Each P es → Each P (es ++ v ∷ [])
  Each-snoc [] v p h = (p, tt)
  Each-snoc (e ∷ es) v p h = (h.0, Each-snoc es v p h.1)

pub find_entry-snoc :
    (es : List JobEntry) (v : JobEntry) (k : Bytes)
    → find_entry (es ++ v ∷ []) k ≡ elim (find_entry es k) [
      | some e ↦ some e
      | none ↦ if bytes_eq v.job.jid k then some v else none
    ]
unfolding find_entry
find_entry-snoc [] v k = ground arith
find_entry-snoc (e ∷ es) v k = ground (arith, find_entry-snoc es v k)

pub Distinct-snoc :
    (es : List JobEntry) (v : JobEntry)
    → find_entry es v.job.jid ≡ none
    → Distinct es
    → Distinct (es ++ v ∷ [])
unfolding find_entry
Distinct-snoc [] v fresh d = (refl, tt)
Distinct-snoc (e ∷ es) v fresh d = (
  ground (
    arith,
    find_entry-snoc es v e.job.jid,
    bytes_eq_iff e.job.jid v.job.jid,
    bytes_eq_iff v.job.jid e.job.jid,
    d.0,
  ),
  Distinct-snoc es v (ground (arith, fresh)) d.1,
)

pub weigh-snoc : (es : List JobEntry) (v : JobEntry) → weigh (es ++ v ∷ []) ≡ weigh es + v.bytes
weigh-snoc [] v = omega arith
weigh-snoc (e ∷ es) v = omega (arith, weigh-snoc es v)

-- Every entry is found under its own JID.
pub Each-found :
    (es : List JobEntry) → Distinct es → Each (λ e. find_entry es e.job.jid ≡ some e) es
unfolding find_entry
Each-found [] d = tt
Each-found (e ∷ es) d = (
  rw (bytes_eq_refl e.job.jid) refl,
  map-Each _ _ es (λ x h. ground (arith, h, d.0, bytes_eq_iff e.job.jid x.job.jid))
      (Each-found es d.1),
)
