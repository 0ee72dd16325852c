-- ===== src/SaltTag/Category.antt =====
-- internal/salttag/salttag.go: what normalisation does to a tag, whatever it is.
use go_salt_events.Model.Event.{Kind}
use go_salt_events.Base.{
  Bool-cases, Bytes, [], ap, arith, bytes_eq, either_way, inl, inr, leb, length, not, refl, set,
  suc, true, zero, ℕ, ◌&&◌, ◌==◌, ◌||◌, ◌∙◌, ◌∷◌, ◌≡◌, ◌⊎◌,
}
use go_salt_events.SaltTag.Split.{join, split_n, split_n-single}
use go_salt_events.SaltTag.{
  Info, Segs, blank_info, contains, is_jid, job_verb, max_segments, namespaces, ns_auth, ns_job,
  ns_key, ns_minion, ns_presence, ns_run, ns_syndic, ns_wheel, parse, parse_job_shaped,
  parse_minion_shaped, parse_prefixed, parse_segs, parse_unprefixed, salt_seg, seg, star_from,
  star_seg, take_minion,
}

-- Segment by segment, what it was or a star.
abbrev pub Starred : Segs → Segs → Type 0
Starred [] [] = Unit {0}
Starred [] (_ ∷ _) = ⊥
Starred (_ ∷ _) [] = ⊥
Starred (x ∷ xs) (y ∷ ys) = ((y ≡ x) ⊎ (y ≡ star_seg)) × Starred xs ys

Starred-refl : (xs : Segs) → Starred xs xs
Starred-refl [] = tt
Starred-refl (x ∷ xs) = (inl refl, Starred-refl xs)

Starred-set : (xs ys : Segs) (i : ℕ) → Starred xs ys → Starred xs (set ys i star_seg)
Starred-set [] [] i h = tt
Starred-set [] (y ∷ ys) i h = absurd h
Starred-set (x ∷ xs) [] i h = absurd h
Starred-set (x ∷ xs) (y ∷ ys) zero h = (inr refl, h.1)
Starred-set (x ∷ xs) (y ∷ ys) (suc i) h = (h.0, Starred-set xs ys i h.1)

Starred-star_from : (xs ys : Segs) (i : ℕ) → Starred xs ys → Starred xs (star_from i ys)
unfolding star_from
Starred-star_from [] [] i h = tt
Starred-star_from [] (y ∷ ys) i h = absurd h
Starred-star_from (x ∷ xs) [] i h = absurd h
Starred-star_from (x ∷ xs) (y ∷ ys) zero h = (inr refl, Starred-star_from xs ys zero h.1)
Starred-star_from (x ∷ xs) (y ∷ ys) (suc i) h = (h.0, Starred-star_from xs ys i h.1)

-- The segments that a function returns are the old ones with stars.
record Result (segs : Segs) (r : Segs × Info) : Type 0 where
  starred : Starred segs r.0

keeps : (segs norm : Segs) (info : Info) → Starred segs norm → Result segs (norm, info)
keeps segs norm info h = record { starred = h }

module _ (segs norm : Segs) (h : Starred segs norm) where
  take_minion-Starred : (info : Info) (i : ℕ) → Result segs (take_minion segs norm info i)
  unfolding take_minion
  take_minion-Starred info i =
      either_way (Result segs) _ (keeps segs _ _ h)
        (keeps segs _ _ (Starred-star_from segs norm i h))

  job_verb-Starred : (info : Info) → Result segs (job_verb segs norm info)
  unfolding job_verb
  job_verb-Starred info = either_way (Result segs) _ (keeps segs _ _ h) (
      either_way (Result segs) _ (take_minion-Starred (record info { kind = Kind.ret }) 4) (
        either_way (Result segs) _ (take_minion-Starred (record info { kind = Kind.prog }) 4)
          (keeps segs _ _ h)))

  parse_minion_shaped-Starred : (info : Info) → Result segs (parse_minion_shaped segs norm info)
  unfolding parse_minion_shaped
  parse_minion_shaped-Starred info =
      either_way (Result segs) _ (keeps segs _ _ h) (keeps segs _ _ (Starred-set segs norm 2 h))

parse_job_shaped-Starred :
    (segs norm : Segs) (info : Info)
    → Starred segs norm
    → Result segs (parse_job_shaped segs norm info)
unfolding parse_job_shaped
parse_job_shaped-Starred segs norm info h =
    let s = Starred-set segs norm 2 h in
    either_way (Result segs) _ (keeps segs _ _ h) (
      either_way (Result segs) _ (keeps segs _ _ s)
        (job_verb-Starred segs (set norm 2 star_seg) s (record info { jid = seg segs 2 })))

parse_prefixed-Starred : (segs : Segs) (info : Info) → Result segs (parse_prefixed segs segs info)
unfolding parse_prefixed
parse_prefixed-Starred segs info =
    let ns = seg segs 1 in
    let whole = Starred-refl segs in
    let info' = record info { namespace = ns } in
    let same : (i : Info) → Result segs (segs, i) = λ i. keeps segs segs i whole in
    either_way (Result segs) (not (contains namespaces ns)) (same info) (
      either_way (Result segs) (bytes_eq ns ns_job || (bytes_eq ns ns_run || bytes_eq ns ns_wheel))
        (parse_job_shaped-Starred segs segs info' whole)
        (either_way (Result segs) (bytes_eq ns ns_minion || bytes_eq ns ns_syndic)
          (parse_minion_shaped-Starred segs segs whole info')
          (either_way (Result segs) (bytes_eq ns ns_auth) (same (record info' { kind = Kind.auth }))
            (either_way (Result segs) (bytes_eq ns ns_key) (same (record info' { kind = Kind.key }))
              (either_way (Result segs) (bytes_eq ns ns_presence)
                (same (record info' { kind = Kind.presence })) (same info'))))))

-- A tag that is nothing but a JID.
abbrev pub IsBareJid : Segs → Type 0
IsBareJid segs = (length segs ≡ 1) × (is_jid (seg segs 0) ≡ true)

parse_unprefixed-Starred :
    (segs : Segs) (info : Info)
    → (IsBareJid segs × ((parse_unprefixed segs segs info).0 ≡ set segs 0 []))
      ⊎ Result segs (parse_unprefixed segs segs info)
unfolding parse_unprefixed
parse_unprefixed-Starred segs info = elim (Bool-cases ((length segs == 1) && is_jid (seg segs 0))) [
  | inl bare ↦ rw bare (inl (ground arith, refl))
  | inr more ↦ rw more (
      inr (
        either_way (Result segs) _ (keeps segs _ _ (Starred-set segs segs 2 (Starred-refl segs)))
          (keeps segs _ _ (Starred-refl segs))))
]

-- What normalisation makes of the segments.
data Normal (segs norm : Segs) : Type 0 where
  starred : Starred segs norm → Normal segs norm
  bare : IsBareJid segs → norm ≡ set segs 0 [] → Normal segs norm

parse_segs-Normal : (segs : Segs) → Normal segs (parse_segs segs).0
unfolding parse_segs
parse_segs-Normal segs = elim (Bool-cases (leb 2 (length segs) && bytes_eq (seg segs 0) salt_seg)) [
  | inl salt ↦ rw salt (starred (parse_prefixed-Starred segs blank_info).starred)
  | inr more ↦ rw more (elim (parse_unprefixed-Starred segs blank_info) [
    | inl (b, e) ↦ bare b e
    | inr r ↦ starred r.starred
  ])
]

bare_jid :
    (tag : Bytes)
    → IsBareJid (split_n max_segments tag)
    → (is_jid tag ≡ true) × (join (set (split_n max_segments tag) 0 []) ≡ [])
unfolding join
bare_jid tag (one_seg, jid) =
    let e = split_n-single 62 tag one_seg in
    (rw (ap (λ (segs : Segs). seg segs 0) e) at jid, ap (λ (segs : Segs). join (set segs 0 [])) e)

-- The category of a tag is the tag's own segments, each as it was or replaced by a star; except that
-- a tag which is nothing but a JID has the empty category. Nothing else is ever put into it.
pub parse-category :
    (tag : Bytes)
    → ((norm : Segs) × Starred (split_n max_segments tag) norm × ((parse tag).category ≡ join norm))
      ⊎ ((is_jid tag ≡ true) × ((parse tag).category ≡ []))
unfolding parse
parse-category tag = elim (parse_segs-Normal (split_n max_segments tag)) [
  | starred s ↦ inl (_, s, refl)
  | bare b e ↦ let (jid, nothing) = bare_jid tag b in inr (jid, ap join e ∙ nothing)
]
