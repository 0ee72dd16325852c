-- ===== src/SaltTag.antt =====
-- internal/salttag/salttag.go: a Salt event tag decoded into its parts. The functions that write
-- `norm` and `*info` return both.
pub mod Split
pub mod Category
pub mod Jid
pub mod Shapes
use go_salt_events.Base.{
  Bool, Bytes, List, [], bytes_eq, codes, drop, false, get_or, if◌then◌else◌, leb, length, ltb, not,
  set, suc, take, true, zero, ℕ, ◌&&◌, ◌==◌, ◌||◌, ◌∷◌,
}
use go_salt_events.Model.Event.{Kind}
use go_salt_events.SaltTag.Split.{join, split_n}

pub record Info : Type 0 where
  pub namespace : Bytes
  pub category : Bytes
  pub jid : Bytes
  pub minion : Bytes
  pub kind : Kind

abbrev pub ns_custom : Bytes
ns_custom = codes "custom"

abbrev pub ns_auth : Bytes
ns_auth = codes "auth"

abbrev pub ns_job : Bytes
ns_job = codes "job"

abbrev pub ns_key : Bytes
ns_key = codes "key"

abbrev pub ns_minion : Bytes
ns_minion = codes "minion"

abbrev pub ns_syndic : Bytes
ns_syndic = codes "syndic"

abbrev pub ns_run : Bytes
ns_run = codes "run"

abbrev pub ns_wheel : Bytes
ns_wheel = codes "wheel"

abbrev pub ns_presence : Bytes
ns_presence = codes "presence"

-- `namespaces`
abbrev pub namespaces : List Bytes
namespaces =
    ns_auth
    ∷ ns_job
    ∷ ns_key
    ∷ ns_minion
    ∷ ns_syndic
    ∷ ns_run
    ∷ ns_wheel
    ∷ codes "cloud"
    ∷ codes "fileserver"
    ∷ codes "queue"
    ∷ ns_presence
    ∷ []

abbrev pub jid_digits : ℕ
jid_digits = 20

abbrev pub star_seg : Bytes
star_seg = codes "*"

abbrev pub salt_seg : Bytes
salt_seg = codes "salt"

abbrev pub refresh_seg : Bytes
refresh_seg = codes "refresh"

abbrev pub max_segments : ℕ
max_segments = 64

-- `_, ok := namespaces[s]`
unfoldable pub contains : List Bytes → Bytes → Bool
contains [] s = false
contains (n ∷ ns) s = bytes_eq n s || contains ns s

unfoldable pub is_digit : ℕ → Bool
is_digit c = leb b'0' c && leb c b'9'

-- The loop of `allDigits`.
unfoldable pub digits_only : Bytes → Bool
unfolding is_digit
digits_only [] = true
digits_only (c ∷ s) = is_digit c && digits_only s

-- `allDigits`
unfoldable pub all_digits : Bytes → Bool
unfolding digits_only
all_digits [] = false
all_digits (c ∷ s) = digits_only (c ∷ s)

-- What `isJID` asks of the text after the timestamp.
unfoldable pub is_pid_suffix : Bytes → Bool
is_pid_suffix [] = false
is_pid_suffix (u ∷ pid) = (u == b'_') && ltb 0 (length pid) && all_digits pid

-- `isJID`
unfoldable pub is_jid : Bytes → Bool
is_jid s =
    if ltb (length s) jid_digits || not (all_digits (take jid_digits s))
    then false
    else if length s == jid_digits
    then true
    else is_pid_suffix (drop jid_digits s)

abbrev pub Segs : Type 0
Segs = List Bytes

abbrev pub seg : Segs → ℕ → Bytes
seg segs i = get_or segs i []

-- The loop of `takeMinion`: every segment from the index on becomes a star.
unfoldable pub star_from : ℕ → Segs → Segs
star_from i [] = []
star_from zero (_ ∷ xs) = star_seg ∷ star_from zero xs
star_from (suc i) (x ∷ xs) = x ∷ star_from i xs

-- `takeMinion`
unfoldable pub take_minion : Segs → Segs → Info → ℕ → Segs × Info
take_minion segs norm info i =
    if leb (length segs) i
    then (norm, info)
    else (star_from i norm, record info { minion = seg segs i })

-- The switch of `parseJobShaped` on the verb.
unfoldable pub job_verb : Segs → Segs → Info → Segs × Info
job_verb segs norm info =
    let verb = seg segs 3 in
    if bytes_eq verb (codes "new")
    then (norm, record info { kind = Kind.new })
    else if bytes_eq verb (codes "ret")
    then take_minion segs norm (record info { kind = Kind.ret }) 4
    else if bytes_eq verb (codes "prog")
    then take_minion segs norm (record info { kind = Kind.prog }) 4
    else (norm, info)

-- `parseJobShaped`
unfoldable pub parse_job_shaped : Segs → Segs → Info → Segs × Info
parse_job_shaped segs norm info =
    if leb (length segs) 2 || not (is_jid (seg segs 2))
    then (norm, info)
    else let norm' = set norm 2 star_seg in
      let info' = record info { jid = seg segs 2 } in
      if leb (length segs) 3 then (norm', info') else job_verb segs norm' info'

-- `parseMinionShaped`
unfoldable pub parse_minion_shaped : Segs → Segs → Info → Segs × Info
parse_minion_shaped segs norm info = if leb (length segs) 2 then (norm, info) else (
  set norm 2 star_seg,
  record info {
    minion = seg segs 2;
    kind =
        if ltb 3 (length segs) && bytes_eq (seg segs 3) (codes "start")
        then Kind.start
        else info.kind;
  },
)

-- `parsePrefixed`
unfoldable pub parse_prefixed : Segs → Segs → Info → Segs × Info
parse_prefixed segs norm info =
    let ns = seg segs 1 in
    let info' = record info { namespace = ns } in
    if not (contains namespaces ns)
    then (norm, info)
    else if bytes_eq ns ns_job || (bytes_eq ns ns_run || bytes_eq ns ns_wheel)
    then parse_job_shaped segs norm info'
    else if bytes_eq ns ns_minion || bytes_eq ns ns_syndic
    then parse_minion_shaped segs norm info'
    else if bytes_eq ns ns_auth
    then (norm, record info' { kind = Kind.auth })
    else if bytes_eq ns ns_key
    then (norm, record info' { kind = Kind.key })
    else if bytes_eq ns ns_presence
    then (norm, record info' { kind = Kind.presence })
    else (norm, info')

-- `parseUnprefixed`
unfoldable pub parse_unprefixed : Segs → Segs → Info → Segs × Info
parse_unprefixed segs norm info =
    if (length segs == 1) && is_jid (seg segs 0)
    then (set norm 0 [], record info { jid = seg segs 0 })
    else if (length segs == 3)
        && (bytes_eq (seg segs 0) ns_minion && bytes_eq (seg segs 1) refresh_seg)
    then (set norm 2 star_seg, record info { minion = seg segs 2 })
    else (norm, info)

abbrev pub blank_info : Info
blank_info = record {
  namespace = ns_custom;
  category = [];
  jid = [];
  minion = [];
  kind = Kind.other;
}

-- The two ways of `Parse`, on the segments.
unfoldable pub parse_segs : Segs → Segs × Info
parse_segs segs =
    if leb 2 (length segs) && bytes_eq (seg segs 0) salt_seg
    then parse_prefixed segs segs blank_info
    else parse_unprefixed segs segs blank_info

-- `Parse`
unfoldable pub parse : Bytes → Info
parse tag =
    let (norm, info) = parse_segs (split_n max_segments tag) in record info { category = join norm }
