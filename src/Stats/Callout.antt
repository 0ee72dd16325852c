-- ===== src/Stats/Callout.antt =====
-- internal/stats/rings.go, `Summary`: the numbers beside a sparkline.
use go_salt_events.Base.{
  Bool, Bool-cases, List, Option, [], false, if◌then◌else◌, inl, inr, none, not, refl, select, some,
  ◌∷◌, ◌≡◌,
}
use go_salt_events.Model.Event.{Time}
use go_salt_events.Stats.Floats.{Floats}
use go_salt_events.Stats.Rings.{Bucket, Rings, minutes, seconds}

pub record Summary (F : Type 0) : Type 0 where
  pub now : F
  pub peak : F
  pub mean : F
  pub now_is_gap : Bool
  pub has_data : Bool

-- `bs[len(bs)-1]`, and what `summarise` does with it; the count is the zero float until it is set.
unfoldable pub newest : List Bucket → Option Bucket
newest [] = none
newest (b ∷ []) = some b
newest (_ ∷ b ∷ bs) = newest (b ∷ bs)

module _ (fl : Floats) where
  open fl use {Float, of_uint, div, lt}

  -- `live`, `total` and `Peak` of the loop of `summarise`.
  unfoldable pub gather : List Bucket → Float → Float → Float → Float × Float × Float
  gather [] live total peak = (live, total, peak)
  gather (b ∷ bs) live total peak =
      gather bs (if b.gap then live else fl.add live (of_uint 1))
        (if b.gap then total else fl.add total (of_uint b.count))
        (if b.gap then peak else if lt peak (of_uint b.count) then of_uint b.count else peak)

  -- `summarise`
  unfoldable pub summarise : List Bucket → Summary Float
  unfolding gather newest
  summarise bs =
      let zero_float = of_uint 0 in
      let (live, total, peak) = gather bs zero_float zero_float zero_float in
      let some_live = lt zero_float live in
      record {
        now = elim (newest bs) [
          | none ↦ zero_float
          | some b ↦ if b.gap then zero_float else of_uint b.count
        ];
        peak = peak;
        mean = if some_live then div total live else zero_float;
        now_is_gap = elim (newest bs) [ none ↦ false | some b ↦ b.gap ];
        has_data = some_live;
      }

  -- `SummarySeconds` and `SummaryMinutes`
  unfoldable pub summary_seconds : Rings → Time → Summary Float
  summary_seconds r now = summarise (seconds r now).0

  unfoldable pub summary_minutes : Rings → Time → Summary Float
  summary_minutes r now = summarise (minutes r now).0

-- The buckets in which we were connected.
abbrev pub live_only : List Bucket → List Bucket
live_only bs = select (λ b. not b.gap) bs

module _ (fl : Floats) where
  open fl use {Float, of_uint, lt}

  gather-live_only :
      (bs : List Bucket) (live total peak : Float)
      → gather fl bs live total peak ≡ gather fl (live_only bs) live total peak
  unfolding gather
  gather-live_only [] live total peak = refl
  gather-live_only (b ∷ bs) live total peak = elim (Bool-cases b.gap) [
    | inl g ↦ rw g (gather-live_only bs live total peak)
    | inr g ↦ rw g (
        gather-live_only bs (fl.add live (of_uint 1)) (fl.add total (of_uint b.count))
          (if lt peak (of_uint b.count) then of_uint b.count else peak))
  ]

  -- Peak, mean and `HasData` are those of the connected buckets alone, so an outage drags none of
  -- them toward zero.
  pub summarise-ignores_gaps :
      (bs : List Bucket)
      → ((summarise fl bs).peak ≡ (summarise fl (live_only bs)).peak)
        × ((summarise fl bs).mean ≡ (summarise fl (live_only bs)).mean)
        × ((summarise fl bs).has_data ≡ (summarise fl (live_only bs)).has_data)
  unfolding summarise
  summarise-ignores_gaps bs = let z = of_uint 0 in rw (gather-live_only bs z z z) (refl, refl, refl)
