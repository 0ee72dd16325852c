-- ===== src/Ui/Sparkline.antt =====
-- internal/ui/components/sparkline.go: the buckets that a sparkline of some width shows, and its scale.
pub mod Peak
use go_salt_events.Base.{
  List, [], drop, false, if◌then◌else◌, leb, length, ltb, not, replicate, suc, take, true, zero, ℕ,
  ◌&&◌, ◌*◌, ◌+◌, ◌-◌, ◌/◌, ◌==◌, ◌∷◌,
}
use go_salt_events.Stats.Rings.{Bucket}

abbrev pub gap_bucket : Bucket
gap_bucket = record { count = 0; gap = true }

-- The loop of `merge`.
unfoldable pub merge_onto : Bucket → List Bucket → Bucket
merge_onto agg [] = agg
merge_onto agg (b ∷ bs) =
    let skipped = merge_onto agg bs in
    let taken =
      merge_onto
        (record { count = if ltb agg.count b.count then b.count else agg.count; gap = false }) bs in
    if b.gap then skipped else taken

-- `merge`
unfoldable pub merge : List Bucket → Bucket
unfolding merge_onto
merge group = merge_onto gap_bucket group

-- `autoscale`, from the scale so far.
unfoldable pub scale_from : ℕ → List Bucket → ℕ
scale_from scale [] = scale
scale_from scale (b ∷ bs) =
    scale_from (if not b.gap && ltb scale b.count then b.count else scale) bs

unfoldable pub autoscale : List Bucket → ℕ → ℕ
unfolding scale_from
autoscale sampled fixed_max = if fixed_max == 0 then scale_from 0 sampled else fixed_max

-- The end of the `i`th group of `n`, and the buckets of the group.
unfoldable pub group_end : ℕ → ℕ → ℕ → ℕ
group_end len n i =
    let lo = i * len / n in
    let hi = (i + 1) * len / n in
    let some_hi = if leb hi lo then lo + 1 else hi in if ltb len some_hi then len else some_hi

unfoldable pub group : List Bucket → ℕ → ℕ → List Bucket
unfolding group_end
group bs n i = let lo = i * length bs / n in take (group_end (length bs) n i - lo) (drop lo bs)

-- The loop of `resample`, with `k` groups left, from the `i`th.
unfoldable pub resample_from : List Bucket → ℕ → ℕ → ℕ → List Bucket
unfolding merge group
resample_from bs n i zero = []
resample_from bs n i (suc k) = merge (group bs n i) ∷ resample_from bs n (i + 1) k

-- `resample`
unfoldable pub resample : List Bucket → ℕ → List Bucket
unfolding resample_from
resample [] n = replicate n gap_bucket
resample (b ∷ bs) n = resample_from (b ∷ bs) n 0 n
