-- ===== src/Ui/Sparkline/Peak.antt =====
-- internal/ui/components/sparkline.go: resampling keeps the tallest bucket.
use native.Mathlib.Nat.{
  div-le_of_le-mul, div-le_self, div-lt_iff_lt-mul, mul-div_cancel_left, mul-le-mul_right,
  mul-lt-mul_of_pos_right,
}
use go_salt_events.Base.{
  Bool-cases, List, [], ap, arith, drop, false, if◌then◌else◌, inl, inr, length, length-replicate,
  ltb, max, refl, replicate, suc, sym, take, take-append-drop, take_all, zero, ℕ, ◌*◌, ◌++◌, ◌+◌,
  ◌-◌, ◌/◌, ◌<◌, ◌==◌, ◌∙◌, ◌∷◌, ◌≡◌, ◌≤◌,
}
use go_salt_events.Stats.Rings.{Bucket}
use go_salt_events.Ui.Sparkline.{
  autoscale, gap_bucket, group, group_end, merge, merge_onto, resample, resample_from, scale_from,
}

-- What a bucket counts for: nothing, if it is a gap.
abbrev pub height : Bucket → ℕ
height b = if b.gap then 0 else b.count

unfoldable pub peak : List Bucket → ℕ
peak [] = 0
peak (b ∷ bs) = max (height b) (peak bs)

scale_from-peak : (s : ℕ) (bs : List Bucket) → scale_from s bs ≡ max s (peak bs)
unfolding scale_from peak
scale_from-peak s [] = omega arith
scale_from-peak s (b ∷ bs) = ground (arith, scale_from-peak s bs, scale_from-peak b.count bs)

-- A merged bucket is as tall as the tallest of the group, and no taller.
merge_onto-height :
    (agg : Bucket) (bs : List Bucket)
    → agg.count ≡ height agg
    → height (merge_onto agg bs) ≡ max (height agg) (peak bs)
unfolding merge_onto peak
merge_onto-height agg [] h = omega arith
merge_onto-height agg (b ∷ bs) h = elim (Bool-cases b.gap) [
  | inl off ↦ rw (merge_onto, off) (merge_onto-height agg bs h ∙ omega arith)
  | inr on ↦
      let next : Bucket = record {
        count = if ltb agg.count b.count then b.count else agg.count;
        gap = false;
      } in
      rw (merge_onto, on) (merge_onto-height next bs refl ∙ ground (arith, h))
]

peak-append : (xs ys : List Bucket) → peak (xs ++ ys) ≡ max (peak xs) (peak ys)
unfolding peak
peak-append [] ys = omega arith
peak-append (x ∷ xs) ys = omega (arith, peak-append xs ys)

peak-take_le : (n : ℕ) (bs : List Bucket) → peak (take n bs) ≤ peak bs
unfolding peak
peak-take_le n bs =
    omega (arith, ap peak (take-append-drop n bs), peak-append (take n bs) (drop n bs))

take-split :
    (lo e : ℕ) (bs : List Bucket) → lo ≤ e → take e bs ≡ take lo bs ++ take (e - lo) (drop lo bs)
take-split zero e bs le = ap (λ k. take k bs) (omega arith)
take-split (suc lo) e [] le =
    take_all e [] (omega arith) ∙ sym (take_all (e - suc lo) [] (omega arith))
take-split (suc lo) zero (b ∷ bs) le = absurd (omega arith)
take-split (suc lo) (suc e) (b ∷ bs) le =
    ap (λ t. b ∷ t)
      (take-split lo e bs (omega arith) ∙ ap (λ k. take lo bs ++ take k (drop lo bs)) (omega arith))

-- The end of a group is within the buckets, and not before its start or the start of the next.
record Ends (len n i e : ℕ) : Type 0 where
  after : i * len / n ≤ e
  reaches : (i + 1) * len / n ≤ e
  within : e ≤ len

group_end-Ends : (len n i : ℕ) → 0 < len → i < n → Ends len n i (group_end len n i)
unfolding group_end
group_end-Ends len n i some_len before =
    let lo_lt : i * len / n < len =
      (div-lt_iff_lt-mul {k = n} {x = i * len} {y = len} (omega arith)).1
        (omega (arith, mul-lt-mul_of_pos_right {m = i} {n = n} {k = len} before some_len)) in
    let hi_le : (i + 1) * len / n ≤ len = div-le_of_le-mul n (mul-le-mul_right len (omega arith)) in
    record { after = ground arith; reaches = ground arith; within = ground arith }

-- The buckets before a group's end are those before its start and the group.
peak-group :
    (bs : List Bucket) (n i : ℕ)
    → 0 < length bs
    → i < n
    → peak (take (group_end (length bs) n i) bs)
      ≡ max (peak (take (i * length bs / n) bs)) (peak (group bs n i))
unfolding group
peak-group bs n i some_len before =
    let e = group_end-Ends (length bs) n i some_len before in
    ap peak (take-split (i * length bs / n) (group_end (length bs) n i) bs e.after)
    ∙ peak-append (take (i * length bs / n) bs) (group bs n i)

peak-take_mono : (m k : ℕ) (bs : List Bucket) → m ≤ k → peak (take m bs) ≤ peak (take k bs)
peak-take_mono m k bs le =
    omega
      (arith, ap peak (take-split m k bs le), peak-append (take m bs) (take (k - m) (drop m bs)))

merge-height : (g : List Bucket) → height (merge g) ≡ peak g
unfolding merge
merge-height g = merge_onto-height gap_bucket g refl ∙ omega arith

-- With the buckets before the `i`th group, the groups that are left are as tall as all the buckets.
resample_from-peak :
    (bs : List Bucket) (n i k : ℕ)
    → 0 < length bs
    → 0 < n
    → i + k ≡ n
    → max (peak (take (i * length bs / n) bs)) (peak (resample_from bs n i k)) ≡ peak bs
unfolding resample_from peak
resample_from-peak bs n i zero some_len some_n left =
    let at_end : i ≡ n = omega arith in
    let all_of : i * length bs / n ≡ length bs =
      ap (λ x. x * length bs / n) at_end ∙ mul-div_cancel_left (length bs) some_n in
    rw all_of (omega (arith, ap peak (take_all (length bs) bs (omega arith))))
resample_from-peak bs n i (suc k) some_len some_n left =
    let before : i < n = omega arith in
    let e = group_end-Ends (length bs) n i some_len before in
    omega (
      arith,
      resample_from-peak bs n (i + 1) k some_len some_n (omega arith),
      peak-group bs n i some_len before,
      merge-height (group bs n i),
      peak-take_mono ((i + 1) * length bs / n) (group_end (length bs) n i) bs e.reaches,
      peak-take_le (group_end (length bs) n i) bs,
    )

peak-replicate : (n : ℕ) → peak (replicate n gap_bucket) ≡ 0
unfolding peak
peak-replicate zero = refl
peak-replicate (suc n) = omega (arith, peak-replicate n)

resample-peak : (bs : List Bucket) (n : ℕ) → 0 < n → peak (resample bs n) ≡ peak bs
unfolding resample peak
resample-peak [] n some_n = peak-replicate n ∙ unfold peak in refl
resample-peak (b ∷ bs) n some_n =
    let r = resample_from-peak (b ∷ bs) n 0 n (omega arith) some_n (omega arith) in
    let none_yet : 0 * length (b ∷ bs) / n ≡ 0 =
      omega (arith, div-le_self (0 * length (b ∷ bs)) n) in
    omega (arith, r, ap (λ k. peak (take k (b ∷ bs))) none_yet)

length-resample_from : (bs : List Bucket) (n i k : ℕ) → length (resample_from bs n i k) ≡ k
unfolding resample_from
length-resample_from bs n i zero = refl
length-resample_from bs n i (suc k) = ap suc (length-resample_from bs n (i + 1) k)

length-resample : (bs : List Bucket) (n : ℕ) → length (resample bs n) ≡ n
unfolding resample
length-resample [] n = length-replicate n gap_bucket
length-resample (b ∷ bs) n = length-resample_from (b ∷ bs) n 0 n

-- However a history is fitted to a width, wider or narrower, the graph has that many cells and its scale is
-- that of the whole history: the tallest bucket is never averaged away or fallen between two groups.
pub resample-scale :
    (bs : List Bucket) (n fixed_max : ℕ)
    → 0 < n
    → (length (resample bs n) ≡ n) × (autoscale (resample bs n) fixed_max ≡ autoscale bs fixed_max)
unfolding autoscale
resample-scale bs n fixed_max some_n = (
  length-resample bs n,
  ap (λ m. if fixed_max == 0 then m else fixed_max)
      (scale_from-peak 0 (resample bs n)
        ∙ ap (max 0) (resample-peak bs n some_n)
        ∙ sym (scale_from-peak 0 bs)),
)
