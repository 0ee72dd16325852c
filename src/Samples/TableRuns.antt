-- ===== src/Samples/TableRuns.antt =====
-- internal/ui/components: two columns in a narrow table, and four seconds in three cells.
use go_salt_events.Base.{
  List, [], arith, codes, exceeds, false, length, pos, refl, true, ℕ, ◌+◌, ◌∷◌, ◌≡◌, ◌⊎◌,
}
use go_salt_events.Stats.Rings.{Bucket}
use go_salt_events.Ui.Sparkline.{autoscale, resample}
use go_salt_events.Ui.Sparkline.Peak.{resample-scale}
use go_salt_events.Ui.Table.{Column, last_flex, layout, sum}
use go_salt_events.Ui.Table.Fits.{AtMost, Narrower, asked, layout-fits}

abbrev wide : Column
wide = record { title = codes "Minion"; width = pos 6; flex = false }

abbrev slim : Column
slim = record { title = codes "OK"; width = pos 3; flex = false }

shrunk : layout (wide ∷ slim ∷ []) (pos 7) ≡ 3 ∷ 3 ∷ []
unfolding layout
shrunk = refl

layout-fits_example :
    let ws = layout (wide ∷ slim ∷ []) (pos 7) in
    Narrower ws (asked (wide ∷ slim ∷ []))
    × ((exceeds (sum ws + length (slim ∷ [])) (pos 7) ≡ false) ⊎ AtMost 1 ws)
unfolding last_flex
layout-fits_example = layout-fits wide (slim ∷ []) (pos 7) refl

abbrev second_of : ℕ → Bucket
second_of n = record { count = n; gap = false }

abbrev four_seconds : List Bucket
four_seconds = second_of 1 ∷ second_of 0 ∷ second_of 9 ∷ record { count = 0; gap = true } ∷ []

resample-scale_example :
    (length (resample four_seconds 3) ≡ 3)
    × (autoscale (resample four_seconds 3) 0 ≡ autoscale four_seconds 0)
resample-scale_example = resample-scale four_seconds 3 0 (omega arith)

spike_kept : resample four_seconds 3 ≡ second_of 1 ∷ second_of 0 ∷ second_of 9 ∷ []
unfolding resample
spike_kept = refl
