-- ===== src/Ui/Root/Sound.antt =====
-- internal/ui/root.go: what keeps the focus on a pane.
use go_salt_events.Model.Event.{Event}
use go_salt_events.Base.{
  Bool-cases, Bytes, List, Option, [], arith, either_way, false, inl, inr, length, none, refl, some,
  suc, true, ℕ, ◌%◌, ◌+◌, ◌-◌, ◌<◌, ◌==◌, ◌∷◌, ◌≡◌, ◌≤◌,
}
use native.Mathlib.Nat.{mod-lt}
use go_salt_events.Hub.{Hub}
use go_salt_events.Ui.Messages.{Cmd, Key, pane_index}
use go_salt_events.Ui.Theme.{is_registered, next}
use go_salt_events.Ui.Root.{
  Model, Pane, cycle_theme, detail_pane, further, jobs_pane, land, live_pane, open_detail, pin_on,
  place, rate_pane, show_event, step, summary_pane, sync_pin,
}

-- Of `n` panes one has the focus, if there is one; and the styles are of the palette that is named.
pub record IsSound (n : ℕ) (panes : List Pane) (focus : ℕ) (styles name : Bytes) : Type 0 where
  pub count : length panes ≡ n
  pub bound : focus ≤ n - 1
  pub compiled : styles ≡ name
  pub registered : is_registered name ≡ true

pub record Sound {F : Type 0} (n : ℕ) (m : Model F) : Type 0 where
  pub parts : IsSound n m.panes m.focus m.styles m.theme_name

pub record SoundAfter {F : Type 0} (n : ℕ) (x : Model F × Option Cmd) : Type 0 where
  pub model : Sound n x.0

-- A model with the same panes, focus and styles.
pub like :
    {F : Type 0} {n : ℕ} (m : Model F) → IsSound n m.panes m.focus m.styles m.theme_name → Sound n m
like m h = record { parts = h }

abbrev Placed : ℕ → Option (ℕ × List Pane) → Type 0
Placed n none = Unit {0}
Placed n (some (i, panes)) = (length panes ≡ n) × (i < n)

further-Placed :
    (p : Pane) (n : ℕ) (o : Option (ℕ × List Pane)) → Placed n o → Placed (suc n) (further p o)
further-Placed p n none h = tt
further-Placed p n (some (i, panes)) (same, lt) = (omega arith, omega arith)

pub show_event-Placed : (panes : List Pane) (e : Event) → Placed (length panes) (show_event panes e)
unfolding show_event
show_event-Placed [] e = tt
show_event-Placed (detail_pane p ∷ ps) e = (refl, omega arith)
show_event-Placed (live_pane p ∷ ps) e = further-Placed _ _ _ (show_event-Placed ps e)
show_event-Placed (rate_pane b ∷ ps) e = further-Placed _ _ _ (show_event-Placed ps e)
show_event-Placed (summary_pane ∷ ps) e = further-Placed _ _ _ (show_event-Placed ps e)
show_event-Placed (jobs_pane p ∷ ps) e = further-Placed _ _ _ (show_event-Placed ps e)

pane_index-lt : (name : Bytes) (n i : ℕ) → pane_index name n ≡ some i → i < n
unfolding pane_index
pane_index-lt [] n i h = cc
pane_index-lt (b ∷ []) n i h = ground (arith, h)
pane_index-lt (b ∷ c ∷ bs) n i h = cc

module _ {F : Type 0} (n : ℕ) where
  place-Sound :
      (m : Model F) (o : Option (ℕ × List Pane))
      → Placed (length m.panes) o
      → Sound n m
      → Sound n (place m o)
  unfolding place
  place-Sound m none fits h = record { parts = h.parts }
  place-Sound m (some (i, panes)) (same, lt) h = like _ (record {
    count = omega (arith, same, h.parts.count);
    bound = omega (arith, lt, h.parts.count);
    compiled = h.parts.compiled;
    registered = h.parts.registered;
  })

  pub open_detail-Sound : (m : Model F) (e : Event) → Sound n m → Sound n (open_detail m e)
  unfolding open_detail
  open_detail-Sound m e h = place-Sound m (show_event m.panes e) (show_event-Placed m.panes e) h

  pub land-Sound :
      (m : Model F) (jid minion : Bytes) (o : Option Event)
      → Sound n m
      → Sound n (land m jid minion o)
  unfolding land
  land-Sound m jid minion none h = record { parts = h.parts }
  land-Sound m jid minion (some e) h = open_detail-Sound m e h

  pin_on-Sound : (m : Model F) (o : Option Hub) → Sound n m → Sound n (pin_on m o)
  unfolding pin_on
  pin_on-Sound m none h = h
  pin_on-Sound m (some hub) h = record { parts = h.parts }

  pub sync_pin-Sound : (m : Model F) → Sound n m → Sound n (sync_pin m)
  unfolding sync_pin
  sync_pin-Sound m h = pin_on-Sound m m.src h

  -- A focus that a key moves.
  pub moved-Sound : (m : Model F) (i : ℕ) → i ≤ n - 1 → Sound n m → Sound n (record m { focus = i })
  moved-Sound m i fits h = like _ (record {
    count = h.parts.count;
    bound = fits;
    compiled = h.parts.compiled;
    registered = h.parts.registered;
  })

  pub step-fits : (m : Model F) (k : Key) → length m.panes ≡ n → step m k ≤ n - 1
  unfolding step
  step-fits m k count = elim (Bool-cases (length m.panes == 0)) [
    | inl none_there ↦ rw none_there (omega arith)
    | inr some_there ↦ rw some_there (
        either_way (λ i. i ≤ n - 1) _ (wraps some_there (m.focus + length m.panes - 1))
          (wraps some_there (m.focus + 1)))
  ]
    where
      positive : (k : ℕ) → (k == 0) ≡ false → 0 < k
      positive k e = ground arith

      wraps : (length m.panes == 0) ≡ false → (i : ℕ) → i % length m.panes ≤ n - 1
      wraps e i = omega (arith, mod-lt i {m = length m.panes} (positive (length m.panes) e), count)

  pub cycle_theme-Sound : (m : Model F) → Sound n m → Sound n (cycle_theme m)
  unfolding cycle_theme
  cycle_theme-Sound m h = elim (Bool-cases (is_registered (next m.theme_name))) [
    | inl known ↦ rw known (
        like _ (record {
          count = h.parts.count;
          bound = h.parts.bound;
          compiled = refl;
          registered = known;
        }))
    | inr unknown ↦ rw unknown h
  ]

  pub jump-Sound :
      (m : Model F) (name : Bytes) (i : ℕ)
      → pane_index name (length m.panes) ≡ some i
      → Sound n m
      → Sound n (record m { focus = i })
  jump-Sound m name i eq h =
      moved-Sound m i (omega (arith, pane_index-lt name (length m.panes) i eq, h.parts.count)) h
