-- ===== src/Ui/Root/Palettes.antt =====
-- internal/ui/root.go with internal/theme/registry.go: what the `t` key comes to.
use go_salt_events.Base.{
  Bytes, ap, arith, bytes_eq, codes, false, length, none, refl, replicate, suc, true, zero, ℕ, ◌∙◌,
  ◌≡◌, ◌≤◌,
}
use go_salt_events.Stats.Floats.{Floats}
use go_salt_events.Hub.View.{Readings}
use go_salt_events.Ui.Theme.{is_registered, next, nexts}
use go_salt_events.Ui.Theme.Cycle.{next_reaches, next_registered}
use go_salt_events.Ui.Messages.{Key, key_msg, pane_index}
use go_salt_events.Ui.Detail.Render.{Formats}
use go_salt_events.Ui.Root.{Model, cycle_theme}
use go_salt_events.Ui.Root.Update.{global_key, handle_key, jump_or, update}
use go_salt_events.Ui.Root.Editing.{press_all}

abbrev pub theme_key : Key
theme_key = record { name = codes "t"; typed = codes "t" }

theme_index : (n : ℕ) → n ≤ 9 → pane_index (codes "t") n ≡ none
unfolding pane_index
theme_index n few = ground arith

module _ (fl : Floats) (fmt : Formats) where
  open fl use {Float}

  -- A model that takes keys as commands, drawn with the palette that it names.
  pub record Themed (m : Model Float) : Type 0 where
    pub browsing : m.filtering ≡ false
    pub few : length m.panes ≤ 9
    pub known : is_registered m.theme_name ≡ true
    pub compiled : m.styles ≡ m.theme_name

  abbrev turned : Model Float → Model Float
  turned m = record m { notice = none; theme_name = next m.theme_name; styles = next m.theme_name }

  pressed :
      (t : Readings) (m : Model Float)
      → Themed m
      → (update fl fmt t m (key_msg theme_key)).0 ≡ turned m
  unfolding update handle_key jump_or global_key cycle_theme pane_index bytes_eq
  pressed t m h =
      rw (h.browsing, theme_index (length m.panes) h.few, next_registered m.theme_name h.known) refl

  turned-Themed : (m : Model Float) → Themed m → Themed (turned m)
  turned-Themed m h = record {
    browsing = h.browsing;
    few = h.few;
    known = next_registered m.theme_name h.known;
    compiled = refl;
  }

  press_all-nexts :
      (t : Readings) (k : ℕ) (m : Model Float)
      → Themed m
      → let n = press_all fl fmt t m (replicate k theme_key) in
        (n.theme_name ≡ nexts k m.theme_name) × (n.styles ≡ nexts k m.theme_name)
  unfolding press_all
  press_all-nexts t zero m h = (refl, h.compiled)
  press_all-nexts t (suc k) m h =
      let (named, styled) = press_all-nexts t k (turned m) (turned-Themed m h) in
      let same = ap (λ x. press_all fl fmt t x (replicate k theme_key)) (pressed t m h) in
      (
        ap (λ (x : Model Float). x.theme_name) same ∙ named,
        ap (λ (x : Model Float). x.styles) same ∙ styled,
      )

  -- While the filter editor is closed, on a build with at most nine panes, pressing `t` some number of times, three
  -- at most, brings the model to any registered palette, in its name and in the styles it draws with.
  pub themes_reach :
      (t : Readings) (m : Model Float) (b : Bytes)
      → Themed m
      → is_registered b ≡ true
      → (k : ℕ) × (k ≤ 3)
        × ((press_all fl fmt t m (replicate k theme_key)).theme_name ≡ b)
        × ((press_all fl fmt t m (replicate k theme_key)).styles ≡ b)
  themes_reach t m b h wanted =
      let (k, few, there) = next_reaches m.theme_name b h.known wanted in
      let (named, styled) = press_all-nexts t k m h in (k, few, named ∙ there, styled ∙ there)
