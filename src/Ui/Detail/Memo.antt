-- ===== src/Ui/Detail/Memo.antt =====
-- internal/ui/detail/detail.go: the lines are built once for each event, and drawn from where the offset is.
use go_salt_events.Base.{
  Bool-cases, Bytes, List, Option, [], ap, ap₂, arith, codes, drop, either_way, false, inl, inr,
  length, min, none, refl, some, subst, suc, sym, take, true, zero, ℕ, ◌-◌, ◌<◌, ◌==◌, ◌∙◌, ◌∷◌,
  ◌≡◌, ◌≤◌, ◌⊎◌,
}
use go_salt_events.Model.Event.{Event}
use go_salt_events.Ui.Messages.{Key, one_of}
use go_salt_events.Ui.Detail.{
  DetailPane, built_lines, detail_key, hint_line, lines, lines_with, new_detail, set_event, view,
  view_of,
}
use go_salt_events.Ui.Detail.Render.{Decoded, Formats, Line}

-- What is done to the pane: `Update` with a key, `SetEvent`, or `View` with a width and a height.
pub data Use : Type 0 where
  press : Key → Use
  select_event : Event → Use
  draw : ℕ → ℕ → Use

-- The event selected last.
abbrev pub last_selected : Option Event → List Use → Option Event
last_selected o [] = o
last_selected o (press k ∷ us) = last_selected o us
last_selected o (select_event e ∷ us) = last_selected (some e) us
last_selected o (draw w h ∷ us) = last_selected o us

module _ (fmt : Formats) where
  unfoldable pub use_pane : DetailPane → Use → DetailPane
  use_pane p (press k) = detail_key fmt p k
  use_pane p (select_event e) = set_event p e
  use_pane p (draw w h) = (view fmt p w h).1

  unfoldable pub use_all : DetailPane → List Use → DetailPane
  unfolding use_pane
  use_all p [] = p
  use_all p (u ∷ us) = use_all (use_pane p u) us

  -- What a body may be.
  abbrev Built : Option (Bytes → Decoded) → Option Event → Option (List Line) → Type 0
  Built decode e none = Unit {0}
  Built decode e (some body) = body ≡ built_lines fmt decode e

  -- The pane shows `e`, and has built either nothing or what `e` renders to.
  record Showing (decode : Option (Bytes → Decoded)) (e : Option Event) (p : DetailPane)
      : Type 0 where
    decoder : p.decode ≡ decode
    shown : p.event ≡ e
    built : Built decode e p.body

  lines_with-Built :
      (decode : Option (Bytes → Decoded)) (e : Option Event) (p : DetailPane)
      (o : Option (List Line))
      → p.decode ≡ decode
      → p.event ≡ e
      → p.body ≡ o
      → Built decode e o
      → let (body, q) = lines_with fmt p o in (body ≡ built_lines fmt decode e) × Showing decode e q
  unfolding lines_with
  lines_with-Built decode e p (some body) d ev at h =
      (h, record { decoder = d; shown = ev; built = subst (Built decode e) (sym at) h })
  lines_with-Built decode e p none d ev at h =
      let same = ap₂ (built_lines fmt) d ev in
      (same, record { decoder = d; shown = ev; built = same })

  -- What `lines` answers, and the pane that it leaves.
  lines-built :
      (decode : Option (Bytes → Decoded)) (e : Option Event) (p : DetailPane)
      → Showing decode e p
      → ((lines fmt p).0 ≡ built_lines fmt decode e) × Showing decode e (lines fmt p).1
  unfolding lines
  lines-built decode e p h = lines_with-Built decode e p p.body h.decoder h.shown refl h.built

  detail_key-Showing :
      (decode : Option (Bytes → Decoded)) (e : Option Event) (p : DetailPane) (k : Key)
      → Showing decode e p
      → Showing decode e (detail_key fmt p k)
  unfolding detail_key
  detail_key-Showing decode e p k h =
      let after = (lines-built decode e p h).1 in
      either_way (Showing decode e) (one_of k (codes "down") (codes "j"))
        (record { decoder = h.decoder; shown = h.shown; built = h.built })
        (either_way (Showing decode e) (one_of k (codes "up") (codes "k"))
          (record { decoder = h.decoder; shown = h.shown; built = h.built })
          (either_way (Showing decode e) (one_of k (codes "g") (codes "home"))
            (record { decoder = h.decoder; shown = h.shown; built = h.built })
            (either_way (Showing decode e) (one_of k (codes "G") (codes "end"))
              (record { decoder = after.decoder; shown = after.shown; built = after.built }) h)))

  -- The rows of a box: none where it has no column.
  abbrev pub rows_in : ℕ → ℕ → ℕ
  rows_in zero h = 0
  rows_in (suc w) h = h

  -- What a frame of `h` rows shows of the event: at most that many of the lines that it renders to, in a
  -- row and from one that is there.
  abbrev pub Drawn : Option (Bytes → Decoded) → Option Event → ℕ → List Line → Type 0
  Drawn decode none h drawn = drawn ≡ take h (hint_line ∷ [])
  Drawn decode (some e) h drawn =
      let all = built_lines fmt decode (some e) in
      (first : ℕ) × ((first ≡ 0) ⊎ (first < length all)) × (drawn ≡ take h (drop first all))

  record Frames (decode : Option (Bytes → Decoded)) (e : Option Event) (h : ℕ)
      (x : List Line × DetailPane) : Type 0 where
    pub drawn : Drawn decode e h x.0
    pub after : Showing decode e x.1

  take_empty : (h : ℕ) (ls : List Line) → length ls ≤ 0 → take h ls ≡ []
  take_empty zero ls le = refl
  take_empty (suc h) [] le = refl
  take_empty (suc h) (_ ∷ _) le = elim le [ ]

  positive : (n : ℕ) → (n == 0) ≡ false → 0 < n
  positive n e = ground arith

  empty_length : (n : ℕ) → (n == 0) ≡ true → n ≤ 0
  empty_length n e = ground arith

  view_of-Frames :
      (decode : Option (Bytes → Decoded)) (p : DetailPane) (e : Option Event) (h : ℕ)
      → Showing decode e p
      → Frames decode e (suc h) (view_of fmt p e (suc h))
  unfolding view_of
  view_of-Frames decode p none h s = record {
    drawn = ap (λ t. hint_line ∷ t) (sym (take_empty h [] (omega arith)));
    after = s;
  }
  view_of-Frames decode p (some e) h s =
      let (same, after) = lines-built decode (some e) p s in
      let body = (lines fmt p).0 in
      let off = min (lines fmt p).1.offset (length body - 1) in
      elim (Bool-cases (length body == 0)) [
        | inl empty ↦ rw empty (record {
          drawn = (
            0,
            inl refl,
            sym (
                ap (take (suc h)) (sym same)
                ∙ take_empty (suc h) body (empty_length (length body) empty)),
          );
          after = after;
        })
        | inr some_line ↦ rw some_line (record {
          drawn = (
            off,
            inr (omega (arith, positive (length body) some_line, ap length same)),
            ap (λ b. take (suc h) (drop off b)) same,
          );
          after = record { decoder = after.decoder; shown = after.shown; built = after.built };
        })
      ]

  blank-Frames :
      (decode : Option (Bytes → Decoded)) (e : Option Event) (p : DetailPane)
      → Showing decode e p
      → Frames decode e 0 ([], p)
  blank-Frames decode none p s = record { drawn = refl; after = s }
  blank-Frames decode (some e) p s = record { drawn = (0, inl refl, refl); after = s }

  view-Frames :
      (decode : Option (Bytes → Decoded)) (e : Option Event) (p : DetailPane) (w h : ℕ)
      → Showing decode e p
      → Frames decode e (rows_in w h) (view fmt p w h)
  unfolding view
  view-Frames decode e p zero h s = blank-Frames decode e p s
  view-Frames decode e p (suc w) zero s = blank-Frames decode e p s
  view-Frames decode e p (suc w) (suc h) s =
      subst (λ o. Frames decode e (suc h) (view_of fmt p o (suc h))) (sym s.shown)
        (view_of-Frames decode p e h s)

  use_pane-Showing :
      (decode : Option (Bytes → Decoded)) (e : Option Event) (p : DetailPane) (u : Use)
      → Showing decode e p
      → Showing decode (last_selected e (u ∷ [])) (use_pane p u)
  unfolding use_pane set_event
  use_pane-Showing decode e p (press k) h = detail_key-Showing decode e p k h
  use_pane-Showing decode e p (select_event x) h = record {
    decoder = h.decoder;
    shown = refl;
    built = tt;
  }
  use_pane-Showing decode e p (draw w n) h = (view-Frames decode e p w n h).after

  use_all-Showing :
      (decode : Option (Bytes → Decoded)) (e : Option Event) (p : DetailPane) (us : List Use)
      → Showing decode e p
      → Showing decode (last_selected e us) (use_all p us)
  unfolding use_all
  use_all-Showing decode e p [] h = h
  use_all-Showing decode e p (press k ∷ us) h =
      use_all-Showing decode e (use_pane p (press k)) us (use_pane-Showing decode e p (press k) h)
  use_all-Showing decode e p (select_event x ∷ us) h =
      use_all-Showing decode (some x) (use_pane p (select_event x)) us
        (use_pane-Showing decode e p (select_event x) h)
  use_all-Showing decode e p (draw w n ∷ us) h =
      use_all-Showing decode e (use_pane p (draw w n)) us (use_pane-Showing decode e p (draw w n) h)

  -- After any use of a new pane, with keys, selections and frames in any order, a frame draws at most as many
  -- lines as it has rows, of those that the event selected last renders to, in a row and from one that is there; or
  -- the hint when none was selected; or nothing in a box with no column or no row. No line of an earlier event is
  -- left, and no offset runs past the end.
  pub use_all-draws :
      (decode : Option (Bytes → Decoded)) (us : List Use) (w h : ℕ)
      → Drawn decode
          (last_selected none us)
          (rows_in w h)
          (view fmt (use_all (new_detail decode) us) w h).0
  unfolding new_detail
  use_all-draws decode us w h =
      let fresh : DetailPane = new_detail decode in
      (view-Frames decode (last_selected none us) (use_all fresh us) w h (
        use_all-Showing decode none fresh us
          (record { decoder = refl; shown = refl; built = tt }))).drawn
