-- ===== src/Ui/Root/Editing.antt =====
-- internal/ui/root.go: the filter editor, from `/` to `enter`.
use go_salt_events.Base.{
  Bytes, List, Option, [], ap, append-nil, append_assoc, arith, bytes_eq, codes, false, length,
  none, refl, some, subst, sym, true, ℕ, ◌++◌, ◌∙◌, ◌∷◌, ◌≡◌, ◌≤◌,
}
use go_salt_events.Filter.Query.Parse.{ParsedQuery, accepted, parse, refused, to_string}
use go_salt_events.Stats.Floats.{Floats}
use go_salt_events.Stats.Jobs.Ingest.{is_empty}
use go_salt_events.Hub.{Hub}
use go_salt_events.Hub.View.{Readings}
use go_salt_events.Ui.Messages.{Key, is_key, key_msg, pane_index}
use go_salt_events.Ui.Detail.Render.{Formats}
use go_salt_events.Ui.Root.{Model}
use go_salt_events.Ui.Root.Update.{
  commit, commit_filter, filter_key, global_key, handle_key, jump_or, pull, refresh, update,
}

-- A key that spells text.
abbrev pub IsText : Key → Type 0
IsText k =
    (is_empty k.typed ≡ false)
    × (is_key k (codes "esc") ≡ false)
    × (is_key k (codes "enter") ≡ false)
    × (is_key k (codes "backspace") ≡ false)

abbrev pub AllText : List Key → Type 0
AllText [] = Unit {0}
AllText (k ∷ ks) = IsText k × AllText ks

abbrev pub joined : List Key → Bytes
joined [] = []
joined (k ∷ ks) = k.typed ++ joined ks

abbrev pub slash_key : Key
slash_key = record { name = codes "/"; typed = codes "/" }

abbrev pub enter_key : Key
enter_key = record { name = codes "enter"; typed = [] }

-- What `enter` makes of the text: the query that it says, or the one from before and the error.
abbrev pub Committed : {F : Type 0} → Model F → Model F → ParsedQuery → Type 0
Committed before m (accepted q) = (m.query ≡ q) × (m.filtering ≡ false) × (m.filter_err ≡ none)
Committed before m (refused err) =
    (m.query ≡ before.query)
    × (m.snap ≡ before.snap)
    × (m.filtering ≡ true)
    × (m.filter_err ≡ some err)

slash_index : (n : ℕ) → n ≤ 9 → pane_index (codes "/") n ≡ none
unfolding pane_index
slash_index n few = ground arith

module _ (fl : Floats) (fmt : Formats) where
  open fl use {Float}

  unfoldable pub press_all : Readings → Model Float → List Key → Model Float
  press_all t m [] = m
  press_all t m (k ∷ ks) = press_all t (update fl fmt t m (key_msg k)).0 ks

  filter_key-typed :
      (t : Readings) (m : Model Float) (k : Key)
      → IsText k
      → filter_key fl t m k ≡ record m { filter_buf = m.filter_buf ++ k.typed }
  unfolding filter_key
  filter_key-typed t m k (text, not_esc, not_enter, not_back) =
      rw (filter_key, not_esc, not_enter, not_back, text) refl

  update-filtering :
      (t : Readings) (m : Model Float) (k : Key)
      → m.filtering ≡ true
      → (update fl fmt t m (key_msg k)).0 ≡ filter_key fl t m k
  unfolding update handle_key
  update-filtering t m k editing = rw editing refl

  press_all-typed :
      (t : Readings) (m : Model Float) (ks : List Key)
      → m.filtering ≡ true
      → AllText ks
      → press_all t m ks ≡ record m { filter_buf = m.filter_buf ++ joined ks }
  unfolding press_all
  press_all-typed t m [] editing h =
      ap (λ b. record m { filter_buf = b }) (sym (append-nil m.filter_buf))
  press_all-typed t m (k ∷ ks) editing (text, texts) =
      ap (λ x. press_all t x ks) (update-filtering t m k editing ∙ filter_key-typed t m k text)
      ∙ press_all-typed t (record m { filter_buf = m.filter_buf ++ k.typed }) ks editing texts
      ∙ ap (λ b. record m { filter_buf = b }) (append_assoc m.filter_buf k.typed (joined ks))

  press_all-append :
      (t : Readings) (m : Model Float) (ks ls : List Key)
      → press_all t m (ks ++ ls) ≡ press_all t (press_all t m ks) ls
  unfolding press_all
  press_all-append t m [] ls = refl
  press_all-append t m (k ∷ ks) ls = press_all-append t (update fl fmt t m (key_msg k)).0 ks ls

  entered :
      (t : Readings) (m : Model Float)
      → m.filtering ≡ true
      → press_all t m (enter_key ∷ []) ≡ commit fl t m (parse m.filter_buf)
  unfolding press_all filter_key commit_filter bytes_eq
  entered t m editing = update-filtering t m enter_key editing

  pull-fields :
      (t : Readings) (m : Model Float) (src : Option Hub)
      → let n = pull fl t m src in
        (n.query ≡ m.query) × (n.filtering ≡ m.filtering) × (n.filter_err ≡ m.filter_err)
  unfolding pull
  pull-fields t m none = (refl, refl, refl)
  pull-fields t m (some h) = (refl, refl, refl)

  commit-Committed :
      (t : Readings) (before m : Model Float) (q : ParsedQuery)
      → m.query ≡ before.query
      → m.snap ≡ before.snap
      → m.filtering ≡ true
      → Committed before (commit fl t m q) q
  unfolding commit refresh
  commit-Committed t before m (refused err) same seen editing = (same, seen, editing, refl)
  commit-Committed t before m (accepted q) same seen editing =
      pull-fields t (record m { query = q; filtering = false; filter_err = none }) m.src

  -- `/` opens the editor on the query in force.
  opened :
      (t : Readings) (m : Model Float)
      → m.filtering ≡ false
      → length m.panes ≤ 9
      → (update fl fmt t m (key_msg slash_key)).0 ≡ record m {
        notice = none;
        filtering = true;
        filter_buf = to_string m.query;
        filter_err = none;
      }
  unfolding update handle_key jump_or global_key pane_index bytes_eq
  opened t m browsing few = rw (browsing, slash_index (length m.panes) few) refl

  -- From `/` over any text typed to `enter`, on a build with at most nine panes, the text after that of
  -- the query in force is what is parsed: a query that is accepted is in force and the editor closed; with one
  -- that is refused the old query, the snapshot and the open editor are kept, with the error.
  pub edit_commits :
      (t : Readings) (m : Model Float) (ks : List Key)
      → m.filtering ≡ false
      → length m.panes ≤ 9
      → AllText ks
      → Committed m
          (press_all t m (slash_key ∷ ks ++ enter_key ∷ []))
          (parse (to_string m.query ++ joined ks))
  edit_commits t m ks browsing few texts =
      let empty : Model Float = record m {
        notice = none;
        filtering = true;
        filter_buf = to_string m.query;
        filter_err = none;
      } in
      let buf = to_string m.query ++ joined ks in
      let full : Model Float = record empty { filter_buf = buf } in
      let all_typed : press_all t m (slash_key ∷ ks) ≡ full =
        unfold press_all in
        ap (λ x. press_all t x ks) (opened t m browsing few)
        ∙ press_all-typed t empty ks refl texts in
      subst (λ x. Committed m x (parse buf))
        (sym (
          press_all-append t m (slash_key ∷ ks) (enter_key ∷ [])
          ∙ ap (λ x. press_all t x (enter_key ∷ [])) all_typed
          ∙ entered t full refl))
        (commit-Committed t m full (parse buf) refl refl refl)
