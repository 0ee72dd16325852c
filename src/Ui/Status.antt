-- ===== src/Ui/Status.antt =====
-- internal/ui/statusbar.go and the end of root.go: what the chrome says, and which body is drawn. Widths
-- are those that the layout library measures; a text is its width in `justify`.
pub mod Reach
pub mod Scale
use go_salt_events.Base.{
  Bytes, Option, if◌then◌else◌, leb, length, ltb, max, min, negsuc, none, not, pos, some, suc, zero,
  ℕ, ℤ, ◌*◌, ◌+◌, ◌-◌, ◌/◌, ◌||◌,
}
use go_salt_events.Filter.Query.Parse.{Query, QueryError, is_zero}
use go_salt_events.Stats.Jobs.Ingest.{is_empty}
use go_salt_events.Hub.View.{Snapshot}
use go_salt_events.Ui.Messages.{Notice, snapshot_limit}
use go_salt_events.Ui.Root.{Model, further}

abbrev pub chrome_rows : ℕ
chrome_rows = 4

abbrev pub border_cells : ℕ
border_cells = 2

-- `max(1, a - b)`
abbrev pub at_least_one : ℤ → ℕ → ℕ
at_least_one (pos n) b = max 1 (n - b)
at_least_one (negsuc n) b = 1

-- What `bodyView` draws.
pub data Body : Type 0 where
  help_body : Body
  reader_error_body : Bytes → Body
  pane_body : ℕ → Body

-- What the filter bar says.
pub data FilterBar : Type 0 where
  error_bar : QueryError → FilterBar
  editor_bar : Bytes → FilterBar
  notice_bar : Notice → FilterBar
  query_bar : Query → Option (ℕ × ℕ) → FilterBar
  empty_bar : FilterBar

-- `reachNote`: how many events were looked at, and of how many, when that is worth saying. The zero
-- snapshot has looked at all of its no events.
unfoldable pub reach_note : {F : Type 0} → Option (Snapshot F) → Option (ℕ × ℕ)
reach_note none = none
reach_note (some s) =
    if leb snapshot_limit (length s.events) || leb s.cache.events s.scanned
    then none
    else some (s.scanned, s.cache.events)

module _ {F : Type 0} where
  -- `bodyView`
  unfoldable pub body_view : Model F → Body
  body_view m =
      if m.show_help
      then help_body
      else if not (is_empty m.reader_err)
      then reader_error_body m.reader_err
      else pane_body m.focus

  -- The content box of `View`, its width and its height, when there is one.
  unfoldable pub content_box : Model F → Option (ℕ × ℕ)
  content_box m =
      if not m.ready || leb (length m.panes) 0
      then none
      else some
          (at_least_one m.width border_cells, at_least_one m.height (chrome_rows + border_cells))

  abbrev pub bar_below : Model F → Option Notice → FilterBar
  bar_below m (some n) = notice_bar n
  bar_below m none = if is_zero m.query then empty_bar else query_bar m.query (reach_note m.snap)

  abbrev pub bar_for : Model F → Option QueryError → FilterBar
  bar_for m (some err) = error_bar err
  bar_for m none = if m.filtering then editor_bar m.filter_buf else bar_below m m.notice

  -- `filterBarView`
  unfoldable pub filter_bar : Model F → FilterBar
  unfolding reach_note
  filter_bar m = bar_for m m.filter_err

-- `justify`, of two texts on `w` columns: the columns that the left one keeps, and the gap.
unfoldable pub justify : ℕ → ℕ → ℕ → ℕ × ℕ
justify left right w = let kept = min left (w - right - 1) in (kept, max 1 (w - kept - right))

-- The loop of `humanBytes`, with the divisions left until the last suffix: the divisor and the index of
-- the suffix.
unfoldable pub scale_from : ℕ → ℕ → ℕ → ℕ → ℕ × ℕ
scale_from zero v div exp = (div, exp)
scale_from (suc left) v div exp =
    let further = scale_from left (v / 1024) (div * 1024) (exp + 1) in
    if ltb v 1024 then (div, exp) else further

-- What `humanBytes` prints: the bytes, or a quotient to be rounded and the index of its suffix in "KMGT".
pub data Scaled : Type 0 where
  in_bytes : ℤ → Scaled
  scaled : ℕ → ℕ → ℕ → Scaled

-- `humanBytes`
unfoldable pub human_bytes : ℤ → Scaled
unfolding scale_from
human_bytes (negsuc n) = in_bytes (negsuc n)
human_bytes (pos n) =
    if ltb n 1024
    then in_bytes (pos n)
    else (let (div, exp) = scale_from 3 (n / 1024) 1024 0 in scaled n div exp)
