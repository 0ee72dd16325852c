-- ===== src/Ui/Status/Reach.antt =====
-- internal/ui/statusbar.go, `reachNote`, with internal/cache/cache.go: silence means that nothing is missing.
use go_salt_events.Base.{Option, some, ℕ}
use go_salt_events.Cache.{Cache}
use go_salt_events.Filter.Query.Parse.{Query}
use go_salt_events.Stats.Floats.{Floats}
use go_salt_events.Hub.{Hub}
use go_salt_events.Ui.Status.{FilterBar, editor_bar, empty_bar, error_bar, notice_bar, query_bar}

-- The note of a bar that shows the query; any other bar counts as one that has something to say.
abbrev note_of : FilterBar → Option (ℕ × ℕ)
note_of (query_bar q note) = note
note_of (error_bar err) = some (0, 0)
note_of (editor_bar buf) = some (0, 0)
note_of (notice_bar n) = some (0, 0)
note_of empty_bar = some (0, 0)
