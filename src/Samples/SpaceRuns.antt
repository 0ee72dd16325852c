-- ===== src/Samples/SpaceRuns.antt =====
-- internal/export/space.go: a count of blocks that is too large for an int64 of bytes.
use go_salt_events.Base.{pos, refl, ◌≡◌}
use go_salt_events.Export.Space.{bytes_from, max_int64}

saturated : bytes_from max_int64 (pos 4096) ≡ max_int64
unfolding bytes_from
saturated = refl
