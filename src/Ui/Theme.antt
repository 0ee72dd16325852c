-- ===== src/Ui/Theme.antt =====
-- internal/theme/registry.go: the palettes by name, and the order in which the `t` key walks them.
pub mod Cycle
use go_salt_events.Base.{
  Bool, Bytes, List, [], bytes_eq, bytes_ltb, codes, get_or, if◌then◌else◌, length, sort, suc, zero,
  ℕ, ◌%◌, ◌+◌, ◌∷◌,
}
use go_salt_events.Filter.Query.{is_in}

-- The keys of `palettes`; the colours are data that no operation here reads.
abbrev pub palettes : List Bytes
palettes =
    codes "gruvbox-dark" ∷ codes "solarized-dark" ∷ codes "solarized-light" ∷ codes "mono" ∷ []

abbrev pub default_name : Bytes
default_name = codes "gruvbox-dark"

abbrev pub mono_name : Bytes
mono_name = codes "mono"

-- `Names`
unfoldable pub names : List Bytes
names = sort bytes_ltb palettes

-- `_, ok := Get(name)`, and `StylesFor`'s answer.
unfoldable pub is_registered : Bytes → Bool
is_registered name = is_in palettes name

-- The loop of `Next` from index `i`, over all the names.
unfoldable pub next_from : List Bytes → ℕ → List Bytes → Bytes → Bytes
next_from all i [] name = default_name
next_from all i (n ∷ ns) name =
    if bytes_eq n name
    then get_or all ((i + 1) % length all) default_name
    else next_from all (i + 1) ns name

-- `Next`
unfoldable pub next : Bytes → Bytes
unfolding next_from names
next name = next_from names 0 names name

-- `Next`, pressed that many times.
abbrev pub nexts : ℕ → Bytes → Bytes
nexts zero name = name
nexts (suc k) name = nexts k (next name)
