-- ===== src/Config/Paths.antt =====
-- internal/config/paths.go: the socket, the cache and the configuration file; with the functions of Go's
-- path/filepath that it calls, on a Unix system.
pub mod Socket
use go_salt_events.Base.{
  Bool, Bytes, List, Option, [], bytes_eq, codes, false, if◌then◌else◌, length, ltb, none, reverse,
  some, true, ℕ, ◌++◌, ◌+◌, ◌==◌, ◌||◌, ◌∷◌,
}

abbrev pub slash : ℕ
slash = b'/'

abbrev pub onto_first : ℕ → List Bytes → List Bytes
onto_first c [] = (c ∷ []) ∷ []
onto_first c (s ∷ ss) = (c ∷ s) ∷ ss

-- What stands between the slashes.
unfoldable pub segments : Bytes → List Bytes
segments [] = [] ∷ []
segments (c ∷ s) = if c == slash then [] ∷ segments s else onto_first c (segments s)

abbrev pub dot : Bytes
dot = codes "."

abbrev pub dot_dot : Bytes
dot_dot = codes ".."

-- What `Clean` makes of one segment, over those that it has kept, the last of them first.
unfoldable pub clean_step : Bool → List Bytes → Bytes → List Bytes
clean_step rooted kept s =
    if bytes_eq s [] || bytes_eq s dot
    then kept
    else if bytes_eq s dot_dot
    then elim kept [
      | [] ↦ if rooted then [] else dot_dot ∷ []
      | k ∷ ks ↦ if bytes_eq k dot_dot then dot_dot ∷ k ∷ ks else ks
    ]
    else s ∷ kept

unfoldable pub clean_all : Bool → List Bytes → List Bytes → List Bytes
clean_all rooted kept [] = kept
clean_all rooted kept (s ∷ ss) = clean_all rooted (clean_step rooted kept s) ss

abbrev pub is_rooted : Bytes → Bool
is_rooted [] = false
is_rooted (c ∷ _) = c == slash

-- The kept segments with slashes between them, the last of them first.
unfoldable pub join_back : List Bytes → Bytes
join_back [] = []
join_back (s ∷ []) = s
join_back (s ∷ t ∷ ss) = join_back (t ∷ ss) ++ slash ∷ s

abbrev pub under_root : Bool → Bytes → Bytes
under_root true s = slash ∷ s
under_root false [] = dot
under_root false (c ∷ s) = c ∷ s

-- `filepath.Clean`
unfoldable pub clean : Bytes → Bytes
unfolding clean_all clean_step join_back segments
clean p = under_root (is_rooted p) (join_back (clean_all (is_rooted p) [] (segments p)))

-- `filepath.Join` of two elements.
unfoldable pub join : Bytes → Bytes → Bytes
unfolding clean
join [] [] = []
join [] (c ∷ s) = clean (c ∷ s)
join (d ∷ dir) s = clean ((d ∷ dir) ++ slash ∷ s)

-- The loops of `filepath.Base`, on the path read backwards.
unfoldable pub drop_slashes : Bytes → Bytes
drop_slashes [] = []
drop_slashes (c ∷ s) = if c == slash then drop_slashes s else c ∷ s

unfoldable pub until_slash : Bytes → Bytes
until_slash [] = []
until_slash (c ∷ s) = if c == slash then [] else c ∷ until_slash s

abbrev pub or_slash : Bytes → Bytes
or_slash [] = slash ∷ []
or_slash (c ∷ s) = c ∷ s

-- `filepath.Base`
unfoldable pub base : Bytes → Bytes
unfolding drop_slashes until_slash
base [] = dot
base (c ∷ s) = or_slash (reverse (until_slash (drop_slashes (reverse (c ∷ s)))))

abbrev pub pub_socket_name : Bytes
pub_socket_name = codes "master_event_pub.ipc"

abbrev pub default_sock_dir : Bytes
default_sock_dir = codes "/var/run/salt/master"

abbrev pub default_cache_dir : Bytes
default_cache_dir = codes "/var/cache/salt/master"

abbrev pub config_rel_path : Bytes
config_rel_path = codes ".config/salt-events/config.toml"

-- `ResolveSockDir`
unfoldable pub resolve_sock_dir : Bytes → Bytes → Bytes
resolve_sock_dir configured cachedir =
    if ltb (length cachedir + 10) (length configured)
    then join cachedir (codes ".salt-unix")
    else configured

-- `SocketPath`
unfoldable pub socket_path : Bytes → Bytes
unfolding join
socket_path dir = join dir pub_socket_name

-- The last two ways of `ResolveConfigPath`.
unfoldable pub home_config : (Bytes → Bytes) → Bytes
home_config env = elim (env (codes "HOME")) [
  | [] ↦ codes "/etc/salt-events/config.toml"
  | c ∷ home ↦ join (c ∷ home) config_rel_path
]

-- `ResolveConfigPath`; its second result is always true. `home_for` is the lookup of a user's home.
unfoldable pub resolve_config_path : Bytes → (Bytes → Bytes) → (Bytes → Option Bytes) → Bytes
unfolding home_config
resolve_config_path (c ∷ explicit) env home_for = c ∷ explicit
resolve_config_path [] env home_for = elim (env (codes "SUDO_USER")) [
  | [] ↦ home_config env
  | c ∷ user ↦ elim (home_for (c ∷ user)) [
    | none ↦ home_config env
    | some [] ↦ home_config env
    | some (h ∷ home) ↦ join (h ∷ home) config_rel_path
  ]
]
