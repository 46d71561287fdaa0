-- ===== src/Stream/Hosts.antt =====
-- stream/service/host.go: which groups a host belongs to. Each method holds the lock throughout, so
-- it is one step on the map.
pub mod Relation
use vgo.Prelude.{Bytes, Bool, true, List, [], ◌∷◌, Option, none, some}
use vgo.Prelude.Dict.{Dict, lookup, insert, delete}

-- `hosts map[string]map[string]bool`.
abbrev pub Hosts : Type 0
Hosts = Dict (Dict Bool)

unfoldable pub add : (hostname gid : Bytes) → Hosts → Hosts
add hostname gid hosts = elim (lookup hostname hosts) [
  | some groups ↦ insert hostname (insert gid true groups) hosts
  | none ↦ insert hostname (insert gid true []) hosts
]

-- `none` is the nil map.
unfoldable pub get : (hostname : Bytes) → Hosts → Option (Dict Bool)
get hostname hosts = lookup hostname hosts

unfoldable pub dele_group_in_hosts : (hostname gid : Bytes) → Hosts → Hosts
dele_group_in_hosts hostname gid hosts = elim (lookup hostname hosts) [
  | some groups ↦ insert hostname (delete gid groups) hosts
  | none ↦ hosts
]

unfoldable pub del_host : (hostname : Bytes) → Hosts → Hosts
del_host hostname hosts = elim (lookup hostname hosts) [
  | some groups ↦ delete hostname hosts
  | none ↦ hosts
]

-- The calls that change the map, in the order in which they take the lock.
pub data Call : Type 0 where
  call_add : (hostname gid : Bytes) → Call
  call_dele : (hostname gid : Bytes) → Call
  call_del : (hostname : Bytes) → Call

unfoldable pub run : List Call → Hosts → Hosts
run [] hosts = hosts
run (call_add hostname gid ∷ calls) hosts = run calls (add hostname gid hosts)
run (call_dele hostname gid ∷ calls) hosts = run calls (dele_group_in_hosts hostname gid hosts)
run (call_del hostname ∷ calls) hosts = run calls (del_host hostname hosts)
