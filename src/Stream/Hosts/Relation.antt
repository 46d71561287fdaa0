-- ===== src/Stream/Hosts/Relation.antt =====
-- The hosts map of stream/service/host.go as a relation between hosts and groups.
use vgo.Prelude.{
  Bytes, equal, equal_iff, Bool, true, false, not, ◌&&◌, ◌||◌, ◌≡◌, refl, List, [], ◌∷◌, Option,
  none, some, arith, inl, inr, Option-cases, if◌then◌else◌, ◌∙◌, ap,
}
use vgo.Prelude.Dict.{Dict, lookup, insert, delete, lookup-insert, lookup-delete}
use vgo.Stream.Hosts.{
  Hosts, add, get, dele_group_in_hosts, del_host, Call, call_add, call_dele, call_del, run,
}

-- `groups[gid]`, where an absent key and a nil map read as false.
abbrev pub group_in : Bytes → Option (Dict Bool) → Bool
group_in gid none = false
group_in gid (some groups) = elim (lookup gid groups) [ none ↦ false | some b ↦ b ]

-- What a reader sees: `hosts.Get(hostname)[gid]`.
abbrev pub belongs : Hosts → (hostname gid : Bytes) → Bool
belongs hosts hostname gid = group_in gid (get hostname hosts)

-- The calls on a relation: link two names, unlink them, unlink a host from all its groups.
unfoldable pub related : List Call → (Bytes → Bytes → Bool) → Bytes → Bytes → Bool
related [] r = r
related (call_add h g ∷ calls) r =
    related calls (λ hostname gid. equal h hostname && equal g gid || r hostname gid)
related (call_dele h g ∷ calls) r =
    related calls (λ hostname gid. not (equal h hostname && equal g gid) && r hostname gid)
related (call_del h ∷ calls) r =
    related calls (λ hostname gid. not (equal h hostname) && r hostname gid)

lookup-one :
    (g gid : Bytes) → lookup gid (insert g true []) ≡ (if equal g gid then some true else none)
unfolding lookup
lookup-one g gid = lookup-insert g gid true []

belongs-add :
    (h g hostname gid : Bytes) (hosts : Hosts)
    → belongs (add h g hosts) hostname gid
      ≡ equal h hostname && equal g gid || belongs hosts hostname gid
unfolding add get
belongs-add h g hostname gid hosts = elim (Option-cases (lookup h hosts)) [
  | inl missing ↦ ground (
    arith,
    equal_iff h hostname,
    lookup-insert {V = Dict Bool} h hostname (insert g true []) hosts,
    lookup-one g gid,
  )
  | inr (groups, found) ↦ ground (
    arith,
    equal_iff h hostname,
    lookup-insert {V = Dict Bool} h hostname (insert g true groups) hosts,
    lookup-insert {V = Bool} g gid true groups,
  )
]

belongs-dele :
    (h g hostname gid : Bytes) (hosts : Hosts)
    → belongs (dele_group_in_hosts h g hosts) hostname gid
      ≡ not (equal h hostname && equal g gid) && belongs hosts hostname gid
unfolding dele_group_in_hosts get
belongs-dele h g hostname gid hosts = elim (Option-cases (lookup h hosts)) [
  | inl missing ↦ ground (arith, equal_iff h hostname)
  | inr (groups, found) ↦ ground (
    arith,
    equal_iff h hostname,
    lookup-insert {V = Dict Bool} h hostname (delete g groups) hosts,
    lookup-delete {V = Bool} g gid groups,
  )
]

belongs-del :
    (h hostname gid : Bytes) (hosts : Hosts)
    → belongs (del_host h hosts) hostname gid ≡ not (equal h hostname) && belongs hosts hostname gid
unfolding del_host get
belongs-del h hostname gid hosts =
    ground (arith, equal_iff h hostname, lookup-delete h hostname hosts)

-- After any sequence of Add, DeleGroupInHosts and DelHost, `hosts.Get(hostname)[gid]` is what the
-- relation between hosts and groups says that the same calls change by linking and unlinking.
pub run-related :
    (calls : List Call) (hosts : Hosts) (hostname gid : Bytes)
    → belongs (run calls hosts) hostname gid ≡ related calls (belongs hosts) hostname gid
unfolding run related
run-related [] hosts hostname gid = refl
run-related (call_add h g ∷ calls) hosts hostname gid =
    run-related calls (add h g hosts) hostname gid
    ∙ ap (λ r. related calls r hostname gid) (λ i h' g'. belongs-add h g h' g' hosts i)
run-related (call_dele h g ∷ calls) hosts hostname gid =
    run-related calls (dele_group_in_hosts h g hosts) hostname gid
    ∙ ap (λ r. related calls r hostname gid) (λ i h' g'. belongs-dele h g h' g' hosts i)
run-related (call_del h ∷ calls) hosts hostname gid =
    run-related calls (del_host h hosts) hostname gid
    ∙ ap (λ r. related calls r hostname gid) (λ i h' g'. belongs-del h h' g' hosts i)
