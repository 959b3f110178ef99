-- ===== src/ServiceAudit/Links.antt =====
-- handlers_service_audit.go: storage, sockets, proxy routes and container groups, and the whole graph.
use pulse_frix.Prelude.{
  ℕ, ◌+◌, Bool, true, not, ◌||◌, Option, none, some, List, [], ◌∷◌, ◌++◌, Text, bytes, length, any,
  text_eq, nat_eq, ◌==◌, ltb, if◌then◌else◌,
}
use pulse_frix.Dict
use pulse_frix.Dict.{Dict}
use pulse_frix.Prelude.Int.{ℤ}
use pulse_frix.Duration.{parse_int}
use pulse_frix.Duration.Decimal.{format_int}
use pulse_frix.Strings.{to_lower, trim_space}
use pulse_frix.Store.Sorting.{text_ltb, sort_slice}
use pulse_frix.ServiceAudit.{
  Floats, Port, AgentResource, ServiceNode, ServiceRelation, Value, string_attr, int64_attr,
  to_string_slice, resources_of, append_unique, append_unique_int, trim_prefix, trim_suffix,
}
use pulse_frix.ServiceAudit.Graph.{
  ServiceGraph, empty_graph, and_then, each, update_node, relate, claim_port, add_container,
  add_host_service, add_database, add_proxy,
}

abbrev pub set_disk : ℤ → ServiceNode → ServiceNode
set_disk b n = record n { usage = record n.usage { disk_bytes = b } }

unfoldable pub attach_one_storage : Floats → AgentResource → ServiceGraph → Option ServiceGraph
attach_one_storage fl cs g =
    let g' = record g { saw_storage = true } in
    elim (Dict.get g.by_name (to_lower cs.name)) [
      | none ↦ some g'
      | some id ↦
          update_node id (set_disk (int64_attr fl cs.attributes (bytes "writable_bytes"))) g'
    ]

unfoldable pub attach_storage : Floats → List AgentResource → ServiceGraph → Option ServiceGraph
attach_storage fl rs g =
    and_then (each (attach_one_storage fl) (resources_of rs (bytes "container_storage" ∷ [])) g)
      (λ h.
        if ltb 0 (length (resources_of rs (bytes "docker_storage" ∷ [])))
        then some (record h { saw_storage = true })
        else some h)

-- `m[k]` of a map of texts: empty at a missing key.
abbrev pub lookup : Dict Text → Text → Text
lookup m k = elim (Dict.get m k) [ none ↦ [] | some v ↦ v ]

-- The first of three attributes that names a node.
unfoldable pub port_owner : ServiceGraph → Dict Value → Text
port_owner g attrs =
    let cid = string_attr attrs (bytes "container_id") in
    let unit = string_attr attrs (bytes "unit") in
    let proc = string_attr attrs (bytes "process") in
    let by_cid = if cid == [] then [] else lookup g.by_container cid in
    let by_unit = if unit == [] then [] else lookup g.by_name (to_lower unit) in
    let by_proc = if proc == [] then [] else lookup g.by_name (to_lower proc) in
    if not (by_cid == []) then by_cid else if not (by_unit == []) then by_unit else by_proc

abbrev pub add_socket : ℤ → Bool → ServiceNode → ServiceNode
add_socket p public n = record n {
  ports = append_unique_int n.ports p;
  public_ports = if public then append_unique_int n.public_ports p else n.public_ports;
}

-- A socket belongs to the first of its ports.
unfoldable pub attach_first : AgentResource → List Port → ServiceGraph → Option ServiceGraph
attach_first lp [] g = some g
attach_first lp (port ∷ _) g =
    let id = port_owner g lp.attributes in
    let public = string_attr lp.attributes (bytes "exposure") == bytes "public" in
    if id == []
    then if string_attr lp.attributes (bytes "process") == []
      then some (record g { unattributed_ports = g.unattributed_ports + 1 })
      else some g
    else and_then (update_node id (add_socket port.host public) g)
        (λ h. some (claim_port port.host id h))

unfoldable pub attach_port : AgentResource → ServiceGraph → Option ServiceGraph
attach_port lp g = attach_first lp lp.ports g

-- The text before the first byte `c`, and the text after it if there is one (`strings.Cut`).
unfoldable pub cut : ℕ → Text → Text × Option Text
cut c [] = ([], none)
cut c (d ∷ s) =
    let (before, after) = cut c s in if d == c then ([], some s) else (d ∷ before, after)

unfoldable pub resolve_port : ServiceGraph → Option Text → Text
resolve_port g none = []
resolve_port g (some port) = elim (parse_int port) [
  | none ↦ []
  | some p ↦ lookup g.by_port (format_int p)
]

unfoldable pub resolve_named : ServiceGraph → Text → Option Text → Text
resolve_named g host port = elim (Dict.get g.by_name (to_lower host)) [
  | none ↦ resolve_port g port
  | some id ↦ id
]

unfoldable pub resolve_upstream : ServiceGraph → Text → Text
resolve_upstream g upstream =
    let u = trim_prefix (trim_prefix (trim_space upstream) (bytes "http://")) (bytes "https://") in
    let (host, port) = cut b':' (cut b'/' u).0 in
    let named = not (
      host == []
      || host == bytes "127.0.0.1"
      || host == bytes "localhost"
      || host == bytes "0.0.0.0") in
    if named then resolve_named g host port else resolve_port g port

-- An arrow between spaces, in UTF-8.
abbrev pub arrow : Text
arrow = 32 ∷ 226 ∷ 134 ∷ 146 ∷ 32 ∷ []

abbrev pub add_route : Text → ServiceNode → ServiceNode
add_route name n = record n { inbound_routes = append_unique n.inbound_routes name }

unfoldable pub link_upstream : AgentResource → Text → ServiceGraph → Option ServiceGraph
link_upstream vh up g =
    let target = resolve_upstream g up in
    let attr = string_attr vh.attributes (bytes "engine") in
    let engine = if attr == [] then trim_suffix vh.type (bytes "_vhost") else attr in
    if target == []
    then some g
    else and_then (update_node target (add_route vh.name) g) (λ h.
      elim (Dict.get h.nodes (bytes "reverse_proxy:" ++ engine)) [
        | none ↦ some h
        | some proxy ↦
            some (relate proxy.id target (bytes "proxy_route") (vh.name ++ arrow ++ up) h)
      ])

unfoldable pub link_vhost : AgentResource → ServiceGraph → Option ServiceGraph
link_vhost vh g =
    each (link_upstream vh) (to_string_slice (Dict.get vh.attributes (bytes "upstreams")))
      (record g { saw_proxy = true })

abbrev pub Groups : Type 0
Groups = Dict (List Text)

unfoldable pub add_member : Text → Text → Groups → Groups
add_member id group m = elim (Dict.get m group) [
  | none ↦ Dict.put m group (id ∷ [])
  | some ids ↦ Dict.put m group (ids ++ id ∷ [])
]

unfoldable pub add_networks : Text → List Text → Groups → Groups
add_networks id [] m = m
add_networks id (net ∷ nets) m =
    let default = net == bytes "bridge" || net == bytes "host" || net == bytes "none" in
    add_networks id nets (if default then m else add_member id net m)

unfoldable pub link_depends : Text → List Text → ServiceGraph → ServiceGraph
link_depends id [] g = g
link_depends id (dep ∷ deps) g = link_depends id deps (elim (Dict.get g.by_name (to_lower dep)) [
  | none ↦ g
  | some target ↦ relate id target (bytes "depends_on") (bytes "compose depends_on") g
])

-- The first loop of `linkContainers`.
unfoldable pub group_containers :
    List AgentResource → Groups × (Groups × ServiceGraph) → Groups × (Groups × ServiceGraph)
group_containers [] s = s
group_containers (c ∷ cs) (by_network, (by_project, g)) =
    let proj = string_attr c.attributes (bytes "compose_project") in
    group_containers cs (
      add_networks c.id c.networks by_network,
      (
        if proj == [] then by_project else add_member c.id proj by_project,
        link_depends c.id c.depends_on g,
      ),
    )

unfoldable pub relate_all : Text → List Text → Text → Text → ServiceGraph → ServiceGraph
relate_all id [] kind detail g = g
relate_all id (j ∷ js) kind detail g = relate_all id js kind detail (relate id j kind detail g)

unfoldable pub relate_pairs : List Text → Text → Text → ServiceGraph → ServiceGraph
relate_pairs [] kind detail g = g
relate_pairs (i ∷ is) kind detail g = relate_pairs is kind detail (relate_all i is kind detail g)

abbrev pub max_group : ℕ
max_group = 24

unfoldable pub link_all : List Text → Text → Text → ServiceGraph → ServiceGraph
link_all ids kind detail g =
    let linked = relate_pairs ids kind detail g in
    if ltb (length ids) 2 || ltb max_group (length ids) then g else linked

-- A walk over the groups, which come in the order in which the report first has them; Go's order is any.
unfoldable pub link_groups : Text → Text → Groups → ServiceGraph → ServiceGraph
link_groups kind prefix [] g = g
link_groups kind prefix ((group, ids) ∷ m) g =
    link_groups kind prefix m (link_all ids kind (prefix ++ group) g)

unfoldable pub link_containers : List AgentResource → ServiceGraph → ServiceGraph
link_containers rs g =
    let (by_network, (by_project, h)) =
      group_containers (resources_of rs (bytes "docker_container" ∷ [])) ([], ([], g)) in
    link_groups (bytes "compose") (bytes "compose project ") by_project
      (link_groups (bytes "docker_network") (bytes "shares network ") by_network h)

abbrev pub relation_key : ServiceRelation → Text
relation_key r = r.from ++ bytes "|" ++ r.to ++ bytes "|" ++ r.kind

unfoldable pub dedupe : List Text → List ServiceRelation → List ServiceRelation
dedupe seen [] = []
dedupe seen (r ∷ rs) =
    let again = any (λ k. k == relation_key r) seen in
    let rest = dedupe (if again then seen else relation_key r ∷ seen) rs in
    if again then rest else r ∷ rest

abbrev pub relation_less : ServiceRelation → ServiceRelation → Bool
relation_less a b = if not (a.from == b.from) then text_ltb a.from b.from else text_ltb a.to b.to

unfoldable pub dedupe_relations : ServiceGraph → ServiceGraph
dedupe_relations g = record g { relations = sort_slice relation_less (dedupe [] g.relations) }

abbrev pub vhost_types : List Text
vhost_types =
    bytes "nginx_vhost"
    ∷ bytes "apache_vhost"
    ∷ bytes "caddy_site"
    ∷ bytes "traefik_router"
    ∷ bytes "haproxy_frontend"
    ∷ []

unfoldable pub new_service_graph : Floats → List AgentResource → Option ServiceGraph
new_service_graph fl rs =
    let g1 =
      each (add_container fl) (resources_of rs (bytes "docker_container" ∷ [])) empty_graph in
    let g2 = and_then g1 (
      each (add_host_service fl)
        (resources_of rs (bytes "systemd_unit" ∷ bytes "initd_service" ∷ []))) in
    let g3 = and_then g2 (each (add_database fl) (resources_of rs (bytes "database" ∷ []))) in
    let g4 = and_then g3 (each (add_proxy fl) (resources_of rs (bytes "reverse_proxy" ∷ []))) in
    let g5 = and_then g4 (attach_storage fl rs) in
    let g6 = and_then g5 (each attach_port (resources_of rs (bytes "listening_port" ∷ []))) in
    let g7 = and_then g6 (each link_vhost (resources_of rs vhost_types)) in
    and_then g7 (λ g. some (dedupe_relations (link_containers rs g)))
