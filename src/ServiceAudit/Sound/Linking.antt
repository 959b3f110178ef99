-- ===== src/ServiceAudit/Sound/Linking.antt =====
-- Storage, sockets, routes and groups follow no nil pointer and keep the invariant.
use pulse_frix.Prelude.{
  ℕ, ◌+◌, ◌≡◌, ◌≢◌, refl, Bool, true, false, Option, none, some, List, [], ◌∷◌, ◌++◌, Text, bytes,
  text_eq, ◌==◌, nat_eq, arith, Option-cases, inl, inr, if◌then◌else◌, both, same_text_iff, ltb,
  length,
}
use pulse_frix.Dict
use pulse_frix.Dict.{Dict}
use pulse_frix.Duration.{parse_int}
use pulse_frix.Duration.Decimal.{format_int}
use pulse_frix.Strings.{to_lower, trim_space}
use pulse_frix.ServiceAudit.{
  Floats, Port, AgentResource, Value, string_attr, int64_attr, resources_of, trim_prefix,
}
use pulse_frix.ServiceAudit.Graph.{ServiceGraph, relate}
use pulse_frix.ServiceAudit.Links.{
  attach_one_storage, attach_storage, set_disk, lookup, port_owner, attach_port, attach_first, cut,
  resolve_port, resolve_named, resolve_upstream, add_route, arrow, link_upstream, link_vhost,
  Groups, link_depends, group_containers, relate_all, relate_pairs, link_all, link_groups,
}
use pulse_frix.ServiceAudit.Sound.{
  Has, IsSound, Succeeds, Grows, Leads, and_then-Succeeds, each-Succeeds, update_node-Succeeds,
  rest-IsSound, relate-IsSound,
}
use pulse_frix.ServiceAudit.Sound.Steps.{kept_as_is, claim_port-Succeeds}

flagged :
    (g : ServiceGraph) (proxy storage : Bool) (count : ℕ)
    → IsSound g
    → IsSound (record g { saw_proxy = proxy; saw_storage = storage; unattributed_ports = count })
flagged g proxy storage count sound = rest-IsSound g g.relations proxy storage count sound

attach_one_storage-Succeeds :
    (fl : Floats) (cs : AgentResource) (g : ServiceGraph)
    → IsSound g
    → Succeeds g (attach_one_storage fl cs g)
unfolding attach_one_storage
attach_one_storage-Succeeds fl cs g sound =
    let g' = record g { saw_storage = true } in
    let sound' = flagged g g.saw_proxy true g.unattributed_ports sound in
    elim (Option-cases (Dict.get g.by_name (to_lower cs.name))) [
      | inl e ↦ rw (e, attach_one_storage) (kept_as_is g' sound')
      | inr (id, e) ↦
          rw (e, attach_one_storage)
            (update_node-Succeeds id
              (set_disk (int64_attr fl cs.attributes (bytes "writable_bytes"))) g'
              (sound.named (to_lower cs.name) id e) (λ n. (refl, refl, λ h. h)) sound')
    ]

pub attach_storage-Succeeds :
    (fl : Floats) (rs : List AgentResource) (g : ServiceGraph)
    → IsSound g
    → Succeeds g (attach_storage fl rs g)
unfolding attach_storage
attach_storage-Succeeds fl rs g sound =
    and_then-Succeeds g _ _
      (each-Succeeds (attach_one_storage fl) _ g (λ cs h s _. attach_one_storage-Succeeds fl cs h s)
        sound)
      (λ h s _.
        both (Succeeds h) (ltb 0 (length (resources_of rs (bytes "docker_storage" ∷ []))))
          (λ _. (_, refl, flagged h h.saw_proxy true h.unattributed_ports s, λ j k. k))
          (λ _. kept_as_is h s))

-- A text that is looked up is empty, or names a node.
Names : ServiceGraph → Text → Type 0
Names g id = id ≢ [] → Has g.nodes id

lookup-Names :
    (g : ServiceGraph) (index : Dict Text) (k : Text)
    → Leads g.nodes index
    → Names g (lookup index k)
unfolding Names
lookup-Names g index k leads some_id = elim (Option-cases (Dict.get index k)) [
  | inl e ↦ absurd (some_id (rw (e, lookup) refl))
  | inr (id, e) ↦ rw (e, lookup) (leads k id e)
]

if-Names :
    (g : ServiceGraph) (b : Bool) (x y : Text)
    → Names g x
    → Names g y
    → Names g (if b then x else y)
if-Names g true x y nx ny = nx
if-Names g false x y nx ny = ny

nil-Names : (g : ServiceGraph) → Names g []
unfolding Names
nil-Names g some_id = absurd (some_id refl)

port_owner-Names :
    (g : ServiceGraph) (attrs : Dict Value) → IsSound g → Names g (port_owner g attrs)
unfolding port_owner
port_owner-Names g attrs sound =
    let cid = string_attr attrs (bytes "container_id") in
    let unit = string_attr attrs (bytes "unit") in
    let proc = string_attr attrs (bytes "process") in
    if-Names g _ _ _
      (if-Names g (cid == []) [] _ (nil-Names g)
        (lookup-Names g g.by_container cid sound.contained))
      (if-Names g _ _ _
        (if-Names g (unit == []) [] _ (nil-Names g)
          (lookup-Names g g.by_name (to_lower unit) sound.named))
        (if-Names g (proc == []) [] _ (nil-Names g)
          (lookup-Names g g.by_name (to_lower proc) sound.named)))

not_nil : (s : Text) → (s == []) ≡ false → s ≢ []
not_nil s h e = ground (arith, h, same_text_iff s [], e)

attach_first-Succeeds :
    (lp : AgentResource) (ports : List Port) (g : ServiceGraph)
    → IsSound g
    → Succeeds g (attach_first lp ports g)
unfolding attach_first Names
attach_first-Succeeds lp [] g sound = kept_as_is g sound
attach_first-Succeeds lp (port ∷ rest) g sound =
    let id = port_owner g lp.attributes in
    both (Succeeds g) (id == [])
      (λ _.
        both (Succeeds g) (string_attr lp.attributes (bytes "process") == [])
          (λ _. (
            _,
            refl,
            flagged g g.saw_proxy g.saw_storage (g.unattributed_ports + 1) sound,
            λ j k. k,
          ))
          (λ _. kept_as_is g sound))
      (λ owned.
        let has = port_owner-Names g lp.attributes sound (not_nil id owned) in
        and_then-Succeeds g _ _ (update_node-Succeeds id _ g has (λ n. (refl, refl, λ h. h)) sound)
          (λ h s grows. claim_port-Succeeds port.host id h (grows id has) s))

pub attach_port-Succeeds :
    (lp : AgentResource) (g : ServiceGraph) → IsSound g → Succeeds g (attach_port lp g)
unfolding attach_port
attach_port-Succeeds lp g sound = attach_first-Succeeds lp lp.ports g sound

resolve_port-Names :
    (g : ServiceGraph) (port : Option Text) → IsSound g → Names g (resolve_port g port)
unfolding resolve_port
resolve_port-Names g none sound = nil-Names g
resolve_port-Names g (some port) sound = elim (Option-cases (parse_int port)) [
  | inl e ↦ rw (e, resolve_port) (nil-Names g)
  | inr (p, e) ↦ rw (e, resolve_port) (lookup-Names g g.by_port (format_int p) sound.bound)
]

resolve_named-Names :
    (g : ServiceGraph) (host : Text) (port : Option Text)
    → IsSound g
    → Names g (resolve_named g host port)
unfolding resolve_named Names
resolve_named-Names g host port sound = elim (Option-cases (Dict.get g.by_name (to_lower host))) [
  | inl e ↦ rw (e, resolve_named) (resolve_port-Names g port sound)
  | inr (id, e) ↦ rw (e, resolve_named) (λ _. sound.named (to_lower host) id e)
]

resolve_upstream-Names :
    (g : ServiceGraph) (up : Text) → IsSound g → Names g (resolve_upstream g up)
unfolding resolve_upstream
resolve_upstream-Names g up sound =
    let u = trim_prefix (trim_prefix (trim_space up) (bytes "http://")) (bytes "https://") in
    let host = (cut b':' (cut b'/' u).0).0 in
    let port = (cut b':' (cut b'/' u).0).1 in
    if-Names g _ (resolve_named g host port) (resolve_port g port)
      (resolve_named-Names g host port sound) (resolve_port-Names g port sound)

-- The edge from a proxy, where there is one of the engine.
link_proxy-Succeeds :
    (vh : AgentResource) (up engine target : Text) (h : ServiceGraph)
    → IsSound h
    → Succeeds h (elim (Dict.get h.nodes (bytes "reverse_proxy:" ++ engine)) [
      | none ↦ some h
      | some proxy ↦ some (relate proxy.id target (bytes "proxy_route") (vh.name ++ arrow ++ up) h)
    ])
link_proxy-Succeeds vh up engine target h s =
    elim (Option-cases (Dict.get h.nodes (bytes "reverse_proxy:" ++ engine))) [
      | inl e ↦ rw e (kept_as_is h s)
      | inr (proxy, e) ↦
          let (s', grows) =
            relate-IsSound proxy.id target (bytes "proxy_route") (vh.name ++ arrow ++ up) h s in
          rw e (_, refl, s', grows)
    ]

link_upstream-Succeeds :
    (vh : AgentResource) (up : Text) (g : ServiceGraph)
    → IsSound g
    → Succeeds g (link_upstream vh up g)
unfolding link_upstream Names
link_upstream-Succeeds vh up g sound =
    let target = resolve_upstream g up in
    both (Succeeds g) (target == []) (λ _. kept_as_is g sound)
      (λ resolved.
        let has = resolve_upstream-Names g up sound (not_nil target resolved) in
        and_then-Succeeds g _ _
          (update_node-Succeeds target (add_route vh.name) g has (λ n. (refl, refl, λ h. h)) sound)
          (λ h s grows. link_proxy-Succeeds vh up _ target h s))

pub link_vhost-Succeeds :
    (vh : AgentResource) (g : ServiceGraph) → IsSound g → Succeeds g (link_vhost vh g)
unfolding link_vhost
link_vhost-Succeeds vh g sound =
    each-Succeeds (link_upstream vh) _ (record g { saw_proxy = true })
      (λ up h s _. link_upstream-Succeeds vh up h s)
      (flagged g true g.saw_storage g.unattributed_ports sound)

-- A change that follows no pointer keeps the invariant and loses no node.
abbrev pub Keeps : ServiceGraph → ServiceGraph → Type 0
Keeps g h = IsSound h × Grows g.nodes h.nodes

pub Keeps-trans : (g h k : ServiceGraph) → Keeps g h → Keeps h k → Keeps g k
Keeps-trans g h k (_, grows) (sound, grows') = (sound, λ id has. grows' id (grows id has))

link_depends-Keeps :
    (id : Text) (deps : List Text) (g : ServiceGraph) → IsSound g → Keeps g (link_depends id deps g)
unfolding link_depends
link_depends-Keeps id [] g sound = (sound, λ j h. h)
link_depends-Keeps id (dep ∷ deps) g sound =
    elim (Option-cases (Dict.get g.by_name (to_lower dep))) [
      | inl e ↦ rw (e, link_depends) (link_depends-Keeps id deps g sound)
      | inr (target, e) ↦
          let g' = relate id target (bytes "depends_on") (bytes "compose depends_on") g in
          let kept =
            relate-IsSound id target (bytes "depends_on") (bytes "compose depends_on") g sound in
          rw (e, link_depends) (Keeps-trans g g' _ kept (link_depends-Keeps id deps g' kept.0))
    ]

pub group_containers-Keeps :
    (cs : List AgentResource) (by_network by_project : Groups) (g : ServiceGraph)
    → IsSound g
    → Keeps g (group_containers cs (by_network, (by_project, g))).1.1
unfolding group_containers
group_containers-Keeps [] by_network by_project g sound = (sound, λ j h. h)
group_containers-Keeps (c ∷ cs) by_network by_project g sound =
    let kept = link_depends-Keeps c.id c.depends_on g sound in
    Keeps-trans g (link_depends c.id c.depends_on g) _ kept
      (group_containers-Keeps cs _ _ (link_depends c.id c.depends_on g) kept.0)

relate_all-Keeps :
    (id : Text) (js : List Text) (kind detail : Text) (g : ServiceGraph)
    → IsSound g
    → Keeps g (relate_all id js kind detail g)
unfolding relate_all
relate_all-Keeps id [] kind detail g sound = (sound, λ j h. h)
relate_all-Keeps id (j ∷ js) kind detail g sound =
    let kept = relate-IsSound id j kind detail g sound in
    Keeps-trans g (relate id j kind detail g) _ kept (relate_all-Keeps id js kind detail _ kept.0)

relate_pairs-Keeps :
    (ids : List Text) (kind detail : Text) (g : ServiceGraph)
    → IsSound g
    → Keeps g (relate_pairs ids kind detail g)
unfolding relate_pairs
relate_pairs-Keeps [] kind detail g sound = (sound, λ j h. h)
relate_pairs-Keeps (i ∷ is) kind detail g sound =
    let kept = relate_all-Keeps i is kind detail g sound in
    Keeps-trans g (relate_all i is kind detail g) _ kept
      (relate_pairs-Keeps is kind detail _ kept.0)

pub link_groups-Keeps :
    (kind prefix : Text) (m : Groups) (g : ServiceGraph)
    → IsSound g
    → Keeps g (link_groups kind prefix m g)
unfolding link_groups link_all
link_groups-Keeps kind prefix [] g sound = (sound, λ j h. h)
link_groups-Keeps kind prefix ((group, ids) ∷ m) g sound =
    let kept : Keeps g (link_all ids kind (prefix ++ group) g) =
      both (Keeps g) _ (λ _. (sound, λ j h. h))
        (λ _. relate_pairs-Keeps ids kind (prefix ++ group) g sound) in
    Keeps-trans g (link_all ids kind (prefix ++ group) g) _ kept
      (link_groups-Keeps kind prefix m _ kept.0)
