-- ===== src/ServiceAudit/Sound/Whole.antt =====
-- The whole graph, and the report on it.
use pulse_frix.Prelude.{
  ◌+◌, ◌≡◌, ◌∙◌, refl, sym, ap, Bool, some, List, [], ◌∷◌, Text, bytes, text_eq, arith, All, length,
  map,
}
use pulse_frix.Dict
use pulse_frix.ServiceAudit.{Floats, AgentResource, ServiceNode, resources_of}
use pulse_frix.ServiceAudit.Graph.{
  ServiceGraph, empty_graph, add_container, add_host_service, add_database, add_proxy,
}
use pulse_frix.ServiceAudit.Links.{
  attach_port, link_vhost, group_containers, link_groups, link_containers, dedupe, relation_less,
  dedupe_relations, new_service_graph,
}
use pulse_frix.Store.Sorting.{insert, sort_slice}
use pulse_frix.ServiceAudit.Report.{
  nodes_in, findings, report, build_service_audit, ServiceAuditResponse, AuditTotals, add_totals,
  sort_lists, node_less, respond, found, finding_less,
}
use pulse_frix.ServiceAudit.Rules.{AuditFinding}
use pulse_frix.ServiceAudit.Sound.{
  Has, IsSound, Succeeds, and_then-Succeeds, each-Succeeds, rest-IsSound,
}
use pulse_frix.ServiceAudit.Sound.Steps.{
  add_container-Succeeds, add_host_service-Succeeds, add_database-Succeeds, add_proxy-Succeeds,
}
use pulse_frix.ServiceAudit.Sound.Linking.{
  attach_storage-Succeeds, attach_port-Succeeds, link_vhost-Succeeds, group_containers-Keeps,
  link_groups-Keeps, Keeps, Keeps-trans,
}

empty_graph-IsSound : IsSound empty_graph
unfolding Dict.get
empty_graph-IsSound = record {
  marked = λ id n e. cc e;
  ordered = tt;
  named = λ k id e. cc e;
  bound = λ k id e. cc e;
  contained = λ k id e. cc e;
}

link_containers-Keeps :
    (rs : List AgentResource) (g : ServiceGraph) → IsSound g → Keeps g (link_containers rs g)
unfolding link_containers
link_containers-Keeps rs g sound =
    let cs = resources_of rs (bytes "docker_container" ∷ []) in
    let s = group_containers cs ([], ([], g)) in
    let kept = group_containers-Keeps cs [] [] g sound in
    let linked = link_groups (bytes "docker_network") (bytes "shares network ") s.0 s.1.1 in
    let kept' =
      link_groups-Keeps (bytes "docker_network") (bytes "shares network ") s.0 s.1.1 kept.0 in
    let kept'' =
      link_groups-Keeps (bytes "compose") (bytes "compose project ") s.1.0 linked kept'.0 in
    Keeps-trans g s.1.1 _ kept (Keeps-trans s.1.1 linked _ kept' kept'')

finish-Succeeds :
    (rs : List AgentResource) (g : ServiceGraph)
    → IsSound g
    → Succeeds g (some (dedupe_relations (link_containers rs g)))
unfolding dedupe_relations
finish-Succeeds rs g sound =
    let h = link_containers rs g in
    let (sound', grows) = link_containers-Keeps rs g sound in
    (
      _,
      refl,
      rest-IsSound h (sort_slice relation_less (dedupe [] h.relations)) h.saw_proxy h.saw_storage
          h.unattributed_ports sound',
      grows,
    )

-- The construction of the graph follows no nil pointer, and its result keeps the invariant.
pub new_service_graph-Succeeds :
    (fl : Floats) (rs : List AgentResource) → Succeeds empty_graph (new_service_graph fl rs)
unfolding new_service_graph
new_service_graph-Succeeds fl rs =
    let g = empty_graph in
    let c =
      each-Succeeds (add_container fl) _ g (λ x h s _. add_container-Succeeds fl x h s)
        empty_graph-IsSound in
    let u = and_then-Succeeds g _ _ c (λ h s _.
      each-Succeeds (add_host_service fl) _ h (λ x k t _. add_host_service-Succeeds fl x k t) s) in
    let d = and_then-Succeeds g _ _ u (λ h s _.
      each-Succeeds (add_database fl) _ h (λ x k t _. add_database-Succeeds fl x k t) s) in
    let p =
      and_then-Succeeds g _ _ d
        (λ h s _. each-Succeeds (add_proxy fl) _ h (λ x k t _. add_proxy-Succeeds fl x k t) s) in
    let a = and_then-Succeeds g _ _ p (λ h s _. attach_storage-Succeeds fl rs h s) in
    let l =
      and_then-Succeeds g _ _ a
        (λ h s _. each-Succeeds attach_port _ h (λ x k t _. attach_port-Succeeds x k t) s) in
    let v =
      and_then-Succeeds g _ _ l
        (λ h s _. each-Succeeds link_vhost _ h (λ x k t _. link_vhost-Succeeds x k t) s) in
    and_then-Succeeds g _ _ v (λ h s _. finish-Succeeds rs h s)

-- A node of the graph, under its identifier.
abbrev pub Stands : ServiceGraph → ServiceNode → Type 0
Stands g n = Dict.get g.nodes n.id ≡ some n

pub nodes_in-some :
    (g : ServiceGraph) (ids : List Text)
    → IsSound g
    → All (Has g.nodes) ids
    → (ns : List ServiceNode) × (nodes_in g ids ≡ some ns)
      × All (Stands g) ns
      × (length ns ≡ length ids)
unfolding nodes_in
nodes_in-some g [] sound all = ([], refl, tt, refl)
nodes_in-some g (id ∷ ids) sound ((n, e), all) =
    let (ns, e', stand, same) = nodes_in-some g ids sound all in
    let (named, _) = sound.marked id n e in
    (n ∷ ns, rw (nodes_in, e, e') refl, (ap (Dict.get g.nodes) named ∙ e, stand), rw same refl)

add_totals-counts :
    (fs : List AuditFinding) (t : AuditTotals)
    → ((add_totals fs t).services ≡ t.services) × ((add_totals fs t).flagged ≡ t.flagged)
unfolding add_totals
add_totals-counts [] t = (refl, refl)
add_totals-counts (f ∷ fs) t = add_totals-counts fs _

length-insert :
    {A : Type 0} (less : A → A → Bool) (x : A) (xs : List A)
    → length (insert less x xs) ≡ 1 + length xs
unfolding insert
length-insert less x [] = refl
length-insert less x (y ∷ ys) = ground (arith, length-insert less x ys)

length-sort_slice :
    {A : Type 0} (less : A → A → Bool) (xs : List A) → length (sort_slice less xs) ≡ length xs
unfolding sort_slice
length-sort_slice less [] = refl
length-sort_slice less (x ∷ xs) =
    let first = length-insert less x (sort_slice less xs) in
    let rest = length-sort_slice less xs in omega (arith, first, rest)

length-map : {A B : Type 0} (f : A → B) (xs : List A) → length (map f xs) ≡ length xs
length-map f [] = refl
length-map f (x ∷ xs) = let rest = length-map f xs in omega (arith, rest)

-- The response for the nodes of a graph.
abbrev pub response_of :
    Floats → List AgentResource → ServiceGraph → List ServiceNode → ServiceAuditResponse
response_of fl rs g ns = respond g ns (sort_slice finding_less (found fl g.saw_proxy ns rs))

findings_are :
    (fl : Floats) (rs : List AgentResource) (g : ServiceGraph) (ns : List ServiceNode)
    → nodes_in g g.order ≡ some ns
    → findings fl g rs ≡ some (sort_slice finding_less (found fl g.saw_proxy ns rs))
unfolding findings
findings_are fl rs g ns e = rw (findings, e) refl

pub build_service_audit_is :
    (fl : Floats) (rs : List AgentResource) (g : ServiceGraph) (ns : List ServiceNode)
    → new_service_graph fl rs ≡ some g
    → nodes_in g g.order ≡ some ns
    → build_service_audit fl rs ≡ some (response_of fl rs g ns)
unfolding build_service_audit report
build_service_audit_is fl rs g ns e e' =
    rw (build_service_audit, e, report, e', findings_are fl rs g ns e') refl

respond-counts :
    (g : ServiceGraph) (ns : List ServiceNode) (fs : List AuditFinding)
    → length ns ≡ length g.order
    → let r = respond g ns fs in
      (r.totals.services ≡ length r.nodes) × (r.totals.flagged ≡ length r.findings)
unfolding respond
respond-counts g ns fs count =
    let (services, flagged) = add_totals-counts fs _ in
    (
      services
          ∙ sym (
              length-sort_slice node_less (map sort_lists ns) ∙ (length-map sort_lists ns ∙ count)),
      flagged,
    )

-- Whatever an agent reports, the audit of it follows no nil pointer and has a response, which counts
-- its services and its findings as they are.
pub build_service_audit-some :
    (fl : Floats) (rs : List AgentResource)
    → (r : ServiceAuditResponse) × (build_service_audit fl rs ≡ some r)
      × (r.totals.services ≡ length r.nodes)
      × (r.totals.flagged ≡ length r.findings)
build_service_audit-some fl rs =
    let (g, e, sound, _) = new_service_graph-Succeeds fl rs in
    let (ns, e', _, count) = nodes_in-some g g.order sound sound.ordered in
    let (services, flagged) = respond-counts g ns _ count in
    (response_of fl rs g ns, build_service_audit_is fl rs g ns e e', services, flagged)
