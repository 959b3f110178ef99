-- ===== src/ServiceAudit/Report.antt =====
-- The findings of all rules, ranked, and the response of handlers_service_audit.go.
use pulse_frix.Prelude.{
  ℕ, ◌+◌, Bool, not, Option, none, some, List, [], ◌∷◌, ◌++◌, Text, bytes, length, map, text_eq,
  nat_eq, ◌==◌, ltb, if◌then◌else◌,
}
use pulse_frix.Dict
use pulse_frix.Prelude.Int.{ℤ, pos, ltb_ℤ}
use pulse_frix.Store.Sorting.{text_ltb, sort_slice}
use pulse_frix.ServiceAudit.{
  Floats, AgentResource, ServiceNode, ServiceRelation, add64, same_int, resources_of,
}
use pulse_frix.ServiceAudit.Graph.{ServiceGraph}
use pulse_frix.ServiceAudit.Links.{new_service_graph}
use pulse_frix.ServiceAudit.Rules.{
  AuditFinding, stopped_finding, unrouted_finding, idle_finding, unreferenced_finding, by_engine,
  duplicate_finding, orphan_finding,
}

-- The findings of a rule that looks at one thing at a time.
unfoldable pub collect {ℓ} : {A : Type ℓ} → (A → Option AuditFinding) → List A → List AuditFinding
collect rule [] = []
collect rule (x ∷ xs) =
    let rest = collect rule xs in elim (rule x) [ none ↦ rest | some f ↦ f ∷ rest ]

-- The nodes in their order; `none` at a nil pointer.
unfoldable pub nodes_in : ServiceGraph → List Text → Option (List ServiceNode)
nodes_in g [] = some []
nodes_in g (id ∷ ids) =
    let rest = nodes_in g ids in
    elim (Dict.get g.nodes id) [
      | none ↦ none
      | some n ↦ elim rest [ none ↦ none | some ns ↦ some (n ∷ ns) ]
    ]

unfoldable pub severity_rank : Text → ℕ
severity_rank s = if s == bytes "medium" then 3 else if s == bytes "low" then 2 else 1

unfoldable pub weight : AuditFinding → ℤ
weight f = add64 f.reclaimable.disk_bytes f.reclaimable.memory_bytes

unfoldable pub finding_less : AuditFinding → AuditFinding → Bool
finding_less a b =
    if not (severity_rank a.severity == severity_rank b.severity)
    then ltb (severity_rank b.severity) (severity_rank a.severity)
    else if not (same_int (weight a) (weight b))
    then ltb_ℤ (weight b) (weight a)
    else text_ltb a.subject_name b.subject_name

unfoldable pub rule_unrouted : Floats → Bool → List ServiceNode → List AuditFinding
rule_unrouted fl saw_proxy ns = if saw_proxy then collect (unrouted_finding fl) ns else []

unfoldable pub rule_duplicate_engines : Floats → List ServiceNode → List AuditFinding
rule_duplicate_engines fl ns =
    collect (λ (engine, group). duplicate_finding fl engine group)
      (sort_slice (λ (e, _) (e', _). text_ltb e e') (by_engine fl ns []))

unfoldable pub rule_orphaned_storage : Floats → List AgentResource → List AuditFinding
rule_orphaned_storage fl rs =
    collect (orphan_finding fl) (resources_of rs (bytes "storage_group" ∷ []))

-- What the rules find, in the order in which they run.
unfoldable pub found : Floats → Bool → List ServiceNode → List AgentResource → List AuditFinding
found fl saw_proxy ns rs =
    collect (stopped_finding fl) ns
    ++ rule_unrouted fl saw_proxy ns
    ++ collect (idle_finding fl) ns
    ++ collect (unreferenced_finding fl) ns
    ++ rule_duplicate_engines fl ns
    ++ rule_orphaned_storage fl rs

unfoldable pub findings : Floats → ServiceGraph → List AgentResource → Option (List AuditFinding)
findings fl g rs = elim (nodes_in g g.order) [
  | none ↦ none
  | some ns ↦ some (sort_slice finding_less (found fl g.saw_proxy ns rs))
]

pub record AuditTotals : Type 0 where
  pub services : ℕ
  pub relations : ℕ
  pub flagged : ℕ
  pub reclaimable_memory : ℤ
  pub reclaimable_disk : ℤ
  pub unrouted_services : ℕ
  pub stopped_with_disk_used : ℕ

unfoldable pub add_totals : List AuditFinding → AuditTotals → AuditTotals
add_totals [] t = t
add_totals (f ∷ fs) t =
    let is_unrouted = f.category == bytes "unrouted" in
    let is_stopped = f.category == bytes "stopped" in
    add_totals fs (record t {
      reclaimable_memory = add64 t.reclaimable_memory f.reclaimable.memory_bytes;
      reclaimable_disk = add64 t.reclaimable_disk f.reclaimable.disk_bytes;
      unrouted_services = if is_unrouted then t.unrouted_services + 1 else t.unrouted_services;
      stopped_with_disk_used =
          if is_stopped then t.stopped_with_disk_used + 1 else t.stopped_with_disk_used;
    })

-- The sentences of `limitations` that depend on the snapshot; three more stand always.
pub data Limitation : Type 0 where
  no_proxy : Limitation
  unattributed : ℕ → Limitation
  no_storage : Limitation

unfoldable pub limitations : ServiceGraph → List Limitation
limitations g =
    (if g.saw_proxy then [] else no_proxy ∷ [])
    ++ (if ltb 0 g.unattributed_ports then unattributed g.unattributed_ports ∷ [] else [])
    ++ (if g.saw_storage then [] else no_storage ∷ [])

abbrev pub sort_lists : ServiceNode → ServiceNode
sort_lists n = record n {
  peers = sort_slice text_ltb n.peers;
  inbound_routes = sort_slice text_ltb n.inbound_routes;
}

abbrev pub node_less : ServiceNode → ServiceNode → Bool
node_less a b = if not (a.kind == b.kind) then text_ltb a.kind b.kind else text_ltb a.name b.name

pub record ServiceAuditResponse : Type 0 where
  pub nodes : List ServiceNode
  pub relations : List ServiceRelation
  pub findings : List AuditFinding
  pub totals : AuditTotals
  pub limitations : List Limitation

unfoldable pub respond : ServiceGraph → List ServiceNode → List AuditFinding → ServiceAuditResponse
respond g ns fs = record {
  nodes = sort_slice node_less (map sort_lists ns);
  relations = g.relations;
  findings = fs;
  totals = add_totals fs (record {
    services = length g.order;
    relations = length g.relations;
    flagged = length fs;
    reclaimable_memory = pos 0;
    reclaimable_disk = pos 0;
    unrouted_services = 0;
    stopped_with_disk_used = 0;
  });
  limitations = limitations g;
}

unfoldable pub report : Floats → List AgentResource → ServiceGraph → Option ServiceAuditResponse
report fl rs g = elim (nodes_in g g.order) [
  | none ↦ none
  | some ns ↦ elim (findings fl g rs) [ none ↦ none | some fs ↦ some (respond g ns fs) ]
]

-- `buildServiceAudit`, of the resources of a snapshot.
unfoldable pub build_service_audit : Floats → List AgentResource → Option ServiceAuditResponse
build_service_audit fl rs = elim (new_service_graph fl rs) [ none ↦ none | some g ↦ report fl rs g ]
