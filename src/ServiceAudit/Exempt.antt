-- ===== src/ServiceAudit/Exempt.antt =====
-- What the rules may flag.
use pulse_frix.Prelude.{
  ◌≡◌, ◌∙◌, ◌⊎◌, inl, inr, ap, true, false, Option, some, List, [], ◌∷◌, Text, bytes, text_eq,
  nat_eq, arith, Option-cases, Bool-cases, All, All-append, both,
}
use pulse_frix.Dict
use pulse_frix.Store.Sorting.{insert, sort_slice}
use pulse_frix.ServiceAudit.{Floats, AgentResource, ServiceNode, is_essential}
use pulse_frix.ServiceAudit.Graph.{ServiceGraph}
use pulse_frix.ServiceAudit.Links.{new_service_graph}
use pulse_frix.ServiceAudit.Rules.{
  AuditFinding, stopped_finding, unrouted_finding, idle_finding, unreferenced_finding,
  duplicate_finding, orphan_finding,
}
use pulse_frix.ServiceAudit.Report.{
  collect, rule_unrouted, rule_duplicate_engines, rule_orphaned_storage, found, finding_less,
  build_service_audit, ServiceAuditResponse, respond,
}
use pulse_frix.ServiceAudit.Sound.{IsSound}
use pulse_frix.ServiceAudit.Sound.Whole.{
  Stands, nodes_in-some, new_service_graph-Succeeds, build_service_audit_is, response_of,
}

pub All-collect :
    {A : Type 0} (P : A → Type 0) (Q : AuditFinding → Type 0) (rule : A → Option AuditFinding)
    (xs : List A)
    → ((x : A) (f : AuditFinding) → P x → rule x ≡ some f → Q f)
    → All P xs
    → All Q (collect rule xs)
unfolding collect
All-collect P Q rule [] each all = tt
All-collect P Q rule (x ∷ xs) each (p, all) = elim (Option-cases (rule x)) [
  | inl e ↦ rw (collect, e) (All-collect P Q rule xs each all)
  | inr (f, e) ↦ rw (collect, e) (each x f p e, All-collect P Q rule xs each all)
]

any_All : {A : Type 0} (xs : List A) → All {0, 0} (λ (_ : A). Unit) xs
any_All [] = tt
any_All (x ∷ xs) = (tt, any_All xs)

pub All-insert :
    (Q : AuditFinding → Type 0) (f : AuditFinding) (fs : List AuditFinding)
    → Q f
    → All Q fs
    → All Q (insert finding_less f fs)
unfolding insert
All-insert Q f [] q all = (q, tt)
All-insert Q f (h ∷ fs) q (qh, all) = elim (Bool-cases (finding_less h f)) [
  | inl e ↦ rw (insert, e) (qh, All-insert Q f fs q all)
  | inr e ↦ rw (insert, e) (q, (qh, all))
]

pub All-sort_slice :
    (Q : AuditFinding → Type 0) (fs : List AuditFinding)
    → All Q fs
    → All Q (sort_slice finding_less fs)
unfolding sort_slice
All-sort_slice Q [] all = tt
All-sort_slice Q (f ∷ fs) (q, all) = All-insert Q f _ q (All-sort_slice Q fs all)

-- A finding of a rule is about the node, which is not essential.
abbrev Spares : ServiceNode → AuditFinding → Type 0
Spares n f = (f.subject ≡ n.id) × (f.subject_name ≡ n.name) × (n.essential ≡ false)

stopped-Spares :
    (fl : Floats) (n : ServiceNode) (f : AuditFinding) → stopped_finding fl n ≡ some f → Spares n f
unfolding stopped_finding
stopped-Spares fl n f e = (ground (arith, e), ground (arith, e), ground (arith, e))

unrouted-Spares :
    (fl : Floats) (n : ServiceNode) (f : AuditFinding) → unrouted_finding fl n ≡ some f → Spares n f
unfolding unrouted_finding
unrouted-Spares fl n f e = (ground (arith, e), ground (arith, e), ground (arith, e))

idle-Spares :
    (fl : Floats) (n : ServiceNode) (f : AuditFinding) → idle_finding fl n ≡ some f → Spares n f
unfolding idle_finding
idle-Spares fl n f e = (ground (arith, e), ground (arith, e), ground (arith, e))

unreferenced-Spares :
    (fl : Floats) (n : ServiceNode) (f : AuditFinding)
    → unreferenced_finding fl n ≡ some f
    → Spares n f
unfolding unreferenced_finding
unreferenced-Spares fl n f e = (ground (arith, e), ground (arith, e), ground (arith, e))

-- A finding of the audit is about a group of engines, about storage, or about a node of the graph
-- that is not essential and has no essential name.
abbrev pub IsFair : ServiceGraph → AuditFinding → Type 0
IsFair g f =
    (f.category ≡ bytes "duplicate")
    ⊎ (f.category ≡ bytes "orphaned")
    ⊎ ((n : ServiceNode) × (Dict.get g.nodes f.subject ≡ some n)
        × (f.subject_name ≡ n.name)
        × (n.essential ≡ false)
        × (is_essential f.subject_name ≡ false))

unmarked :
    (n : ServiceNode)
    → (is_essential n.name ≡ true → n.essential ≡ true)
    → n.essential ≡ false
    → is_essential n.name ≡ false
unmarked n mark spared = ground (arith, mark, spared)

Spares-IsFair :
    (g : ServiceGraph) (n : ServiceNode) (f : AuditFinding)
    → IsSound g
    → Stands g n
    → Spares n f
    → IsFair g f
Spares-IsFair g n f sound stands (subject, name, spared) =
    let (_, mark) = sound.marked n.id n stands in
    inr (
      inr (
        n,
        ap (Dict.get g.nodes) subject ∙ stands,
        name,
        spared,
        ap is_essential name ∙ unmarked n mark spared,
      ))

duplicate-IsFair :
    (fl : Floats) (g : ServiceGraph) (engine : Text) (group : List ServiceNode) (f : AuditFinding)
    → duplicate_finding fl engine group ≡ some f
    → IsFair g f
unfolding duplicate_finding
duplicate-IsFair fl g engine [] f e = absurd (ground (arith, e))
duplicate-IsFair fl g engine (n ∷ []) f e = absurd (ground (arith, e))
duplicate-IsFair fl g engine (n ∷ n' ∷ ns) f e = inl (ground (arith, e))

orphan-IsFair :
    (fl : Floats) (g : ServiceGraph) (r : AgentResource) (f : AuditFinding)
    → orphan_finding fl r ≡ some f
    → IsFair g f
unfolding orphan_finding
orphan-IsFair fl g r f e = inr (inl (ground (arith, e)))

module _ (fl : Floats) (g : ServiceGraph) (sound : IsSound g) (ns : List ServiceNode)
    (stand : All (Stands g) ns) where
  from_nodes :
      (rule : ServiceNode → Option AuditFinding)
      → ((n : ServiceNode) (f : AuditFinding) → rule n ≡ some f → Spares n f)
      → All (IsFair g) (collect rule ns)
  from_nodes rule spares =
      All-collect (Stands g) (IsFair g) rule ns
        (λ n f s e. Spares-IsFair g n f sound s (spares n f e)) stand

  unrouted-IsFair : All (IsFair g) (rule_unrouted fl g.saw_proxy ns)
  unfolding rule_unrouted
  unrouted-IsFair =
      both (All (IsFair g)) g.saw_proxy {x = collect (unrouted_finding fl) ns} {y = []}
        (λ _. from_nodes (unrouted_finding fl) (unrouted-Spares fl)) (λ _. tt)

  duplicates-IsFair : All (IsFair g) (rule_duplicate_engines fl ns)
  unfolding rule_duplicate_engines
  duplicates-IsFair =
      All-collect (λ _. Unit) (IsFair g) (λ (engine, group). duplicate_finding fl engine group) _
        (λ (engine, group) f _ e. duplicate-IsFair fl g engine group f e) (any_All _)

  orphaned-IsFair : (rs : List AgentResource) → All (IsFair g) (rule_orphaned_storage fl rs)
  unfolding rule_orphaned_storage
  orphaned-IsFair rs =
      All-collect (λ _. Unit) (IsFair g) (orphan_finding fl) _ (λ r f _ e. orphan-IsFair fl g r f e)
        (any_All _)

  found-IsFair : (rs : List AgentResource) → All (IsFair g) (found fl g.saw_proxy ns rs)
  unfolding found
  found-IsFair rs =
      let and_more = λ (fs gs : List AuditFinding). All-append (IsFair g) fs gs in
      and_more _ _
        (and_more _ _
          (and_more _ _
            (and_more _ _
              (and_more _ _ (from_nodes (stopped_finding fl) (stopped-Spares fl)) unrouted-IsFair)
              (from_nodes (idle_finding fl) (idle-Spares fl)))
            (from_nodes (unreferenced_finding fl) (unreferenced-Spares fl)))
          duplicates-IsFair)
        (orphaned-IsFair rs)

-- Whatever an agent reports: every finding of the audit but those about several engines of a kind
-- and about storage without containers is about a node of the graph, whose name it has, that is not
-- marked as essential and whose name is none of the essential ones.
pub build_service_audit-IsFair :
    (fl : Floats) (rs : List AgentResource)
    → (g : ServiceGraph) × (r : ServiceAuditResponse) × (new_service_graph fl rs ≡ some g)
      × (build_service_audit fl rs ≡ some r)
      × All (IsFair g) r.findings
unfolding respond
build_service_audit-IsFair fl rs =
    let (g, e, sound, _) = new_service_graph-Succeeds fl rs in
    let (ns, e', stand, _) = nodes_in-some g g.order sound sound.ordered in
    (
      g,
      response_of fl rs g ns,
      e,
      build_service_audit_is fl rs g ns e e',
      All-sort_slice (IsFair g) _ (found-IsFair fl g sound ns stand rs),
    )
