-- ===== src/ServiceAudit/Sound/Steps.antt =====
-- Each step of the construction follows no nil pointer and keeps the invariant.
use pulse_frix.Prelude.{
  ◌≡◌, refl, true, not, Option, some, [], Text, bytes, text_eq, ◌==◌, nat_eq, Option-cases, inl,
  inr, both,
}
use pulse_frix.Dict
use pulse_frix.Dict.{Dict}
use pulse_frix.Prelude.Int.{ℤ, pos, ltb_ℤ}
use pulse_frix.Duration.Decimal.{format_int}
use pulse_frix.ServiceAudit.{Floats, Port, AgentResource, ServiceNode, string_attr, trim_prefix}
use pulse_frix.ServiceAudit.Graph.{
  ServiceGraph, put_node, claim_port, add_container_port, add_container, add_host_service,
  add_database_port, add_database_node, add_database, add_proxy, container_node, host_node,
  database_node, proxy_node, set_engine, set_essential,
}
use pulse_frix.ServiceAudit.Sound.{
  Has, IsSound, Succeeds, Grows, Leads-put, and_then-Succeeds, each-Succeeds, update_node-Succeeds,
  put_node-IsSound, rest-IsSound, Respects,
}

pub kept_as_is : (g : ServiceGraph) → IsSound g → Succeeds g (some g)
kept_as_is g sound = (g, refl, sound, λ id has. has)

-- After a change that loses no node.
pub from-Succeeds :
    (g h : ServiceGraph) (r : Option ServiceGraph)
    → Grows g.nodes h.nodes
    → Succeeds h r
    → Succeeds g r
from-Succeeds g h r grows (h', e, sound, grows') =
    (h', e, sound, λ id has. grows' id (grows id has))

bind_port-IsSound :
    (p : ℤ) (id : Text) (g : ServiceGraph)
    → Has g.nodes id
    → IsSound g
    → IsSound (record g { by_port = Dict.put g.by_port (format_int p) id })
bind_port-IsSound p id g has sound = record {
  marked = sound.marked;
  ordered = sound.ordered;
  named = sound.named;
  bound = Leads-put g.nodes g.by_port (format_int p) id has sound.bound;
  contained = sound.contained;
}

bind_container-IsSound :
    (cid id : Text) (g : ServiceGraph)
    → Has g.nodes id
    → IsSound g
    → IsSound (record g { by_container = Dict.put g.by_container cid id })
bind_container-IsSound cid id g has sound = record {
  marked = sound.marked;
  ordered = sound.ordered;
  named = sound.named;
  bound = sound.bound;
  contained = Leads-put g.nodes g.by_container cid id has sound.contained;
}

pub claim_port-Succeeds :
    (p : ℤ) (id : Text) (g : ServiceGraph)
    → Has g.nodes id
    → IsSound g
    → Succeeds g (some (claim_port p id g))
unfolding claim_port
claim_port-Succeeds p id g has sound = elim (Option-cases (Dict.get g.by_port (format_int p))) [
  | inl e ↦ rw (e, claim_port) (_, refl, bind_port-IsSound p id g has sound, λ j h. h)
  | inr (taken, e) ↦ rw (e, claim_port) (kept_as_is g sound)
]

add_container_port-Succeeds :
    (id : Text) (port : Port) (g : ServiceGraph)
    → Has g.nodes id
    → IsSound g
    → Succeeds g (add_container_port id port g)
unfolding add_container_port
add_container_port-Succeeds id port g has sound =
    and_then-Succeeds g _ _
      (both (Succeeds g) (ltb_ℤ (pos 0) port.host)
        (λ _.
          and_then-Succeeds g _ _
            (update_node-Succeeds id _ g has (λ n. (refl, refl, λ e. e)) sound)
            (λ h s grows. (_, refl, bind_port-IsSound port.host id h (grows id has) s, λ j k. k)))
        (λ _. kept_as_is g sound))
      (λ h s grows.
        both (Succeeds h) (ltb_ℤ (pos 0) port.container)
          (λ _. update_node-Succeeds id _ h (grows id has) (λ n. (refl, refl, λ e. e)) s)
          (λ _. kept_as_is h s))

module _ (fl : Floats) where
  pub add_container-Succeeds :
      (c : AgentResource) (g : ServiceGraph) → IsSound g → Succeeds g (add_container fl c g)
  unfolding add_container
  add_container-Succeeds c g sound =
      let g1 = put_node (container_node fl c) g in
      let (sound1, grows1, has1) = put_node-IsSound (container_node fl c) g sound in
      from-Succeeds g g1 _ grows1 (
        and_then-Succeeds g1 _ _
          (each-Succeeds (add_container_port c.id) c.ports g1
            (λ port h s grows. add_container_port-Succeeds c.id port h (grows c.id has1) s) sound1)
          (λ h s grows. (
            _,
            refl,
            bind_container-IsSound (trim_prefix c.id (bytes "container:")) c.id h (grows c.id has1)
                s,
            λ j k. k,
          )))

  pub add_host_service-Succeeds :
      (u : AgentResource) (g : ServiceGraph) → IsSound g → Succeeds g (add_host_service fl u g)
  unfolding add_host_service
  add_host_service-Succeeds u g sound =
      let (sound1, grows1, _) = put_node-IsSound (host_node fl u) g sound in
      both (Succeeds g) (not (u.status == bytes "running")) (λ _. kept_as_is g sound)
        (λ _. (put_node (host_node fl u) g, refl, sound1, grows1))

  add_database_port-Succeeds :
      (id : Text) (port : Port) (g : ServiceGraph)
      → Has g.nodes id
      → IsSound g
      → Succeeds g (add_database_port fl id port g)
  unfolding add_database_port
  add_database_port-Succeeds id port g has sound =
      both (Succeeds g) (ltb_ℤ (pos 0) port.host)
        (λ _.
          and_then-Succeeds g _ _
            (update_node-Succeeds id _ g has (λ n. (refl, refl, λ e. e)) sound)
            (λ h s grows. claim_port-Succeeds port.host id h (grows id has) s))
        (λ _. kept_as_is g sound)

  add_database_node-Succeeds :
      (db : AgentResource) (g : ServiceGraph) → IsSound g → Succeeds g (add_database_node fl db g)
  unfolding add_database_node
  add_database_node-Succeeds db g sound =
      let (sound1, grows1, has1) = put_node-IsSound (database_node fl db) g sound in
      from-Succeeds g (put_node (database_node fl db) g) _ grows1 (
        each-Succeeds (add_database_port fl db.id) db.ports (put_node (database_node fl db) g)
          (λ port h s grows. add_database_port-Succeeds db.id port h (grows db.id has1) s) sound1)

  set_engine-Respects : (e : Text) → Respects (set_engine fl e)
  set_engine-Respects e n =
      both
        (λ (m : ServiceNode).
          (m.id ≡ n.id) × (m.name ≡ n.name) × (n.essential ≡ true → m.essential ≡ true))
        (n.engine == []) (λ _. (refl, refl, λ h. h)) (λ _. (refl, refl, λ h. h))

  pub add_database-Succeeds :
      (db : AgentResource) (g : ServiceGraph) → IsSound g → Succeeds g (add_database fl db g)
  unfolding add_database
  add_database-Succeeds db g sound =
      let cid = string_attr db.attributes (bytes "container_id") in
      both (Succeeds g) (cid == []) (λ _. add_database_node-Succeeds db g sound)
        (λ _. elim (Option-cases (Dict.get g.by_container cid)) [
          | inl e ↦ rw e (add_database_node-Succeeds db g sound)
          | inr (id, e) ↦ rw e (
              update_node-Succeeds id (set_engine fl (string_attr db.attributes (bytes "engine"))) g
                (sound.contained cid id e) (set_engine-Respects _) sound)
        ])

  pub add_proxy-Succeeds :
      (rp : AgentResource) (g : ServiceGraph) → IsSound g → Succeeds g (add_proxy fl rp g)
  unfolding add_proxy
  add_proxy-Succeeds rp g sound =
      let g0 = record g { saw_proxy = true } in
      let (sound1, grows1, has1) =
        put_node-IsSound (proxy_node fl rp) g0
          (rest-IsSound g g.relations true g.saw_storage g.unattributed_ports sound) in
      from-Succeeds g (put_node (proxy_node fl rp) g0) _ grows1 (
        update_node-Succeeds rp.id (set_essential fl) (put_node (proxy_node fl rp) g0) has1
          (λ n. (refl, refl, λ e. refl)) sound1)
