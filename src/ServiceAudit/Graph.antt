-- ===== src/ServiceAudit/Graph.antt =====
-- handlers_service_audit.go: the construction of the graph. A pointer to a node is the node's
-- identifier, and what the code does through a pointer is a change of the node in the map. A port
-- number is a key of `by_port` in decimal. A walk over the networks or the projects goes in the
-- order in which they were first met, one of the orders of Go's map.
use pulse_frix.Prelude.{
  ℕ, Bool, true, false, not, ◌||◌, Option, none, some, List, [], ◌∷◌, ◌++◌, Text, bytes, text_eq,
  ◌==◌, if◌then◌else◌,
}
use pulse_frix.Dict
use pulse_frix.Dict.{Dict}
use pulse_frix.Prelude.Int.{ℤ, pos, ltb_ℤ}
use pulse_frix.Duration.Decimal.{format_int}
use pulse_frix.Strings.{to_lower}
use pulse_frix.ServiceAudit.{
  Floats, Port, AgentResource, ServiceUsage, ServiceNode, ServiceRelation, string_attr, float_attr,
  int64_attr, append_unique, append_unique_int, trim_prefix, is_essential,
}

pub record ServiceGraph : Type 0 where
  pub nodes : Dict ServiceNode
  pub order : List Text
  pub relations : List ServiceRelation
  pub by_name : Dict Text
  pub by_port : Dict Text
  pub by_container : Dict Text
  pub saw_proxy : Bool
  pub saw_storage : Bool
  pub unattributed_ports : ℕ

abbrev pub empty_graph : ServiceGraph
empty_graph = record {
  nodes = [];
  order = [];
  relations = [];
  by_name = [];
  by_port = [];
  by_container = [];
  saw_proxy = false;
  saw_storage = false;
  unattributed_ports = 0;
}

-- One step after another; a nil pointer ends the run.
unfoldable pub and_then :
    Option ServiceGraph → (ServiceGraph → Option ServiceGraph) → Option ServiceGraph
and_then none f = none
and_then (some g) f = f g

unfoldable pub each {ℓ} :
    {A : Type ℓ}
    → (A → ServiceGraph → Option ServiceGraph)
    → List A
    → ServiceGraph
    → Option ServiceGraph
each f [] g = some g
each f (x ∷ xs) g = elim (f x g) [ none ↦ none | some g' ↦ each f xs g' ]

-- A write through the pointer `g.nodes[id]`.
unfoldable pub update_node : Text → (ServiceNode → ServiceNode) → ServiceGraph → Option ServiceGraph
update_node id f g = elim (Dict.get g.nodes id) [
  | none ↦ none
  | some n ↦ some (record g { nodes = Dict.put g.nodes id (f n) })
]

-- `serviceGraph.put`; the pointer that it returns is to the node of that identifier.
unfoldable pub put_node : ServiceNode → ServiceGraph → ServiceGraph
put_node n g = elim (Dict.get g.nodes n.id) [
  | some _ ↦ g
  | none ↦ record g {
    nodes = Dict.put g.nodes n.id (record n { essential = n.essential || is_essential n.name });
    order = g.order ++ n.id ∷ [];
    by_name = Dict.put g.by_name (to_lower n.name) n.id;
  }
]

unfoldable pub add_peer : Text → Text → ServiceGraph → ServiceGraph
add_peer id peer g = elim (Dict.get g.nodes id) [
  | none ↦ g
  | some n ↦ record g {
    nodes = Dict.put g.nodes id (record n { peers = append_unique n.peers peer });
  }
]

unfoldable pub relate : Text → Text → Text → Text → ServiceGraph → ServiceGraph
relate from to kind detail g =
    let r : ServiceRelation = record { from = from; to = to; kind = kind; detail = detail } in
    if from == [] || to == [] || from == to
    then g
    else add_peer to from (add_peer from to (record g { relations = g.relations ++ r ∷ [] }))

abbrev pub add_port : ℤ → ServiceNode → ServiceNode
add_port p n = record n { ports = append_unique_int n.ports p }

abbrev pub bind_port : ℤ → Text → ServiceGraph → ServiceGraph
bind_port p id g = record g { by_port = Dict.put g.by_port (format_int p) id }

-- The port stays with the node that has it.
unfoldable pub claim_port : ℤ → Text → ServiceGraph → ServiceGraph
claim_port p id g = elim (Dict.get g.by_port (format_int p)) [
  | none ↦ bind_port p id g
  | some _ ↦ g
]

unfoldable pub add_container_port : Text → Port → ServiceGraph → Option ServiceGraph
add_container_port id port g =
    let g' : Option ServiceGraph =
      if ltb_ℤ (pos 0) port.host
      then and_then (update_node id (add_port port.host) g) (λ h. some (bind_port port.host id h))
      else some g in
    and_then g' (λ h.
      if ltb_ℤ (pos 0) port.container then update_node id (add_port port.container) h else some h)

-- A node without the fields that only later steps set.
abbrev pub blank : ServiceUsage → Text → Text → Text → Text → Text → Text → ServiceNode
blank usage id name kind placement status health = record {
  id = id;
  name = name;
  kind = kind;
  placement = placement;
  status = status;
  health = health;
  image = [];
  engine = [];
  project = [];
  ports = [];
  public_ports = [];
  usage = usage;
  inbound_routes = [];
  peers = [];
  essential = false;
}

module _ (fl : Floats) where
  abbrev pub no_usage : ServiceUsage
  no_usage = record {
    cpu_percent = fl.zero_float;
    memory_bytes = pos 0;
    disk_bytes = pos 0;
    net_rx_bytes = pos 0;
    net_tx_bytes = pos 0;
  }

  abbrev pub container_node : AgentResource → ServiceNode
  container_node c =
      record (blank
        (record {
          cpu_percent = float_attr fl c.attributes (bytes "cpu_percent");
          memory_bytes = int64_attr fl c.attributes (bytes "memory_bytes");
          disk_bytes = pos 0;
          net_rx_bytes = int64_attr fl c.attributes (bytes "net_rx_bytes");
          net_tx_bytes = int64_attr fl c.attributes (bytes "net_tx_bytes");
        })
        c.id c.name (bytes "container") (bytes "container") c.status c.health) {
          image = string_attr c.attributes (bytes "image");
          project = string_attr c.attributes (bytes "compose_project");
        }

  unfoldable pub add_container : AgentResource → ServiceGraph → Option ServiceGraph
  add_container c g =
      and_then (each (add_container_port c.id) c.ports (put_node (container_node c) g)) (λ h.
        some (record h {
          by_container = Dict.put h.by_container (trim_prefix c.id (bytes "container:")) c.id;
        }))

  abbrev pub host_node : AgentResource → ServiceNode
  host_node u = blank no_usage u.id u.name (bytes "service") (bytes "host") u.status u.health

  unfoldable pub add_host_service : AgentResource → ServiceGraph → Option ServiceGraph
  add_host_service u g =
      if not (u.status == bytes "running") then some g else some (put_node (host_node u) g)

  unfoldable pub add_database_port : Text → Port → ServiceGraph → Option ServiceGraph
  add_database_port id port g =
      if ltb_ℤ (pos 0) port.host
      then and_then (update_node id (add_port port.host) g) (λ h. some (claim_port port.host id h))
      else some g

  abbrev pub database_node : AgentResource → ServiceNode
  database_node db =
      record (blank no_usage db.id db.name (bytes "database") (bytes "host") db.status db.health) {
        engine = string_attr db.attributes (bytes "engine");
      }

  unfoldable pub add_database_node : AgentResource → ServiceGraph → Option ServiceGraph
  add_database_node db g = each (add_database_port db.id) db.ports (put_node (database_node db) g)

  abbrev pub set_engine : Text → ServiceNode → ServiceNode
  set_engine e n = if n.engine == [] then record n { engine = e } else n

  unfoldable pub add_database : AgentResource → ServiceGraph → Option ServiceGraph
  add_database db g =
      let cid = string_attr db.attributes (bytes "container_id") in
      if cid == [] then add_database_node db g else elim (Dict.get g.by_container cid) [
        | none ↦ add_database_node db g
        | some id ↦ update_node id (set_engine (string_attr db.attributes (bytes "engine"))) g
      ]

  abbrev pub set_essential : ServiceNode → ServiceNode
  set_essential n = record n { essential = true }

  abbrev pub proxy_node : AgentResource → ServiceNode
  proxy_node rp =
      record (blank no_usage rp.id rp.name (bytes "proxy") (bytes "host") [] rp.health) {
        engine = string_attr rp.attributes (bytes "engine");
      }

  unfoldable pub add_proxy : AgentResource → ServiceGraph → Option ServiceGraph
  add_proxy rp g =
      update_node rp.id set_essential (put_node (proxy_node rp) (record g { saw_proxy = true }))
