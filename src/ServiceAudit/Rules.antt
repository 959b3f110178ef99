-- ===== src/ServiceAudit/Rules.antt =====
-- service_audit_rules.go: the rules, and the ranking of what they find.
use pulse_frix.Prelude.{
  ◌*◌, ◌^◌, Bool, true, false, not, ◌&&◌, ◌||◌, Option, none, some, List, [], ◌∷◌, ◌++◌, Text,
  bytes, length, map, text_eq, nat_eq, ◌==◌, ltb, if◌then◌else◌,
}
use pulse_frix.Dict
use pulse_frix.Dict.{Dict}
use pulse_frix.Prelude.Int.{ℤ, pos, ltb_ℤ}
use pulse_frix.Store.Sorting.{text_ltb, sort_slice}
use pulse_frix.ServiceAudit.{
  Floats, Float, AgentResource, ServiceUsage, ServiceNode, add64, same_int, int_attr, int64_attr,
}

-- A sentence of evidence, by the values that are printed in it.
pub data Evidence : Type 0 where
  state_is image_is routed_here broken_route engine_is instances : Text → Evidence
  layer_holds traffic_is memory_is : ℤ → Evidence
  volumes_hold : ℤ → ℤ → Evidence
  listens_on public_on : List ℤ → Evidence
  cpu_was : Float → Evidence
  no_neighbour nothing_routes untied unknown_user no_container_left : Evidence

pub record AuditFinding : Type 0 where
  pub id : Text
  pub subject : Text
  pub subject_name : Text
  pub category : Text
  pub severity : Text
  pub confidence : Text
  pub reclaimable : ServiceUsage
  pub evidence : List Evidence

abbrev pub idle_traffic_bytes : ℤ
idle_traffic_bytes = pos (4 * 2 ^ 20)

abbrev pub resident_memory_floor : ℤ
resident_memory_floor = pos (32 * 2 ^ 20)

abbrev pub notable_disk_bytes : ℤ
notable_disk_bytes = pos (64 * 2 ^ 20)

-- `strings.Join(list, ", ")`
unfoldable pub join : List Text → Text
join [] = []
join (s ∷ []) = s
join (s ∷ t ∷ ss) = s ++ bytes ", " ++ join (t ∷ ss)

unfoldable pub when {ℓ} : {A : Type ℓ} → Bool → A → List A
when true x = x ∷ []
when false x = []

abbrev some_text : Text → Bool
some_text s = not (s == [])

unfoldable pub is_connected : ServiceNode → Bool
is_connected n = ltb 0 (length n.inbound_routes) || ltb 0 (length n.peers)

module _ (fl : Floats) where
  abbrev pub reclaims : Float → ℤ → ℤ → ServiceUsage
  reclaims cpu memory disk = record {
    cpu_percent = cpu;
    memory_bytes = memory;
    disk_bytes = disk;
    net_rx_bytes = pos 0;
    net_tx_bytes = pos 0;
  }

  abbrev pub all_of : ServiceNode → ServiceUsage
  all_of n = reclaims n.usage.cpu_percent n.usage.memory_bytes n.usage.disk_bytes

  unfoldable pub stopped_finding : ServiceNode → Option AuditFinding
  stopped_finding n =
      if not (n.kind == bytes "container") || n.essential
      then none
      else if n.status == bytes "running" || n.status == bytes "restarting" || n.status == []
      then none
      else some (record {
        id = bytes "stopped:" ++ n.id;
        subject = n.id;
        subject_name = n.name;
        category = bytes "stopped";
        severity = bytes "low";
        confidence = bytes "high";
        reclaimable = reclaims fl.zero_float (pos 0) n.usage.disk_bytes;
        evidence =
            (state_is n.status ∷ [])
            ++ when (ltb_ℤ (pos 0) n.usage.disk_bytes) (layer_holds n.usage.disk_bytes)
            ++ when (some_text n.image) (image_is n.image)
            ++ when (ltb 0 (length n.inbound_routes)) (broken_route (join n.inbound_routes));
      })

  unfoldable pub unrouted_finding : ServiceNode → Option AuditFinding
  unrouted_finding n =
      if n.essential || n.kind == bytes "proxy" || not (n.status == bytes "running")
      then none
      else if length n.ports == 0 || is_connected n
      then none
      else some (record {
        id = bytes "unrouted:" ++ n.id;
        subject = n.id;
        subject_name = n.name;
        category = bytes "unrouted";
        severity = bytes "medium";
        confidence = bytes "medium";
        reclaimable = all_of n;
        evidence =
            (listens_on n.ports ∷ no_neighbour ∷ [])
            ++ when (ltb 0 (length n.public_ports)) (public_on n.public_ports);
      })

  unfoldable pub idle_finding : ServiceNode → Option AuditFinding
  idle_finding n =
      let traffic = add64 n.usage.net_rx_bytes n.usage.net_tx_bytes in
      let alone = not (is_connected n) in
      if n.essential || n.kind == bytes "proxy" || not (n.status == bytes "running")
      then none
      else if ltb_ℤ n.usage.memory_bytes resident_memory_floor
      then none
      else if not (fl.is_idle_cpu n.usage.cpu_percent) || not (ltb_ℤ traffic idle_traffic_bytes)
      then none
      else some (record {
        id = bytes "idle:" ++ n.id;
        subject = n.id;
        subject_name = n.name;
        category = bytes "idle";
        severity = bytes "medium";
        confidence = if alone then bytes "medium" else bytes "low";
        reclaimable = all_of n;
        evidence =
            (cpu_was n.usage.cpu_percent ∷ traffic_is traffic ∷ memory_is n.usage.memory_bytes ∷ [])
            ++ (if alone
                then nothing_routes ∷ []
                else when (ltb 0 (length n.inbound_routes)) (routed_here (join n.inbound_routes)));
      })

  unfoldable pub unreferenced_finding : ServiceNode → Option AuditFinding
  unreferenced_finding n =
      if n.essential || n.engine == []
      then none
      else if not (n.kind == bytes "database") && not (n.kind == bytes "container")
      then none
      else if is_connected n
      then none
      else some (record {
        id = bytes "unreferenced-db:" ++ n.id;
        subject = n.id;
        subject_name = n.name;
        category = bytes "unreferenced";
        severity = bytes "info";
        confidence = bytes "low";
        reclaimable = reclaims fl.zero_float n.usage.memory_bytes n.usage.disk_bytes;
        evidence = engine_is n.engine ∷ untied ∷ [];
      })

  -- The groups of `ruleDuplicateEngines`, each in the order of the nodes.
  unfoldable pub by_engine : List ServiceNode → Dict (List ServiceNode) → Dict (List ServiceNode)
  by_engine [] m = m
  by_engine (n ∷ ns) m =
      let group : List ServiceNode = elim (Dict.get m n.engine) [ none ↦ [] | some g ↦ g ] in
      by_engine ns (
        if n.engine == [] || n.status == bytes "exited"
        then m
        else Dict.put m n.engine (group ++ n ∷ []))

  unfoldable pub total_of : (ServiceUsage → ℤ) → List ServiceNode → ℤ → ℤ
  total_of f [] acc = acc
  total_of f (n ∷ ns) acc = total_of f ns (add64 acc (f n.usage))

  unfoldable pub duplicate_finding : Text → List ServiceNode → Option AuditFinding
  duplicate_finding engine [] = none
  duplicate_finding engine (n ∷ []) = none
  duplicate_finding engine (n ∷ n' ∷ ns) =
      let group = n ∷ n' ∷ ns in
      let names = join (sort_slice text_ltb (map (λ m. m.name) group)) in
      some (record {
        id = bytes "duplicate:" ++ engine;
        subject = n.id;
        subject_name = names;
        category = bytes "duplicate";
        severity = if n.kind == bytes "proxy" then bytes "low" else bytes "info";
        confidence = bytes "medium";
        reclaimable =
            reclaims fl.zero_float (total_of (λ u. u.memory_bytes) group (pos 0))
              (total_of (λ u. u.disk_bytes) group (pos 0));
        evidence = instances names ∷ unknown_user ∷ [];
      })

  unfoldable pub orphan_finding : AgentResource → Option AuditFinding
  orphan_finding sg =
      let volumes = int_attr fl sg.attributes (bytes "volume_count") in
      let containers = int_attr fl sg.attributes (bytes "container_count") in
      let size = int64_attr fl sg.attributes (bytes "total_bytes") in
      if same_int volumes (pos 0) || ltb_ℤ (pos 0) containers || ltb_ℤ size notable_disk_bytes
      then none
      else some (record {
        id = bytes "orphan-storage:" ++ sg.name;
        subject = sg.id;
        subject_name = sg.name;
        category = bytes "orphaned";
        severity = bytes "low";
        confidence = bytes "medium";
        reclaimable = reclaims fl.zero_float (pos 0) size;
        evidence = volumes_hold volumes size ∷ no_container_left ∷ [];
      })
