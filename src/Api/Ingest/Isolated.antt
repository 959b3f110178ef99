-- ===== src/Api/Ingest/Isolated.antt =====
-- Ingestion and tenants.
use pulse_frix.Prelude.{
  ℕ, ◌≡◌, ◌≢◌, ◌∙◌, refl, none, some, [], Text, bytes, text_eq, ◌==◌, arith, inl, inr, Bool-cases,
}
use pulse_frix.Dict
use pulse_frix.Dict.{HasUniqueKeys}
use pulse_frix.Dict.Scoped.{SameScope-trans, SameScope-refl}
use pulse_frix.Model.{Agent, healthy}
use pulse_frix.Store.{Memory}
use pulse_frix.Store.Servers.{ensure_server}
use pulse_frix.Store.Snapshots.{save_discovery, save_metrics, save_logs, append_metric_sample}
use pulse_frix.Store.Tenants.{
  Call, run_call, IsProper, SameTenant, saves_discovery, saves_logs, saves_metrics, appends_sample,
  ensures_server,
}
use pulse_frix.Store.Tenants.Keys.{HasNoSlash}
use pulse_frix.Store.Tenants.Isolation.{tenant_isolation}
use pulse_frix.Api.Ingest.{Decoder, IngestEnvelope, apply_envelope}

SameTenant-refl : (b : Text) (m : Memory) → SameTenant b m m
SameTenant-refl b m = record {
  servers = refl;
  server_rows = λ id. refl;
  users = λ id. refl;
  memberships = λ uid. refl;
  discovery = λ sid. refl;
  logs = λ sid. refl;
  metrics = λ sid. refl;
  history = λ sid. refl;
  alerts = refl;
  instances = refl;
  agents = SameScope-refl (λ a. a.org_id == b) m.agents;
  agent_ids = λ aid. refl;
  enrollments = SameScope-refl (λ t. t.org_id == b) m.enrollments;
  events = λ n. refl;
  audit = λ n. refl;
}

SameTenant-trans :
    (b : Text) (m m' m'' : Memory) → SameTenant b m m' → SameTenant b m' m'' → SameTenant b m m''
SameTenant-trans b m m' m'' x y = record {
  servers = y.servers ∙ x.servers;
  server_rows = λ id. y.server_rows id ∙ x.server_rows id;
  users = λ id. y.users id ∙ x.users id;
  memberships = λ uid. y.memberships uid ∙ x.memberships uid;
  discovery = λ sid. y.discovery sid ∙ x.discovery sid;
  logs = λ sid. y.logs sid ∙ x.logs sid;
  metrics = λ sid. y.metrics sid ∙ x.metrics sid;
  history = λ sid. y.history sid ∙ x.history sid;
  alerts = y.alerts ∙ x.alerts;
  instances = y.instances ∙ x.instances;
  agents = SameScope-trans (λ a. a.org_id == b) x.agents y.agents;
  agent_ids = λ aid. y.agent_ids aid ∙ x.agent_ids aid;
  enrollments = SameScope-trans (λ t. t.org_id == b) x.enrollments y.enrollments;
  events = λ n. y.events n ∙ x.events n;
  audit = λ n. y.audit n ∙ x.audit n;
}

module _ (b : Text) (a : Agent) (row : Text) (ha : HasNoSlash a.org_id) (hb : HasNoSlash b)
    (ne : a.org_id ≢ b) where
  -- The message refreshes the row of its server.
  seen_isolated :
      (m : Memory) (hostname : Text) (now : ℕ)
      → Dict.get m.servers row ≡ none
      → HasUniqueKeys m.servers
      → HasUniqueKeys m.alerts
      → SameTenant b m (ensure_server m a.org_id a.server_id hostname now healthy row).1
  unfolding run_call
  seen_isolated m hostname now new us ua =
      tenant_isolation m a.org_id b (ensures_server a.server_id hostname now healthy row) ha hb ne
        (λ v found. absurd (ground (arith, new, found))) us ua

  -- So it is after a write that keeps to the organization of the agent.
  then_seen :
      (m m1 m' : Memory) (hostname : Text) (now : ℕ)
      → SameTenant b m m1
      → Dict.get m1.servers row ≡ none
      → HasUniqueKeys m1.servers
      → HasUniqueKeys m1.alerts
      → some (ensure_server m1 a.org_id a.server_id hostname now healthy row).1 ≡ some m'
      → SameTenant b m m'
  then_seen m m1 m' hostname now same new us ua e =
      let e' : (ensure_server m1 a.org_id a.server_id hostname now healthy row).1 ≡ m' = cc in
      rw⁻¹ e' (SameTenant-trans b m m1 _ same (seen_isolated m1 hostname now new us ua))

  module _ (dec : Decoder) (m m' : Memory) (env : IngestEnvelope) (now : ℕ)
      (new : Dict.get m.servers row ≡ none) (us : HasUniqueKeys m.servers)
      (ua : HasUniqueKeys m.alerts) where
    call_isolated : (c : Call) → IsProper a.org_id c m → SameTenant b m (run_call a.org_id c m)
    call_isolated c p = tenant_isolation m a.org_id b c ha hb ne p us ua

    metrics_isolated :
        SameTenant b m
          (append_metric_sample
            (save_metrics m a.org_id a.server_id env.body).1
            a.org_id
            a.server_id
            now
            env.body).1
    unfolding run_call save_metrics
    metrics_isolated =
        SameTenant-trans b m _ _ (call_isolated (saves_metrics a.server_id env.body) tt) (
          tenant_isolation (save_metrics m a.org_id a.server_id env.body).1 a.org_id b
            (appends_sample a.server_id now env.body) ha hb ne tt us ua)

    touch_isolated :
        some (ensure_server m a.org_id a.server_id [] now healthy row).1 ≡ some m'
        → SameTenant b m m'
    touch_isolated e = then_seen m m m' [] now (SameTenant-refl b m) new us ua e

    pub apply_isolated : apply_envelope dec m a env now row ≡ some m' → SameTenant b m m'
    unfolding apply_envelope run_call save_discovery save_metrics save_logs append_metric_sample
    apply_isolated e = elim (Bool-cases (env.type == bytes "discovery")) [
      | inl t ↦
          then_seen m (save_discovery m a.org_id a.server_id env.body).1 m' (dec.hostname env.body)
            now (call_isolated (saves_discovery a.server_id env.body) tt) new us ua
            (ground (arith, t, e))
      | inr t1 ↦ elim (Bool-cases (env.type == bytes "metrics")) [
        | inl t ↦ then_seen m _ m' [] now metrics_isolated new us ua (ground (arith, t1, t, e))
        | inr t2 ↦ elim (Bool-cases (env.type == bytes "logs")) [
          | inl t ↦
              then_seen m (save_logs m a.org_id a.server_id env.body).1 m' [] now
                (call_isolated (saves_logs a.server_id env.body) tt) new us ua
                (ground (arith, t1, t2, t, e))
          | inr t3 ↦ touch_isolated (ground (arith, t1, t2, t3, e))
        ]
      ]
    ]

-- A message that is applied for an agent changes nothing that the store shows an organization other
-- than the agent's. The identifiers of both have no slash, the row that may be drawn is new, and the
-- maps of servers and of alert rules have one entry for each key.
pub ingest_isolated :
    (dec : Decoder) (m m' : Memory) (a : Agent) (env : IngestEnvelope) (now : ℕ) (row b : Text)
    → HasNoSlash a.org_id
    → HasNoSlash b
    → a.org_id ≢ b
    → Dict.get m.servers row ≡ none
    → HasUniqueKeys m.servers
    → HasUniqueKeys m.alerts
    → apply_envelope dec m a env now row ≡ some m'
    → SameTenant b m m'
ingest_isolated dec m m' a env now row b ha hb ne new us ua e =
    apply_isolated b a row ha hb ne dec m m' env now new us ua e
