-- ===== src/Store/Tenants/Tables.antt =====
-- The tables that an organization's views read, and states that differ in one table.
use mathlib.Core.List.{reverse-append}
use pulse_frix.Prelude.{
  ℕ, ◌≡◌, ◌≢◌, refl, ap, sym, ◌∙◌, false, List, none, some, Text, text_eq, ◌==◌, [], ◌∷◌, ◌++◌,
  arith,
}
use pulse_frix.Dict
use pulse_frix.Dict.{Dict, HasUniqueKeys}
use pulse_frix.Dict.Scoped.{SameScope, keep, SameScope-refl}
use pulse_frix.Model.{Server, Agent, Alert, AlertInstance, User, EnrollmentToken, Event, AuditEntry}
use pulse_frix.Store.{Memory, MetricSample, ok, err, not_found, key}
use pulse_frix.Store.Sorting.{sort_slice}
use pulse_frix.Store.Users.{get_user, get_membership}
use pulse_frix.Store.Users.Scope.{WritesAccounts}
use pulse_frix.Store.Servers.{list_servers, get_server}
use pulse_frix.Store.Snapshots.{get_discovery, get_logs, get_metrics, history}
use pulse_frix.Store.Alerts.{list_alerts, list_alert_instances}
use pulse_frix.Store.Journal.{list_events, list_audit}
use pulse_frix.Store.Journal.Newest.{journal_newest_first}
use pulse_frix.Store.Tenants.{SameTenant}
use pulse_frix.Store.Tenants.AgentIds.{by_aid, own_agent-by_aid}
use pulse_frix.Store.Tenants.Keys.{HasNoSlash, get-remove-key}

-- The tables that the views read.
pub record SameTables (org : Text) (m m' : Memory) : Type 0 where
  pub servers : SameScope (λ s. s.org_id == org) m.servers m'.servers
  pub users : (id : Text) → get_user m' org id ≡ get_user m org id
  pub memberships : m'.memberships ≡ m.memberships
  pub discovery :
      (sid : Text) → Dict.get m'.discovery (key org sid) ≡ Dict.get m.discovery (key org sid)
  pub logs : (sid : Text) → Dict.get m'.logs (key org sid) ≡ Dict.get m.logs (key org sid)
  pub metrics : (sid : Text) → Dict.get m'.metrics (key org sid) ≡ Dict.get m.metrics (key org sid)
  pub history :
      (sid : Text) → Dict.get m'.metric_hist (key org sid) ≡ Dict.get m.metric_hist (key org sid)
  pub alerts : SameScope (λ a. a.org_id == org) m.alerts m'.alerts
  pub instances : SameScope (λ i. i.org_id == org) m.instances m'.instances
  pub agents : SameScope (λ a. a.org_id == org) m.agents m'.agents
  pub agent_ids :
      (aid : Text)
      → by_aid org m'.agents m'.agent_by_aid aid ≡ by_aid org m.agents m.agent_by_aid aid
  pub enrollments : SameScope (λ t. t.org_id == org) m.enrollments m'.enrollments
  pub events : (limit : ℕ) → list_events m' org limit ≡ list_events m org limit
  pub audit : (limit : ℕ) → list_audit m' org limit ≡ list_audit m org limit

get_server-keep :
    (m : Memory) (org id : Text)
    → get_server m org id ≡ elim (keep (λ s. s.org_id == org) (Dict.get m.servers id)) [
      | none ↦ err not_found
      | some s ↦ ok s
    ]
unfolding get_server
get_server-keep m org id = ground arith

same_memberships :
    (m m' : Memory) (org uid : Text)
    → m'.memberships ≡ m.memberships
    → get_membership m' org uid ≡ get_membership m org uid
unfolding get_membership
same_memberships m m' org uid e = ground (arith, e)

pub SameTenant-of_tables : {org : Text} {m m' : Memory} → SameTables org m m' → SameTenant org m m'
unfolding list_servers get_discovery get_logs get_metrics history list_alerts list_alert_instances
SameTenant-of_tables {org} {m} {m'} t = record {
  servers = ap (sort_slice _) t.servers.listed;
  server_rows = λ id.
      ground (arith, get_server-keep m org id, get_server-keep m' org id, t.servers.looked_up id);
  users = t.users;
  memberships = λ uid. same_memberships m m' org uid t.memberships;
  discovery = λ sid. rw (t.discovery sid);
  logs = λ sid. rw (t.logs sid);
  metrics = λ sid. rw (t.metrics sid);
  history = λ sid. rw (t.history sid, history);
  alerts = ap (sort_slice _) t.alerts.listed;
  instances = ap (sort_slice _) t.instances.listed;
  agents = t.agents;
  agent_ids =
      λ aid. own_agent-by_aid m' org aid ∙ (t.agent_ids aid ∙ sym (own_agent-by_aid m org aid));
  enrollments = t.enrollments;
  events = t.events;
  audit = t.audit;
}

module _ (org : Text) (m : Memory) where
  pub unchanged :
      SameScope (λ s. s.org_id == org) m.servers m.servers
      × SameScope (λ a. a.org_id == org) m.alerts m.alerts
      × SameScope (λ i. i.org_id == org) m.instances m.instances
      × SameScope (λ a. a.org_id == org) m.agents m.agents
      × SameScope (λ t. t.org_id == org) m.enrollments m.enrollments
  unchanged = (
    SameScope-refl _ m.servers,
    SameScope-refl _ m.alerts,
    SameScope-refl _ m.instances,
    SameScope-refl _ m.agents,
    SameScope-refl _ m.enrollments,
  )

  pub with_servers :
      (d : Dict Server)
      → SameScope (λ s. s.org_id == org) m.servers d
      → SameTables org m (record m { servers = d })
  unfolding get_user list_events list_audit
  with_servers d h = ground (arith, unchanged)

  pub with_alerts :
      (d : Dict Alert)
      → SameScope (λ a. a.org_id == org) m.alerts d
      → SameTables org m (record m { alerts = d })
  unfolding get_user list_events list_audit
  with_alerts d h = ground (arith, unchanged)

  pub with_instances :
      (d : Dict AlertInstance)
      → SameScope (λ i. i.org_id == org) m.instances d
      → SameTables org m (record m { instances = d })
  unfolding get_user list_events list_audit
  with_instances d h = ground (arith, unchanged)

  pub with_discovery :
      (d : Dict Text)
      → ((sid : Text) → Dict.get d (key org sid) ≡ Dict.get m.discovery (key org sid))
      → SameTables org m (record m { discovery = d })
  unfolding get_user list_events list_audit
  with_discovery d h = ground (arith, unchanged)

  pub with_logs :
      (d : Dict Text)
      → ((sid : Text) → Dict.get d (key org sid) ≡ Dict.get m.logs (key org sid))
      → SameTables org m (record m { logs = d })
  unfolding get_user list_events list_audit
  with_logs d h = ground (arith, unchanged)

  pub with_metrics :
      (d : Dict Text)
      → ((sid : Text) → Dict.get d (key org sid) ≡ Dict.get m.metrics (key org sid))
      → SameTables org m (record m { metrics = d })
  unfolding get_user list_events list_audit
  with_metrics d h = ground (arith, unchanged)

  pub with_history :
      (d : Dict (List MetricSample))
      → ((sid : Text) → Dict.get d (key org sid) ≡ Dict.get m.metric_hist (key org sid))
      → SameTables org m (record m { metric_hist = d })
  unfolding get_user list_events list_audit
  with_history d h = ground (arith, unchanged)

  pub with_enrollments :
      (d : Dict EnrollmentToken)
      → SameScope (λ t. t.org_id == org) m.enrollments d
      → SameTables org m (record m { enrollments = d })
  unfolding get_user list_events list_audit
  with_enrollments d h = ground (arith, unchanged)

  pub with_agents :
      (d : Dict Agent) (i : Dict Text)
      → SameScope (λ a. a.org_id == org) m.agents d
      → ((aid : Text) → by_aid org d i aid ≡ by_aid org m.agents m.agent_by_aid aid)
      → SameTables org m (record m { agents = d; agent_by_aid = i })
  unfolding get_user list_events list_audit
  with_agents d i h ids = ground (arith, unchanged)

  -- A server's row and its four snapshots are gone.
  pub with_server_gone :
      (d : Dict Server) (sid a : Text)
      → a ≢ org
      → HasNoSlash a
      → HasNoSlash org
      → SameScope (λ s. s.org_id == org) m.servers d
      → SameTables org m (record m {
        servers = d;
        discovery = Dict.remove m.discovery (key a sid);
        logs = Dict.remove m.logs (key a sid);
        metrics = Dict.remove m.metrics (key a sid);
        metric_hist = Dict.remove m.metric_hist (key a sid);
      })
  unfolding get_user list_events list_audit
  with_server_gone d sid a ne ha hb h = record {
    servers = h;
    users = λ id. refl;
    memberships = refl;
    discovery = λ t. get-remove-key a org ha hb ne sid t m.discovery;
    logs = λ t. get-remove-key a org ha hb ne sid t m.logs;
    metrics = λ t. get-remove-key a org ha hb ne sid t m.metrics;
    history = λ t. get-remove-key a org ha hb ne sid t m.metric_hist;
    alerts = SameScope-refl _ m.alerts;
    instances = SameScope-refl _ m.instances;
    agents = SameScope-refl _ m.agents;
    agent_ids = λ aid. refl;
    enrollments = SameScope-refl _ m.enrollments;
    events = λ n. refl;
    audit = λ n. refl;
  }

  -- The accounts change, but not those of the organization.
  pub with_accounts :
      (m' : Memory)
      → WritesAccounts m m'
      → ((id : Text) → get_user m' org id ≡ get_user m org id)
      → SameTables org m m'
  unfolding list_events list_audit
  with_accounts m' (users, index, e) h = rw e (with_users users index (rw e at h))
    where
      with_users :
          (users : Dict User) (index : Dict Text)
          → ((id : Text)
              → get_user (record m { users = users; users_by_mail = index }) org id
                ≡ get_user m org id)
          → SameTables org m (record m { users = users; users_by_mail = index })
      with_users users index h = ground (arith, unchanged)

  event_unseen :
      (e : Event) (limit : ℕ)
      → (e.org_id == org) ≡ false
      → list_events (record m { events = m.events ++ e ∷ [] }) org limit ≡ list_events m org limit
  event_unseen e limit alien =
      let newest = λ (n : Memory). (journal_newest_first n org limit).0 in
      rw (
        newest m,
        newest (record m { events = m.events ++ e ∷ [] }),
        reverse-append m.events (e ∷ []),
        alien,
      )

  audit_unseen :
      (e : AuditEntry) (limit : ℕ)
      → (e.org_id == org) ≡ false
      → list_audit (record m { audit = m.audit ++ e ∷ [] }) org limit ≡ list_audit m org limit
  audit_unseen e limit alien =
      let newest = λ (n : Memory). (journal_newest_first n org limit).1 in
      rw (
        newest m,
        newest (record m { audit = m.audit ++ e ∷ [] }),
        reverse-append m.audit (e ∷ []),
        alien,
      )

  -- An event of another organization is appended.
  pub with_event :
      (e : Event)
      → (e.org_id == org) ≡ false
      → SameTables org m (record m { events = m.events ++ e ∷ [] })
  unfolding get_user list_events list_audit
  with_event e alien =
      let m' = record m { events = m.events ++ e ∷ [] } in
      let same = λ (limit : ℕ). event_unseen e limit alien in ground (arith, unchanged)

  pub with_audit :
      (e : AuditEntry)
      → (e.org_id == org) ≡ false
      → SameTables org m (record m { audit = m.audit ++ e ∷ [] })
  unfolding get_user list_events list_audit
  with_audit e alien =
      let m' = record m { audit = m.audit ++ e ∷ [] } in
      let same = λ (limit : ℕ). audit_unseen e limit alien in ground (arith, unchanged)
