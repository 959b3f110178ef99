-- ===== src/Store/Tenants.antt =====
-- Multi-tenancy: the calls that one organization makes on the store, and what another can see.
pub mod Keys
mod AgentIds
mod Tables
mod Calls
pub mod Isolation
use pulse_frix.Prelude.{ℕ, ◌≡◌, none, Option, some, Text, text_eq, ◌==◌, [], if◌then◌else◌, Bool}
use pulse_frix.Dict
use pulse_frix.Dict.Scoped.{SameScope, keep}
use pulse_frix.Model.{
  Server, Agent, Health, Alert, AlertInstance, Event, AuditEntry, EnrollmentToken,
}
use pulse_frix.Store.{Memory, Result, ok, err}
use pulse_frix.Store.Users.{update_user_email, update_user_password, get_user, get_membership}
use pulse_frix.Store.Servers.{
  filled_server, upsert_server, delete_server, touch_server_seen, ensure_server, list_servers,
  get_server,
}
use pulse_frix.Store.Agents.{
  create_enrollment_token, create_agent, revoke_agent, get_agent_by_agent_id,
}
use pulse_frix.Store.Snapshots.{
  save_discovery, save_logs, save_metrics, append_metric_sample, get_discovery, get_logs,
  get_metrics, history,
}
use pulse_frix.Store.Alerts.{
  create_alert, update_alert, delete_alert, upsert_alert_instance, list_alerts,
  list_alert_instances,
}
use pulse_frix.Store.Journal.{append_event, append_audit, list_events, list_audit}

-- The calls that write on behalf of an organization.
pub data Call : Type 0 where
  upserts_server : Server → Text → ℕ → Call
  deletes_server : Text → Call
  touches_server : Text → ℕ → Health → Call
  ensures_server : Text → Text → ℕ → Health → Text → Call
  creates_token : EnrollmentToken → Call
  creates_agent : Agent → Text → Call
  revokes_agent : Text → ℕ → Call
  saves_discovery saves_logs saves_metrics : Text → Text → Call
  appends_sample : Text → ℕ → Text → Call
  changes_email changes_password : Text → Text → Call
  creates_alert : Alert → Text → Call
  updates_alert : Alert → Call
  deletes_alert : Text → Call
  upserts_instance : AlertInstance → Text → Call
  appends_event : Event → Text → Call
  appends_audit : AuditEntry → Text → Call

-- The store after the call.
unfoldable pub run_call : Text → Call → Memory → Memory
run_call org (upserts_server s new_id now) m = (upsert_server m org s new_id now).1
run_call org (deletes_server id) m = (delete_server m org id).1
run_call org (touches_server sid now status) m = (touch_server_seen m org sid now status).1
run_call org (ensures_server sid hostname now status new_id) m =
    (ensure_server m org sid hostname now status new_id).1
run_call org (creates_token t) m = (create_enrollment_token m t).1
run_call org (creates_agent a new_id) m = (create_agent m a new_id).1
run_call org (revokes_agent id now) m = (revoke_agent m org id now).1
run_call org (saves_discovery sid raw) m = (save_discovery m org sid raw).1
run_call org (saves_logs sid raw) m = (save_logs m org sid raw).1
run_call org (saves_metrics sid raw) m = (save_metrics m org sid raw).1
run_call org (appends_sample sid ts raw) m = (append_metric_sample m org sid ts raw).1
run_call org (changes_email uid email) m = (update_user_email m org uid email).1
run_call org (changes_password uid hash) m = (update_user_password m org uid hash).1
run_call org (creates_alert a new_id) m = (create_alert m a new_id).1
run_call org (updates_alert a) m = (update_alert m org a).1
run_call org (deletes_alert id) m = (delete_alert m org id).1
run_call org (upserts_instance i new_id) m = (upsert_alert_instance m i new_id).1
run_call org (appends_event e new_id) m = (append_event m e new_id).1
run_call org (appends_audit e new_id) m = (append_audit m e new_id).1

-- A row that is stored under the key already is the organization's own.
abbrev pub IsOwn : {V : Type 0} → (V → Text) → Text → Dict.Dict V → Text → Type 0
IsOwn org_of org d k = (v : _) → Dict.get d k ≡ some v → org_of v ≡ org

-- What the callers keep to: a row that is written carries the organization of the caller, and what it
-- replaces, if anything, is a row of that organization.
abbrev pub IsProper : Text → Call → Memory → Type 0
IsProper org (upserts_server s new_id now) m =
    IsOwn (λ r. r.org_id) org m.servers (if s.id == [] then new_id else s.id)
IsProper org (ensures_server sid hostname now status new_id) m =
    IsOwn (λ r. r.org_id) org m.servers new_id
IsProper org (creates_token t) m =
    (t.org_id ≡ org) × IsOwn (λ r. r.org_id) org m.enrollments t.token_hash
IsProper org (creates_agent a new_id) m =
    (a.org_id ≡ org)
    × IsOwn (λ r. r.org_id) org m.agents (if a.id == [] then new_id else a.id)
    × ((row : Text)
        → Dict.get m.agent_by_aid a.agent_id ≡ some row
        → IsOwn (λ r. r.org_id) org m.agents row)
IsProper org (creates_alert a new_id) m =
    (a.org_id ≡ org) × IsOwn (λ r. r.org_id) org m.alerts (if a.id == [] then new_id else a.id)
IsProper org (upserts_instance i new_id) m =
    (i.org_id ≡ org) × IsOwn (λ r. r.org_id) org m.instances (if i.id == [] then new_id else i.id)
IsProper org (appends_event e new_id) m = e.org_id ≡ org
IsProper org (appends_audit e new_id) m = e.org_id ≡ org
IsProper org _ m = Unit

-- An agent that a lookup found, if it is one of the organization.
abbrev pub own_agent : Text → Result Agent → Option Agent
own_agent org (ok a) = if a.org_id == org then some a else none
own_agent org (err _) = none

-- What the methods show of an organization is the same in two states: its rows, what is stored for
-- its servers, and which of its agents an identifier of an agent finds.
pub record SameTenant (org : Text) (m m' : Memory) : Type 0 where
  pub servers : list_servers m' org ≡ list_servers m org
  pub server_rows : (id : Text) → get_server m' org id ≡ get_server m org id
  pub users : (id : Text) → get_user m' org id ≡ get_user m org id
  pub memberships : (uid : Text) → get_membership m' org uid ≡ get_membership m org uid
  pub discovery : (sid : Text) → get_discovery m' org sid ≡ get_discovery m org sid
  pub logs : (sid : Text) → get_logs m' org sid ≡ get_logs m org sid
  pub metrics : (sid : Text) → get_metrics m' org sid ≡ get_metrics m org sid
  pub history : (sid : Text) → history m' org sid ≡ history m org sid
  pub alerts : list_alerts m' org ≡ list_alerts m org
  pub instances : list_alert_instances m' org ≡ list_alert_instances m org
  pub agents : SameScope (λ a. a.org_id == org) m.agents m'.agents
  pub agent_ids :
      (aid : Text)
      → own_agent org (get_agent_by_agent_id m' aid) ≡ own_agent org (get_agent_by_agent_id m aid)
  pub enrollments : SameScope (λ t. t.org_id == org) m.enrollments m'.enrollments
  pub events : (limit : ℕ) → list_events m' org limit ≡ list_events m org limit
  pub audit : (limit : ℕ) → list_audit m' org limit ≡ list_audit m org limit
