-- ===== src/Store/Tenants/Isolation.antt =====
-- No call of one organization changes what another sees.
use pulse_frix.Prelude.{◌≢◌, Text, text_eq}
use pulse_frix.Dict.{HasUniqueKeys}
use pulse_frix.Dict.Scoped.{SameScope-put}
use pulse_frix.Store.{Memory}
use pulse_frix.Store.Users.Scope.{
  update_user_email-writes, update_user_password-writes, get_user-update_user_email,
  get_user-update_user_password,
}
use pulse_frix.Store.Agents.{create_enrollment_token}
use pulse_frix.Store.Snapshots.{save_discovery, save_logs, save_metrics, append_metric_sample}
use pulse_frix.Store.Journal.{append_event, append_audit}
use pulse_frix.Store.Users.{update_user_email, update_user_password}
use pulse_frix.Store.Tenants.{
  Call, upserts_server, deletes_server, touches_server, ensures_server, creates_token,
  creates_agent, revokes_agent, saves_discovery, saves_logs, saves_metrics, appends_sample,
  changes_email, changes_password, creates_alert, updates_alert, deletes_alert, upserts_instance,
  appends_event, appends_audit, run_call, IsProper, SameTenant,
}
use pulse_frix.Store.Tenants.Keys.{HasNoSlash, get-put-key}
use pulse_frix.Store.Tenants.Tables.{
  SameTables, SameTenant-of_tables, with_discovery, with_logs, with_metrics, with_history,
  with_enrollments, with_accounts, with_event, with_audit,
}
use pulse_frix.Store.Tenants.Calls.{
  not_ours, keep_own, upsert_server-SameTables, delete_server-SameTables,
  touch_server_seen-SameTables, ensure_server-SameTables, create_agent-SameTables,
  revoke_agent-SameTables, create_alert-SameTables, update_alert-SameTables,
  delete_alert-SameTables, upsert_alert_instance-SameTables,
}

module _ (m : Memory) (a b : Text) (ha : HasNoSlash a) (hb : HasNoSlash b) (ne : a ≢ b) where
  run_call-SameTables :
      (c : Call)
      → IsProper a c m
      → HasUniqueKeys m.servers
      → HasUniqueKeys m.alerts
      → SameTables b m (run_call a c m)
  unfolding run_call save_discovery save_logs save_metrics append_metric_sample
      create_enrollment_token append_event append_audit
  run_call-SameTables (upserts_server s new_id now) p us ua =
      upsert_server-SameTables m a b ne s new_id now p
  run_call-SameTables (deletes_server id) p us ua = delete_server-SameTables m a b ne id ha hb us
  run_call-SameTables (touches_server sid now status) p us ua =
      touch_server_seen-SameTables m a b ne sid now status
  run_call-SameTables (ensures_server sid hostname now status new_id) p us ua =
      ensure_server-SameTables m a b ne sid hostname now status new_id p
  run_call-SameTables (creates_token t) p us ua = with_enrollments b m _ (
      SameScope-put _ m.enrollments t.token_hash t (not_ours a b t.org_id ne p.0)
        (keep_own (λ r. r.org_id) a b m.enrollments t.token_hash ne p.1))
  run_call-SameTables (creates_agent g new_id) p us ua =
      create_agent-SameTables m a b ne g new_id p.0 p.1 p.2
  run_call-SameTables (revokes_agent id now) p us ua = revoke_agent-SameTables m a b ne id now
  run_call-SameTables (saves_discovery sid raw) p us ua =
      with_discovery b m _ (λ t. get-put-key a b ha hb ne sid t m.discovery raw)
  run_call-SameTables (saves_logs sid raw) p us ua =
      with_logs b m _ (λ t. get-put-key a b ha hb ne sid t m.logs raw)
  run_call-SameTables (saves_metrics sid raw) p us ua =
      with_metrics b m _ (λ t. get-put-key a b ha hb ne sid t m.metrics raw)
  run_call-SameTables (appends_sample sid ts raw) p us ua =
      with_history b m _ (λ t. get-put-key a b ha hb ne sid t m.metric_hist _)
  run_call-SameTables (changes_email uid email) p us ua =
      with_accounts b m (update_user_email m a uid email).1 (update_user_email-writes m a uid email)
        (λ id. get_user-update_user_email m a b uid id ne email)
  run_call-SameTables (changes_password uid hash) p us ua =
      with_accounts b m (update_user_password m a uid hash).1
        (update_user_password-writes m a uid hash)
        (λ id. get_user-update_user_password m a b uid id ne hash)
  run_call-SameTables (creates_alert r new_id) p us ua =
      create_alert-SameTables m a b ne r new_id p.0 p.1
  run_call-SameTables (updates_alert r) p us ua = update_alert-SameTables m a b ne r
  run_call-SameTables (deletes_alert id) p us ua = delete_alert-SameTables m a b ne id ua
  run_call-SameTables (upserts_instance i new_id) p us ua =
      upsert_alert_instance-SameTables m a b ne i new_id p.0 p.1
  run_call-SameTables (appends_event e new_id) p us ua =
      with_event b m _ (not_ours a b e.org_id ne p)
  run_call-SameTables (appends_audit e new_id) p us ua =
      with_audit b m _ (not_ours a b e.org_id ne p)

-- A write that one organization makes, of rows that carry its organization and over nothing or over
-- its own rows, leaves what the store shows of another organization as it was: its servers,
-- accounts, memberships, snapshots, metric history, alert rules and instances, enrollment tokens,
-- agents, which of them an agent's identifier finds, events and audit entries. The identifiers of both
-- have no slash, and the maps of servers and of alert rules have one entry for each key.
pub tenant_isolation :
    (m : Memory) (a b : Text) (c : Call)
    → HasNoSlash a
    → HasNoSlash b
    → a ≢ b
    → IsProper a c m
    → HasUniqueKeys m.servers
    → HasUniqueKeys m.alerts
    → SameTenant b m (run_call a c m)
tenant_isolation m a b c ha hb ne p us ua =
    SameTenant-of_tables (run_call-SameTables m a b ha hb ne c p us ua)
