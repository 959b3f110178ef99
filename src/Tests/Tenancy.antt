-- ===== src/Tests/Tenancy.antt =====
-- Two organizations in one store, at concrete inputs.
use pulse_frix.Prelude.{◌≡◌, refl, none, some, [], Text, bytes, same_text, arith}
use pulse_frix.Dict
use pulse_frix.Model.{Server, Agent, healthy}
use pulse_frix.Store.{Memory, new_memory}
use pulse_frix.Store.Servers.{upsert_server, filled_server}
use pulse_frix.Store.Tenants.{run_call, upserts_server, deletes_server, SameTenant}
use pulse_frix.Store.Tenants.Isolation.{tenant_isolation}
use pulse_frix.Store.Snapshots.{save_logs}
use pulse_frix.Store.Servers.{ensure_server}
use pulse_frix.Api.Ingest.{Decoder, IngestEnvelope, apply_envelope}
use pulse_frix.Api.Ingest.Isolated.{ingest_isolated}

abbrev server : Text → Server
server sid = record {
  id = [];
  org_id = [];
  server_id = sid;
  hostname = sid;
  mode = bytes "cloud";
  status = healthy;
  last_seen_at = 0;
  created_at = 0;
}

-- A server `1` of organization `a` and a server `2` of organization `b`.
abbrev two_tenants : Memory
two_tenants =
    run_call (bytes "b") (upserts_server (server (bytes "y")) (bytes "2") 5)
      (run_call (bytes "a") (upserts_server (server (bytes "x")) (bytes "1") 5) new_memory)

two_tenants-HasUniqueKeys : Dict.HasUniqueKeys two_tenants.servers
unfolding run_call upsert_server filled_server Dict.get Dict.put same_text
two_tenants-HasUniqueKeys = (refl, (refl, tt))

no_alerts : Dict.HasUniqueKeys two_tenants.alerts
unfolding run_call upsert_server
no_alerts = tt

tenant_isolation_example :
    SameTenant
      (bytes "b")
      two_tenants
      (run_call (bytes "a") (deletes_server (bytes "1")) two_tenants)
tenant_isolation_example =
    tenant_isolation two_tenants (bytes "a") (bytes "b") (deletes_server (bytes "1"))
      ((λ e. ground arith), tt) ((λ e. ground arith), tt) (λ e. ground arith) tt
      two_tenants-HasUniqueKeys no_alerts

abbrev decoder : Decoder
decoder = record { envelope = λ body. none; hostname = λ body. body }

abbrev agent : Agent
agent = record {
  id = bytes "r";
  org_id = bytes "a";
  server_id = bytes "x";
  agent_id = bytes "agt";
  public_key = bytes "k";
  protocol_version = bytes "1.0";
  revoked_at = none;
  last_seen_at = 0;
}

abbrev logs_message : IngestEnvelope
logs_message = record {
  type = bytes "logs";
  agent_id = bytes "agt";
  protocol = bytes "1.0";
  body = bytes "{}";
}

abbrev after_logs : Memory
after_logs =
    (ensure_server (save_logs two_tenants (bytes "a") (bytes "x") (bytes "{}")).1 (bytes "a")
      (bytes "x") [] 9 healthy (bytes "3")).1

applied : apply_envelope decoder two_tenants agent logs_message 9 (bytes "3") ≡ some after_logs
unfolding apply_envelope same_text
applied = refl

new_row : Dict.get two_tenants.servers (bytes "3") ≡ none
unfolding run_call upsert_server filled_server Dict.get Dict.put same_text
new_row = refl

ingest_isolated_example : SameTenant (bytes "b") two_tenants after_logs
ingest_isolated_example =
    ingest_isolated decoder two_tenants after_logs agent logs_message 9 (bytes "3") (bytes "b")
      ((λ e. ground arith), tt) ((λ e. ground arith), tt) (λ e. ground arith) new_row
      two_tenants-HasUniqueKeys no_alerts applied
