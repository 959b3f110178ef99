-- ===== src/Api/Ingest.antt =====
-- handlers_agents.go: the ingestion of an agent's signed messages.
pub mod Authentic
pub mod Isolated
use pulse_frix.Prelude.{
  ℕ, Bool, Option, none, some, List, [], ◌∷◌, ◌++◌, Text, bytes, text_eq, ◌==◌, if◌then◌else◌,
}
use pulse_frix.Dict
use pulse_frix.Dict.{Dict}
use pulse_frix.Model.{Agent, healthy}
use pulse_frix.Store.{Memory, ok, err}
use pulse_frix.Store.Servers.{ensure_server}
use pulse_frix.Store.Agents.{get_agent_by_agent_id}
use pulse_frix.Store.Snapshots.{save_discovery, save_metrics, save_logs, append_metric_sample}
use pulse_frix.Api.{dash, Crypto, Response, fail, json, code_auth, code_validation}
use pulse_frix.Api.Signing.{Nonces, Headers, valid, invalid, verify_signed_request}

pub record IngestEnvelope : Type 0 where
  pub type : Text
  pub agent_id : Text
  pub protocol : Text
  pub body : Text

-- What encoding/json reads of a body: the envelope, and the hostname of a snapshot.
pub record Decoder : Type 0 where
  pub envelope : Text → Option IngestEnvelope
  pub hostname : Text → Text

-- The switch over the type of the message; `none` at an unknown type. `row` is the identifier that
-- `EnsureServer` draws.
unfoldable pub apply_envelope : Decoder → Memory → Agent → IngestEnvelope → ℕ → Text → Option Memory
apply_envelope dec m a env now row =
    let seen : Memory → Text → Memory =
      λ mem hostname. (ensure_server mem a.org_id a.server_id hostname now healthy row).1 in
    if env.type == bytes "discovery"
    then some (seen (save_discovery m a.org_id a.server_id env.body).1 (dec.hostname env.body))
    else if env.type == bytes "metrics"
    then some (
        seen
          (append_metric_sample (save_metrics m a.org_id a.server_id env.body).1 a.org_id
            a.server_id now env.body).1
          [])
    else if env.type == bytes "logs"
    then some (seen (save_logs m a.org_id a.server_id env.body).1 [])
    else if env.type == bytes "heartbeat"
    then some (seen m [])
    else if env.type == bytes "hello"
    then some (seen m [])
    else if env.type == bytes "health"
    then some (seen m [])
    else none

abbrev pub ingest_path : Text
ingest_path = bytes "/api/v1/agents/ingest"

-- What follows the verification of the signature.
unfoldable pub ingest_verified : Decoder → Memory → Agent → Text → ℕ → Text → Response × Memory
ingest_verified dec m a body now row = elim (dec.envelope body) [
  | none ↦ (fail 400 code_validation (bytes "invalid envelope"), m)
  | some env ↦ elim (apply_envelope dec m a env now row) [
    | none ↦ (fail 400 code_validation (bytes "unknown message type"), m)
    | some m' ↦ (json 202 ((bytes "status", bytes "accepted") ∷ []), m')
  ]
]

-- `body` is the request's, at most 8 MiB of it; the readings of the clock are those of the
-- verification and of the message. An index entry without a row, which no call leaves behind, is
-- answered like an unknown agent; the source would follow a nil pointer there.
unfoldable pub handle_ingest :
    Crypto
    → Decoder
    → Memory
    → Nonces
    → Headers
    → Text
    → ℕ
    → ℕ
    → ℕ
    → Text
    → (Response × Memory) × Nonces
handle_ingest c dec m seen h body now now' now'' row =
    let agent = get_agent_by_agent_id m h.agent_id in
    if h.agent_id == []
    then ((fail 401 code_auth (bytes "missing signature headers"), m), seen)
    else elim agent [
      | err _ ↦ (
        (
          fail 401 code_auth (
              bytes "unknown or revoked agent "
              ++ (dash
                  ++ bytes
                      " the agent should re-enroll; if it cannot, generate a fresh enrollment token and reinstall it on that host")),
          m,
        ),
        seen,
      )
      | ok a ↦
          let (verdict, seen') =
            verify_signed_request c seen h body a.public_key ingest_path now now' in
          elim verdict [
            | invalid message ↦ ((fail 401 code_auth message, m), seen')
            | valid ↦ (ingest_verified dec m a body now'' row, seen')
          ]
    ]
