-- ===== src/Api/Registration.antt =====
-- handlers_agents.go: enrollment tokens, enrollment, re-enrollment and revocation of agents.
pub mod Enroll
pub mod Reenroll
use pulse_frix.Prelude.{
  ℕ, ◌+◌, ◌*◌, Bool, not, ◌||◌, Option, none, some, List, [], ◌∷◌, ◌++◌, Text, bytes, text_eq, ◌==◌,
  if◌then◌else◌,
}
use pulse_frix.Dict
use pulse_frix.Dict.{Dict}
use pulse_frix.Model.{Server, Agent, EnrollmentToken, unknown, healthy}
use pulse_frix.Store.{Memory, Result, ok, err}
use pulse_frix.Store.Servers.{upsert_server, ensure_server}
use pulse_frix.Store.Agents.{
  create_enrollment_token, consume_enrollment_token, create_agent, get_agent_by_public_key,
  revoke_agent,
}
use pulse_frix.Duration.{second}
use pulse_frix.Api.{
  dash, Crypto, Draws, Response, fail, json, code_auth, code_validation, code_not_found,
  code_internal, hash_token, record_audit,
}
use pulse_frix.Api.Signing.{Nonces, Headers, Verdict, valid, invalid, verify_signed_request}

-- A handler's response and the store after it.
abbrev pub Reply : Type 0
Reply = Response × Memory

-- `supportedProtocols`
abbrev pub is_supported : Text → Bool
is_supported version = version == bytes "1.0"

-- The value of a string map at a key; a missing key reads as the empty string.
abbrev lookup : Dict Text → Text → Text
lookup d k = elim (Dict.get d k) [ none ↦ [] | some v ↦ v ]

-- `plain` is the token that `auth.GenerateToken` draws. The body's `expires_at`, a formatted time, is
-- left out.
unfoldable pub handle_create_enrollment :
    Crypto → Memory → Text → Text → Text → Text → Draws → Reply
handle_create_enrollment c m org_id email ip plain d =
    let m' =
      (create_enrollment_token m (record {
        id = [];
        org_id = org_id;
        token_hash = hash_token c plain;
        expires_at = d.used_at + 15 * 60 * second;
        used_at = none;
        fingerprint = [];
        created_at = d.made_at;
      })).1 in
    (
      json 201 ((bytes "enrollment_token", plain) ∷ []),
      record_audit m' org_id email (bytes "agent.enrollment_token.create") (bytes "success") ip []
          d,
    )

pub record EnrollRequest : Type 0 where
  pub enrollment_token : Text
  pub installation_id : Text
  pub public_key : Text
  pub protocol_version : Text
  pub fingerprint : Dict Text

-- Both rows of a key that is accepted, or `none` where the store refuses one.
unfoldable pub register_agent :
    Memory → Text → Text → Text → Text → ℕ → Draws → Option (Server × Agent) × Memory
register_agent m org_id public_key protocol_version hostname now d =
    let srv : Server = record {
      id = [];
      org_id = [];
      server_id = d.server_id;
      hostname = hostname;
      mode = bytes "cloud";
      status = unknown;
      last_seen_at = now;
      created_at = 0;
    } in
    let agent : Agent = record {
      id = [];
      org_id = org_id;
      server_id = d.server_id;
      agent_id = d.agent_id;
      public_key = public_key;
      protocol_version = protocol_version;
      revoked_at = none;
      last_seen_at = now;
    } in
    let (saved, m1) = upsert_server m org_id srv d.server_row now in
    let (bound, m2) = create_agent m1 agent d.agent_row in
    elim saved [
      | err _ ↦ (none, m1)
      | ok s ↦ elim bound [ err _ ↦ (none, m2) | ok a ↦ (some (s, a), m2) ]
    ]

-- The body of a response that hands a binding to the agent.
abbrev binding : Text → Text → Text → Dict Text
binding server_id agent_id protocol =
    (bytes "server_id", server_id)
    ∷ (bytes "agent_id", agent_id)
    ∷ (bytes "protocol", protocol)
    ∷ []

-- What enrollment does once its token is used.
unfoldable pub enroll_with : Memory → EnrollRequest → Text → EnrollmentToken → Draws → Reply
enroll_with m req ip tok d =
    let (registered, m') =
      register_agent m tok.org_id req.public_key req.protocol_version
        (lookup req.fingerprint (bytes "hostname")) d.made_at d in
    elim registered [
      | none ↦ (fail 500 code_internal (bytes "could not register agent"), m')
      | some (srv, agent) ↦ (
        json 201 (binding srv.server_id agent.agent_id req.protocol_version),
        record_audit m' tok.org_id req.installation_id (bytes "agent.enroll") (bytes "success") ip
            ((bytes "server_id", srv.server_id) ∷ []) d,
      )
    ]

-- What enrollment does with what the use of the token returned.
unfoldable pub enroll_used : EnrollRequest → Text → Draws → Result EnrollmentToken × Memory → Reply
enroll_used req ip d (ok tok, m) = enroll_with m req ip tok d
enroll_used req ip d (err _, m) = (
  fail 401 code_auth (bytes "invalid or expired enrollment token"),
  record_audit m [] req.installation_id (bytes "agent.enroll") (bytes "failure") ip [] d,
)

-- `none` is a body that does not decode.
unfoldable pub handle_enroll : Crypto → Memory → Option EnrollRequest → Text → Draws → Reply
handle_enroll c m none ip d = (fail 400 code_validation (bytes "invalid request body"), m)
handle_enroll c m (some req) ip d =
    let used = consume_enrollment_token m (hash_token c req.enrollment_token) d.used_at in
    if not (is_supported req.protocol_version)
    then (fail 400 code_validation (bytes "unsupported protocol version"), m)
    else if req.public_key == [] || req.enrollment_token == []
    then (fail 400 code_validation (bytes "missing enrollment fields"), m)
    else enroll_used req ip d used

unfoldable pub handle_revoke_agent : Memory → Text → Text → Text → Text → Draws → Reply
handle_revoke_agent m org_id email ip id d =
    let (done, m') = revoke_agent m org_id id d.made_at in
    elim done [
      | err _ ↦ (fail 404 code_not_found (bytes "agent not found"), m')
      | ok _ ↦ (
        json 200 ((bytes "status", bytes "revoked") ∷ []),
        record_audit m' org_id email (bytes "agent.revoke") (bytes "success") ip
            ((bytes "agent", id) ∷ []) d,
      )
    ]

pub record ReenrollRequest : Type 0 where
  pub installation_id : Text
  pub public_key : Text
  pub previous_agent_id : Text
  pub protocol_version : Text
  pub fingerprint : Dict Text
  pub enrollment_token : Text

unfoldable pub audit_reenroll :
    Memory → Text → ReenrollRequest → Text → Text → Dict Text → Draws → Memory
audit_reenroll m org_id req result ip metadata d =
    record_audit m org_id req.installation_id (bytes "agent.reenroll") result ip metadata d

-- The key is known: refused when it was revoked, else its binding is handed back.
unfoldable pub rebind : Memory → ReenrollRequest → Text → Agent → Draws → Reply
rebind m req ip a d = elim a.revoked_at [
  | some _ ↦ (
    fail 401 code_auth (
        bytes
          "this agent was revoked, and re-enrolling cannot undo that. Uninstall the agent on that host, then install it again with a fresh enrollment token."),
    audit_reenroll m a.org_id req (bytes "failure") ip
        ((bytes "reason", bytes "revoked") ∷ (bytes "agent", a.agent_id) ∷ []) d,
  )
  | none ↦
      let hostname = lookup req.fingerprint (bytes "hostname") in
      let m' = (ensure_server m a.org_id a.server_id hostname d.made_at healthy d.server_row).1 in
      (
        json 200 (binding a.server_id a.agent_id req.protocol_version),
        audit_reenroll m' a.org_id req (bytes "success") ip
            ((bytes "server_id", a.server_id)
              ∷ (bytes "agent_id", a.agent_id)
              ∷ (bytes "path", bytes "rebind")
              ∷ [])
            d,
      )
]

unfoldable pub adopt_with : Memory → ReenrollRequest → Text → EnrollmentToken → Draws → Reply
adopt_with m req ip tok d =
    let (registered, m') =
      register_agent m tok.org_id req.public_key req.protocol_version
        (lookup req.fingerprint (bytes "hostname")) d.made_at d in
    elim registered [
      | none ↦ (fail 500 code_internal (bytes "could not register agent"), m')
      | some (srv, agent) ↦ (
        json 201 (binding srv.server_id agent.agent_id req.protocol_version),
        audit_reenroll m' tok.org_id req (bytes "success") ip
            ((bytes "server_id", srv.server_id)
              ∷ (bytes "agent_id", agent.agent_id)
              ∷ (bytes "path", bytes "adopt")
              ∷ [])
            d,
      )
    ]

-- What adoption does with what the use of the token returned.
unfoldable pub adopt_used : ReenrollRequest → Text → Draws → Result EnrollmentToken × Memory → Reply
adopt_used req ip d (ok tok, m) = adopt_with m req ip tok d
adopt_used req ip d (err _, m) = (
  fail 401 code_auth (
      bytes "invalid or expired enrollment token "
      ++ (dash ++ bytes " generate a fresh one in the dashboard")),
  audit_reenroll m [] req (bytes "failure") ip ((bytes "reason", bytes "bad_token") ∷ []) d,
)

-- The key is unknown: adopted only with an enrollment token.
unfoldable pub adopt : Crypto → Memory → ReenrollRequest → Text → Draws → Reply
adopt c m req ip d =
    let used = consume_enrollment_token m (hash_token c req.enrollment_token) d.made_at in
    if req.enrollment_token == []
    then (
      fail 401 code_auth (
          bytes
            "this control plane has no record of this agent. Generate a fresh enrollment token in the dashboard and re-run the install command on that host."),
      audit_reenroll m [] req (bytes "failure") ip
          ((bytes "reason", bytes "unknown_key_no_token") ∷ []) d,
    )
    else adopt_used req ip d used

abbrev pub reenroll_path : Text
reenroll_path = bytes "/api/v1/agents/reenroll"

-- What follows the verification of the signature.
unfoldable pub reenroll_verified : Crypto → Memory → ReenrollRequest → Text → Draws → Reply
reenroll_verified c m req ip d = elim (get_agent_by_public_key m req.public_key) [
  | ok a ↦ rebind m req ip a d
  | err _ ↦ adopt c m req ip d
]

unfoldable pub reenroll_checked : Crypto → Memory → ReenrollRequest → Text → Draws → Verdict → Reply
reenroll_checked c m req ip d valid = reenroll_verified c m req ip d
reenroll_checked c m req ip d (invalid message) =
    (fail 401 code_auth message, audit_reenroll m [] req (bytes "failure") ip [] d)

-- `body` is the request's, at most 8192 bytes of it, and `decoded` what it decodes to; `now` and
-- `now'` are the readings of the clock of the verification.
unfoldable pub handle_reenroll :
    Crypto
    → Memory
    → Nonces
    → Headers
    → Text
    → Option ReenrollRequest
    → Text
    → ℕ
    → ℕ
    → Draws
    → Reply × Nonces
handle_reenroll c m seen h body none ip now now' d =
    ((fail 400 code_validation (bytes "invalid request body"), m), seen)
handle_reenroll c m seen h body (some req) ip now now' d =
    let (verdict, seen') =
      verify_signed_request c seen h body req.public_key reenroll_path now now' in
    if not (is_supported req.protocol_version)
    then ((fail 400 code_validation (bytes "unsupported protocol version"), m), seen)
    else if req.public_key == []
    then ((fail 400 code_validation (bytes "missing public key"), m), seen)
    else (reenroll_checked c m req ip d verdict, seen')
