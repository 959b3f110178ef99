-- ===== src/Api/Registration/Enroll.antt =====
-- Enrollment: a good token, once, for an agent that can then be authenticated.
use pulse_frix.Prelude.{
  ℕ, ◌≡◌, ◌≢◌, refl, none, some, [], ◌∷◌, Text, bytes, text_eq, arith, same_text_iff,
  same_text_refl,
}
use pulse_frix.Dict.Laws.{get-put}
use pulse_frix.Model.{Agent, EnrollmentToken}
use pulse_frix.Store.{Memory, ok, err, not_found}
use pulse_frix.Store.Agents.{consume_enrollment_token, get_agent_by_agent_id, create_agent}
use pulse_frix.Store.Servers.{upsert_server}
use pulse_frix.Store.Journal.{append_audit}
use pulse_frix.Store.Agents.Enrollment.{IsGood, after_use, spent, consume_good, refused}
use pulse_frix.Api.{Crypto, Draws, Response, fail, json, hash_token, record_audit, code_auth}
use pulse_frix.Api.Registration.{
  EnrollRequest, handle_enroll, enroll_used, enroll_with, register_agent,
}

-- A request that names the protocol and has both fields.
pub record IsWellFormed (req : EnrollRequest) : Type 0 where
  pub supported : req.protocol_version ≡ bytes "1.0"
  pub has_key : req.public_key ≢ []
  pub has_token : req.enrollment_token ≢ []

abbrev pub bound_agent : EnrollRequest → EnrollmentToken → Draws → Agent
bound_agent req t d = record {
  id = d.agent_row;
  org_id = t.org_id;
  server_id = d.server_id;
  agent_id = d.agent_id;
  public_key = req.public_key;
  protocol_version = req.protocol_version;
  revoked_at = none;
  last_seen_at = d.made_at;
}

handle_enroll_lem :
    (c : Crypto) (m : Memory) (req : EnrollRequest) (ip : Text) (d : Draws)
    → IsWellFormed req
    → handle_enroll c m (some req) ip d
      ≡ enroll_used req ip d
          (consume_enrollment_token m (hash_token c req.enrollment_token) d.used_at)
unfolding handle_enroll
handle_enroll_lem c m req ip d w = ground (
  arith,
  w.supported,
  w.has_key,
  w.has_token,
  same_text_iff req.protocol_version (bytes "1.0"),
  same_text_iff req.public_key [],
  same_text_iff req.enrollment_token [],
)

enroll_with_lem :
    (m : Memory) (req : EnrollRequest) (ip : Text) (t : EnrollmentToken) (d : Draws)
    → let (response, m') = enroll_with m req ip t d in
      (response
        ≡ json 201 (
            (bytes "server_id", d.server_id)
            ∷ (bytes "agent_id", d.agent_id)
            ∷ (bytes "protocol", req.protocol_version)
            ∷ []))
      × (get_agent_by_agent_id m' d.agent_id ≡ ok (bound_agent req t d))
      × (m'.enrollments ≡ m.enrollments)
unfolding enroll_with register_agent upsert_server create_agent get_agent_by_agent_id record_audit
    append_audit
enroll_with_lem m req ip t d = (
  refl,
  ground (
    arith,
    same_text_refl [],
    get-put m.agent_by_aid d.agent_id d.agent_row d.agent_id,
    get-put m.agents d.agent_row (bound_agent req t d) d.agent_row,
    same_text_refl d.agent_id,
    same_text_refl d.agent_row,
  ),
  refl,
)

-- The token of a good enrollment is refused afterwards.
spent_refused :
    (m m' : Memory) (hash : Text) (now later : ℕ) (t : EnrollmentToken)
    → m'.enrollments ≡ (after_use m hash now t).enrollments
    → consume_enrollment_token m' hash later ≡ (err not_found, m')
unfolding consume_enrollment_token
spent_refused m m' hash now later t e =
    ground (arith, e, get-put m.enrollments hash (spent t now) hash, same_text_refl hash)

abbrev pub refusal : Response
refusal = fail 401 code_auth (bytes "invalid or expired enrollment token")

enroll_used_refused :
    (m : Memory) (req : EnrollRequest) (ip : Text) (d : Draws)
    → let (response, m') = enroll_used req ip d (err not_found, m) in
      (response ≡ refusal)
      × (m'.servers ≡ m.servers)
      × (m'.agents ≡ m.agents)
      × (m'.agent_by_aid ≡ m.agent_by_aid)
      × (m'.enrollments ≡ m.enrollments)
unfolding enroll_used record_audit append_audit
enroll_used_refused m req ip d = (refl, refl, refl, refl, refl)

handle_enroll_good :
    (c : Crypto) (m : Memory) (req : EnrollRequest) (ip : Text) (d : Draws) (t : EnrollmentToken)
    → IsWellFormed req
    → IsGood m (hash_token c req.enrollment_token) d.used_at t
    → handle_enroll c m (some req) ip d
      ≡ enroll_with
          (after_use m (hash_token c req.enrollment_token) d.used_at t)
          req
          ip
          (spent t d.used_at)
          d
unfolding enroll_used
handle_enroll_good c m req ip d t w g = rw (
  handle_enroll_lem c m req ip d w,
  consume_good m (hash_token c req.enrollment_token) d.used_at t g,
)

handle_enroll_spent :
    (c : Crypto) (m m' : Memory) (req : EnrollRequest) (ip : Text) (d : Draws) (now : ℕ)
    (t : EnrollmentToken)
    → IsWellFormed req
    → m'.enrollments ≡ (after_use m (hash_token c req.enrollment_token) now t).enrollments
    → (handle_enroll c m' (some req) ip d).0 ≡ refusal
handle_enroll_spent c m m' req ip d now t w same =
    rw
      (
        handle_enroll_lem c m' req ip d w,
        spent_refused m m' (hash_token c req.enrollment_token) now d.used_at t same,
      )
      (enroll_used_refused m' req ip d).0

-- For a request with the supported protocol version, a key and a token. If the hash of the token is
-- that of a token that is stored, unused and not past its expiry, then the response is 201 with the
-- identifiers that were drawn; the agent's identifier resolves to the key of the request, live, in
-- the organization of the token; and every later request with this token is refused with 401.
-- Otherwise the response is 401, and no server, agent or token has changed.
pub enroll_once :
    (c : Crypto) (m : Memory) (req : EnrollRequest) (ip : Text) (d : Draws)
    → IsWellFormed req
    → let (response, m') = handle_enroll c m (some req) ip d in
      let hash = hash_token c req.enrollment_token in
      ((t : EnrollmentToken)
        → IsGood m hash d.used_at t
        → (response
            ≡ json 201 (
                (bytes "server_id", d.server_id)
                ∷ (bytes "agent_id", d.agent_id)
                ∷ (bytes "protocol", req.protocol_version)
                ∷ []))
          × (get_agent_by_agent_id m' d.agent_id ≡ ok (bound_agent req t d))
          × ((req' : EnrollRequest) (ip' : Text) (d' : Draws)
              → IsWellFormed req'
              → req'.enrollment_token ≡ req.enrollment_token
              → (handle_enroll c m' (some req') ip' d').0 ≡ refusal))
      × (((t : EnrollmentToken) → ¬ IsGood m hash d.used_at t)
          → (response ≡ refusal)
            × (m'.servers ≡ m.servers)
            × (m'.agents ≡ m.agents)
            × (m'.agent_by_aid ≡ m.agent_by_aid)
            × (m'.enrollments ≡ m.enrollments))
enroll_once c m req ip d w = (
  λ t g.
      let hash = hash_token c req.enrollment_token in
      let used = after_use m hash d.used_at t in
      let (response, agent, same) = enroll_with_lem used req ip (spent t d.used_at) d in
      let done : handle_enroll c m (some req) ip d ≡ enroll_with used req ip (spent t d.used_at) d =
        handle_enroll_good c m req ip d t w g in
      rw done (
        response,
        agent,
        λ req' ip' d' w' e.
            handle_enroll_spent c m (enroll_with used req ip (spent t d.used_at) d).1 req' ip' d'
              d.used_at t w' (rw e same),
      ),
  λ bad.
      rw
        (
          handle_enroll_lem c m req ip d w,
          refused m (hash_token c req.enrollment_token) d.used_at bad,
        )
        (enroll_used_refused m req ip d),
)
