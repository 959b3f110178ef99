-- ===== src/Tests/Requests.antt =====
-- Signed requests, enrollment and ingestion at concrete inputs.
use pulse_frix.Prelude.{
  ℕ, ◌+◌, ◌*◌, ◌≡◌, ◌≢◌, refl, none, some, Option, [], ◌∷◌, Text, bytes, same_text, arith, text_eq,
  ◌==◌, ◌⊎◌,
}
use pulse_frix.Dict
use pulse_frix.Prelude.Int.{ℤ, pos}
use pulse_frix.Duration.{second, parse_int, IsInReach, unix_milli, is_within}
use pulse_frix.Model.{Agent, EnrollmentToken}
use pulse_frix.Store.{Memory, new_memory, ok}
use pulse_frix.Store.Agents.{create_agent, create_enrollment_token, get_agent_by_agent_id}
use pulse_frix.Store.Agents.Enrollment.{IsGood}
use pulse_frix.Api.{Crypto, Draws, json}
use pulse_frix.Api.Signing.{
  Headers, valid, signing_input, check_signature, is_fresh, check_and_store, verify_signed_request,
}
use pulse_frix.Api.Signing.Replay.{Attempt, verify_attempt, verify_all, no_replay}
use pulse_frix.Api.Registration.{
  EnrollRequest, handle_enroll, ReenrollRequest, handle_reenroll, reenroll_path,
}
use pulse_frix.Api.Registration.Enroll.{IsWellFormed, enroll_once, bound_agent, refusal}
use pulse_frix.Api.Registration.Reenroll.{
  revoked, AreRevoked, reenroll_refused, IsFailure, SameFleet,
}
use pulse_frix.Api.Ingest.{Decoder, handle_ingest, ingest_path}
use pulse_frix.Api.Ingest.Authentic.{IsLive, IsProven, IsApplied, ingest_authentic}

-- A scheme in which the signature is the signed text itself.
abbrev crypto : Crypto
crypto = record {
  sha256_hex = λ s. s;
  decode_base64 = λ s. some s;
  verify = λ key message signature. message == signature;
}

abbrev key : Text
key = bytes "0123456789abcdef0123456789abcdef"

abbrev signed : Text → Text → Text → Text → Headers
signed path ts nonce body = record {
  agent_id = bytes "agt";
  timestamp = ts;
  nonce = nonce;
  signature = signing_input crypto path ts nonce body;
}

abbrev attempt : ℕ → Attempt
attempt now = record {
  headers = signed ingest_path (bytes "100000") (bytes "n") (bytes "{}");
  body = bytes "{}";
  public_key = key;
  path = ingest_path;
  now = now;
  now' = now + 1;
}

attempt_is_valid : (verify_attempt crypto [] (attempt (100 * second))).0 ≡ valid
unfolding verify_signed_request check_signature check_and_store is_fresh is_within parse_int
    signing_input same_text Dict.get
attempt_is_valid = refl

timestamp_run : parse_int (bytes "100000") ≡ some (pos 100000)
unfolding parse_int
timestamp_run = refl

in_reach : (t : ℤ) → parse_int (bytes "100000") ≡ some t → IsInReach (100 * second) t
unfolding unix_milli
in_reach t e = ground (arith, timestamp_run, e)

no_replay_example :
    (verify_attempt crypto
      (verify_all crypto
        (verify_attempt crypto [] (attempt (100 * second))).1
        (attempt (110 * second) ∷ []))
      (attempt (120 * second))).0
    ≢ valid
no_replay_example =
    no_replay crypto [] (attempt (100 * second)) (attempt (120 * second))
      (attempt (110 * second) ∷ []) tt attempt_is_valid (omega arith)
      (omega arith, omega arith, omega arith) (omega arith) refl refl in_reach

abbrev draws : Draws
draws = record {
  server_id = bytes "srv";
  agent_id = bytes "agt";
  server_row = bytes "r1";
  agent_row = bytes "r2";
  audit_row = bytes "r3";
  used_at = 5;
  made_at = 6;
  audit_at = 7;
}

abbrev enroll_request : EnrollRequest
enroll_request = record {
  enrollment_token = bytes "t";
  installation_id = bytes "i";
  public_key = key;
  protocol_version = bytes "1.0";
  fingerprint = [];
}

abbrev token : EnrollmentToken
token = record {
  id = [];
  org_id = bytes "o1";
  token_hash = bytes "t";
  expires_at = 50;
  used_at = none;
  fingerprint = [];
  created_at = 1;
}

abbrev with_token : Memory
with_token = (create_enrollment_token new_memory token).1

enroll_request-IsWellFormed : IsWellFormed enroll_request
enroll_request-IsWellFormed = record {
  supported = refl;
  has_key = λ e. ground arith;
  has_token = λ e. ground arith;
}

enroll_once_example :
    let (response, m') = handle_enroll crypto with_token (some enroll_request) [] draws in
    ((t : EnrollmentToken)
      → IsGood with_token (bytes "t") 5 t
      → (response
          ≡ json 201 (
              (bytes "server_id", bytes "srv")
              ∷ (bytes "agent_id", bytes "agt")
              ∷ (bytes "protocol", bytes "1.0")
              ∷ []))
        × (get_agent_by_agent_id m' (bytes "agt") ≡ ok (bound_agent enroll_request t draws))
        × ((req' : EnrollRequest) (ip' : Text) (d' : Draws)
            → IsWellFormed req'
            → req'.enrollment_token ≡ bytes "t"
            → (handle_enroll crypto m' (some req') ip' d').0 ≡ refusal))
    × (((t : EnrollmentToken) → ¬ IsGood with_token (bytes "t") 5 t)
        → (response ≡ refusal)
          × (m'.servers ≡ with_token.servers)
          × (m'.agents ≡ with_token.agents)
          × (m'.agent_by_aid ≡ with_token.agent_by_aid)
          × (m'.enrollments ≡ with_token.enrollments))
enroll_once_example =
    enroll_once crypto with_token enroll_request [] draws enroll_request-IsWellFormed

abbrev agent : Option ℕ → Agent
agent revoked_at = record {
  id = bytes "r2";
  org_id = bytes "o1";
  server_id = bytes "srv";
  agent_id = bytes "agt";
  public_key = key;
  protocol_version = bytes "1.0";
  revoked_at = revoked_at;
  last_seen_at = 6;
}

abbrev with_agent : Option ℕ → Memory
with_agent revoked_at = (create_agent with_token (agent revoked_at) []).1

abbrev reenroll_request : ReenrollRequest
reenroll_request = record {
  installation_id = bytes "i";
  public_key = key;
  previous_agent_id = [];
  protocol_version = bytes "1.0";
  fingerprint = [];
  enrollment_token = bytes "t";
}

revoked_row : Dict.get (with_agent (some 8)).agents (bytes "r2") ≡ some (agent (some 8))
unfolding create_agent create_enrollment_token Dict.get Dict.put same_text
revoked_row = refl

all_revoked : AreRevoked (with_agent (some 8)) key
unfolding create_agent create_enrollment_token Dict.values Dict.put same_text
all_revoked = (λ e. (8, refl), tt)

reenroll_refused_example :
    let (response, m') =
      (handle_reenroll crypto
        (with_agent (some 8))
        []
        (signed reenroll_path (bytes "100000") (bytes "n") (bytes "{}"))
        (bytes "{}")
        (some reenroll_request)
        []
        (100 * second)
        (100 * second)
        draws).0 in
    IsFailure response × SameFleet (with_agent (some 8)) m'
reenroll_refused_example =
    reenroll_refused crypto (with_agent (some 8)) []
      (signed reenroll_path (bytes "100000") (bytes "n") (bytes "{}")) (bytes "{}") reenroll_request
      [] (100 * second) (100 * second) draws
      (revoked (bytes "r2") (agent (some 8)) revoked_row refl all_revoked)

abbrev decoder : Decoder
decoder = record {
  envelope = λ body.
      some (record {
        type = bytes "logs";
        agent_id = bytes "agt";
        protocol = bytes "1.0";
        body = body;
      });
  hostname = λ body. body;
}

ingest_authentic_example :
    let m' =
      (handle_ingest crypto decoder
        (with_agent none)
        []
        (signed ingest_path (bytes "100000") (bytes "n") (bytes "{}"))
        (bytes "{}")
        (100 * second)
        (100 * second)
        (100 * second)
        (bytes "r4")).0.1 in
    (m' ≡ with_agent none)
    ⊎ ((a : Agent) × IsLive (with_agent none) (bytes "agt") a
        × IsProven crypto []
            (signed ingest_path (bytes "100000") (bytes "n") (bytes "{}"))
            (bytes "{}")
            a.public_key
            ingest_path
            (100 * second)
        × IsApplied decoder (with_agent none) a (bytes "{}") (100 * second) (bytes "r4") m')
ingest_authentic_example =
    ingest_authentic crypto decoder (with_agent none) []
      (signed ingest_path (bytes "100000") (bytes "n") (bytes "{}")) (bytes "{}") (100 * second)
      (100 * second) (100 * second) (bytes "r4")
