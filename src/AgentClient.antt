-- ===== src/AgentClient.antt =====
-- agent/internal/protocol/client.go: the agent's signed requests, and what it makes of the answers.
-- The clock, the random bytes, JSON and the network are the functions of `Outside`. The agent counts
-- its dealings with them, so that each is answered for its place in the order.
pub mod Acceptance
pub mod Attempts
pub mod Delivery
use pulse_frix.Prelude.{
  ℕ, zero, suc, ◌+◌, ◌*◌, ◌/◌, ◌^◌, Bool, true, false, ◌&&◌, ◌||◌, Option, none, some, List, [],
  ◌∷◌, ◌++◌, Text, bytes, nat_eq, ◌==◌, ltb, leb, if◌then◌else◌,
}
use pulse_frix.Prelude.Int.{pos}
use pulse_frix.Duration.{second}
use pulse_frix.Duration.Decimal.{format_int}
use pulse_frix.Api.{Crypto}
use pulse_frix.Api.Signing.{Headers, signing_input}

abbrev pub enroll_path : Text
enroll_path = bytes "/api/v1/agents/enroll"

abbrev pub reenroll_path : Text
reenroll_path = bytes "/api/v1/agents/reenroll"

abbrev pub ingest_path : Text
ingest_path = bytes "/api/v1/agents/ingest"

pub record EnrollRequest : Type 0 where
  pub enrollment_token : Text
  pub installation_id : Text
  pub public_key : Text

pub record ReenrollRequest : Type 0 where
  pub installation_id : Text
  pub public_key : Text
  pub previous_agent_id : Text
  pub enrollment_token : Text

pub record EnrollResponse : Type 0 where
  pub server_id : Text
  pub agent_id : Text

-- A message's type, its sender, the time of its envelope and its body.
pub record Envelope : Type 0 where
  pub msg_type : Text
  pub agent_id : Text
  pub timestamp : ℕ
  pub body : Text

-- A request as it leaves: an unsigned enrollment, or a path, the headers and the payload.
pub data Request : Type 0 where
  unsigned : Text → Request
  signed : Text → Headers → Text → Request

-- An answer: its status and its body.
pub record Answer : Type 0 where
  pub status : ℕ
  pub body : Text

-- `answer` is `none` where the request fails in the network; `message` is the sentence that a body
-- or a status line carries (`serverMessage`), and `decode` reads the body of an enrollment.
pub record Outside : Type 0 where
  pub clock : ℕ → ℕ
  pub nonce : ℕ → Text
  pub jitter : ℕ → ℕ
  pub cancelled : ℕ → Bool
  pub answer : ℕ → Request → Option Answer
  pub message : Answer → Text
  pub decode : Text → Option EnrollResponse
  pub encode_envelope : Envelope → Text
  pub encode_enroll : EnrollRequest → Text
  pub encode_reenroll : ReenrollRequest → Text

-- The agent's key: what it signs with, and the encodings of package crypto's results.
pub record Signer : Type 0 where
  pub crypto : Crypto
  pub sign : Text → Text
  pub encode_base64 : Text → Text

pub record Client : Type 0 where
  pub agent_id : Text
  pub signer : Signer

unfoldable pub rebind : Client → Text → Client
rebind c agent_id = record c { agent_id = agent_id }

-- `time.Now().UnixMilli()`, in decimal.
unfoldable pub timestamp_of : ℕ → Text
timestamp_of now = format_int (pos (now / 1000000))

-- The clock is read at `k`, and the nonce is the next one.
unfoldable pub sign_request : Outside → Signer → Text → Text → Text → ℕ → Headers
unfolding timestamp_of
sign_request o s agent_id path payload k =
    let ts = timestamp_of (o.clock k) in
    let nonce = o.nonce k in
    record {
      agent_id = agent_id;
      timestamp = ts;
      nonce = nonce;
      signature = s.encode_base64 (s.sign (signing_input s.crypto path ts nonce payload));
    }

pub data SendFailure : Type 0 where
  no_answer : SendFailure
  unauthorized : Text → SendFailure
  retryable_status : ℕ → SendFailure
  bad_status : ℕ → SendFailure
  context_done : SendFailure
  gave_up : SendFailure → SendFailure

-- `errors.Is(err, ErrUnauthorized)`: also of an error that wraps one.
unfoldable pub is_unauthorized : SendFailure → Bool
is_unauthorized (unauthorized m) = true
is_unauthorized (gave_up f) = is_unauthorized f
is_unauthorized no_answer = false
is_unauthorized (retryable_status n) = false
is_unauthorized (bad_status n) = false
is_unauthorized context_done = false

-- What `doSigned` makes of an answer; `none` is success.
unfoldable pub classify : Outside → Option Answer → Option SendFailure
classify o none = some no_answer
classify o (some r) =
    if r.status == 401 || r.status == 403
    then some (unauthorized (o.message r))
    else if leb 500 r.status || r.status == 429
    then some (retryable_status r.status)
    else if leb 300 r.status
    then some (bad_status r.status)
    else none

unfoldable pub do_signed : Outside → Client → Text → Text → ℕ → Option SendFailure
do_signed o c path payload k =
    classify o
      (o.answer k (signed path (sign_request o c.signer c.agent_id path payload k) payload))

-- The wait before a repeated attempt, in nanoseconds.
unfoldable pub backoff : Outside → ℕ → ℕ → ℕ
backoff o attempt k =
    let wait = 2 ^ attempt * 250 * 1000000 + o.jitter k * 1000000 in
    if ltb (30 * second) wait then 30 * second else wait

-- The waits so far, with that before an attempt that is not the first.
unfoldable pub next_waits : Outside → ℕ → ℕ → List ℕ → List ℕ
next_waits o attempt k waits = if ltb 0 attempt then backoff o attempt k ∷ waits else waits

-- What a send comes to: the failure if any, the dealings so far, and the waits.
pub record Sent : Type 0 where
  pub failure : Option SendFailure
  pub steps : ℕ
  pub waits : List ℕ

abbrev max_attempts : ℕ
max_attempts = 5

-- The attempts that are left: `last` is the failure of the one before. Each attempt is one dealing.
unfoldable pub attempts : ℕ → ℕ → Outside → Client → Text → SendFailure → ℕ → List ℕ → Sent
attempts zero attempt o c payload last k waits = record {
  failure = some (gave_up last);
  steps = k;
  waits = waits;
}
attempts (suc left) attempt o c payload last k waits =
    let waits' = next_waits o attempt k waits in
    let failed = do_signed o c ingest_path payload k in
    let rest : SendFailure → Sent = λ f. attempts left (attempt + 1) o c payload f (k + 1) waits' in
    if ltb 0 attempt && o.cancelled k
    then record { failure = some context_done; steps = k + 1; waits = waits' }
    else elim failed [
      | none ↦ record { failure = none; steps = k + 1; waits = waits' }
      | some f ↦
          if is_unauthorized f
          then record { failure = some f; steps = k + 1; waits = waits' }
          else rest f
    ]

-- `Client.Send`, of a body that is JSON.
unfoldable pub send : Outside → Client → Text → Text → ℕ → Sent
send o c msg_type body k =
    let payload =
      o.encode_envelope (record {
        msg_type = msg_type;
        agent_id = c.agent_id;
        timestamp = o.clock k;
        body = body;
      }) in
    attempts max_attempts 0 o c payload no_answer (k + 1) []

pub data Enrolled : Type 0 where
  enrolled : EnrollResponse → Enrolled
  enroll_failed : Enrolled
  reenroll_unsupported : Enrolled
  reenroll_unauthorized : Text → Enrolled

unfoldable pub decoded : Option EnrollResponse → Enrolled
decoded none = enroll_failed
decoded (some r) = enrolled r

-- `protocol.Enroll`
unfoldable pub enroll : Outside → EnrollRequest → ℕ → Enrolled
unfolding decoded
enroll o req k = elim (o.answer k (unsigned (o.encode_enroll req))) [
  | none ↦ enroll_failed
  | some r ↦ if leb 300 r.status then enroll_failed else decoded (o.decode r.body)
]

-- `protocol.Reenroll`
unfoldable pub reenroll : Outside → Signer → ReenrollRequest → ℕ → Enrolled
unfolding decoded
reenroll o s req k =
    let payload = o.encode_reenroll req in
    let headers = sign_request o s req.previous_agent_id reenroll_path payload k in
    elim (o.answer k (signed reenroll_path headers payload)) [
      | none ↦ enroll_failed
      | some r ↦
          if r.status == 404
          then reenroll_unsupported
          else if r.status == 401 || r.status == 403
          then reenroll_unauthorized (o.message r)
          else if leb 300 r.status
          then enroll_failed
          else decoded (o.decode r.body)
    ]
