-- ===== src/PulseAgent.antt =====
-- agent/cmd/pulse-agent/main.go: the agent's credential, how it is recovered, and the buffer of the
-- samples that were not sent. Discovery, collection and the files of the state directory are I/O, and
-- so is `config.SaveIdentity`, whose failure is only logged.
pub mod Credential
pub mod Flush
pub mod Spacing
pub mod Recovery
use pulse_frix.Prelude.{
  ℕ, ◌+◌, ◌*◌, Bool, true, false, not, ◌&&◌, Option, none, some, List, [], ◌∷◌, Text, bytes,
  text_eq, ◌==◌, leb, if◌then◌else◌,
}
use pulse_frix.Duration.{second}
use pulse_frix.RingBuffer.{RingBuffer, Item, push, drain}
use pulse_frix.AgentClient.{
  Outside, Client, rebind, SendFailure, is_unauthorized, send, EnrollResponse, EnrollRequest,
  ReenrollRequest, Enrolled, enrolled, enroll_failed, reenroll_unsupported, reenroll_unauthorized,
  enroll, reenroll,
}

-- `config.Identity`, without the private key, which is the signer's.
pub record Identity : Type 0 where
  pub server_id : Text
  pub agent_id : Text
  pub installation_id : Text
  pub public_key : Text
  pub enrolled : Bool

-- `refused_logged` is the only thing that logging keeps.
pub record Enrollment : Type 0 where
  pub identity : Identity
  pub enrollment_token : Text
  pub client : Client
  pub rejected : Bool
  pub refused_logged : Bool
  pub next_attempt : ℕ

abbrev pub credential_retry_every : ℕ
credential_retry_every = 60 * second

abbrev pub credential_refused_retry_every : ℕ
credential_refused_retry_every = 900 * second

unfoldable pub ready : Enrollment → Bool
ready e = e.identity.enrolled && not e.rejected

unfoldable pub due : Enrollment → ℕ → Bool
due e now = leb e.next_attempt now

unfoldable pub adopt : Enrollment → EnrollResponse → Enrollment
adopt e resp = record e {
  identity = record e.identity {
    server_id = resp.server_id;
    agent_id = resp.agent_id;
    enrolled = true;
  };
  rejected = false;
  refused_logged = false;
  client = rebind e.client resp.agent_id;
}

-- What an attempt returns: whether there is a credential, the state, and the dealings so far.
pub record Attempted : Type 0 where
  pub ok : Bool
  pub state : Enrollment
  pub steps : ℕ

-- `enrollment.enroll`, of an answer.
unfoldable pub enroll_as : Enrollment → Enrolled → ℕ → Attempted
enroll_as e (enrolled resp) k = record { ok = true; state = adopt e resp; steps = k }
enroll_as e enroll_failed k = record { ok = false; state = e; steps = k }
enroll_as e reenroll_unsupported k = record { ok = false; state = e; steps = k }
enroll_as e (reenroll_unauthorized m) k = record { ok = false; state = e; steps = k }

abbrev enroll_request : Enrollment → EnrollRequest
enroll_request e = record {
  enrollment_token = e.enrollment_token;
  installation_id = e.identity.installation_id;
  public_key = e.identity.public_key;
}

abbrev pub reenroll_request : Enrollment → ReenrollRequest
reenroll_request e = record {
  installation_id = e.identity.installation_id;
  public_key = e.identity.public_key;
  previous_agent_id = e.identity.agent_id;
  enrollment_token = e.enrollment_token;
}

unfoldable pub enroll_with_token : Outside → Enrollment → ℕ → Attempted
unfolding enroll_as
enroll_with_token o e k =
    if e.enrollment_token == []
    then record { ok = false; state = e; steps = k }
    else enroll_as e (enroll o (enroll_request e) k) (k + 1)

-- `recover`, of an answer.
unfoldable pub recover_as : Outside → Enrollment → Enrolled → ℕ → Attempted
unfolding enroll_with_token
recover_as o e (enrolled resp) k = record { ok = true; state = adopt e resp; steps = k }
recover_as o e reenroll_unsupported k = enroll_with_token o e k
recover_as o e (reenroll_unauthorized m) k = record {
  ok = false;
  state = record e {
    next_attempt = o.clock k + credential_refused_retry_every;
    refused_logged = true;
  };
  steps = k + 1;
}
recover_as o e enroll_failed k = record { ok = false; state = e; steps = k }

unfoldable pub recover : Outside → Enrollment → ℕ → Attempted
unfolding recover_as
recover o e k = recover_as o e (reenroll o e.client.signer (reenroll_request e) k) (k + 1)

unfoldable pub attempt : Outside → Enrollment → ℕ → Attempted
unfolding recover enroll_with_token
attempt o e k =
    let e' = record e { next_attempt = o.clock k + credential_retry_every } in
    if e.identity.enrolled then recover o e' (k + 1) else enroll_with_token o e' (k + 1)

-- A send's failure, if any.
pub record Shipped : Type 0 where
  pub failure : Option SendFailure
  pub state : Enrollment
  pub steps : ℕ

-- After the refusal `f` of a send: `e` has lost its credential.
unfoldable pub repair : Outside → Enrollment → SendFailure → Text → Text → ℕ → Shipped
repair o e f msg_type body k =
    let a = attempt o e (k + 1) in
    let again = send o a.state.client msg_type body a.steps in
    if not (due e (o.clock k))
    then record { failure = some f; state = e; steps = k + 1 }
    else if not a.ok
    then record { failure = some f; state = a.state; steps = a.steps }
    else record { failure = again.failure; state = a.state; steps = again.steps }

-- `enrollment.send`
unfoldable pub ship : Outside → Enrollment → Text → Text → ℕ → Shipped
unfolding repair
ship o e msg_type body k =
    let first = send o e.client msg_type body k in
    elim first.failure [
      | none ↦ record { failure = none; state = e; steps = first.steps }
      | some f ↦
          if is_unauthorized f
          then repair o (record e { rejected = true }) f msg_type body first.steps
          else record { failure = some f; state = e; steps = first.steps }
    ]

-- The case of `credentialTicker`.
unfoldable pub on_credential_tick : Outside → Enrollment → ℕ → Enrollment × ℕ
on_credential_tick o e k =
    let a = attempt o e (k + 1) in
    if not (ready e) && due e (o.clock k) then (a.state, a.steps) else (e, k + 1)

pub record Loop : Type 0 where
  pub enrollment : Enrollment
  pub buffer : RingBuffer
  pub steps : ℕ

-- The loop of `flushBuffer` over the drained items.
unfoldable pub flush_items : Outside → Enrollment → RingBuffer → List Item → ℕ → Loop
flush_items o e buffer [] k = record { enrollment = e; buffer = buffer; steps = k }
flush_items o e buffer (it ∷ items) k =
    let s = ship o e (bytes "metrics") it.payload k in
    let rest = flush_items o s.state buffer items s.steps in
    elim s.failure [
      | none ↦ rest
      | some _ ↦ record { enrollment = s.state; buffer = push buffer it; steps = s.steps }
    ]

unfoldable pub flush_buffer : Outside → Loop → Loop
unfolding flush_items
flush_buffer o a =
    let (items, buffer) = drain a.buffer in flush_items o a.enrollment buffer items a.steps

abbrev pub priority_historical : ℕ
priority_historical = 0

-- The case of `metricsTicker`, for a sample that is encoded as `payload`.
unfoldable pub on_metrics_tick : Outside → Loop → Text → Loop
on_metrics_tick o a payload =
    let s = ship o a.enrollment (bytes "metrics") payload a.steps in
    let a' = record a { enrollment = s.state; steps = s.steps } in
    elim s.failure [
      | none ↦ flush_buffer o a'
      | some _ ↦ record a' {
        buffer = push a.buffer (record { priority = priority_historical; payload = payload });
      }
    ]
