-- ===== src/Tests/Sending.antt =====
-- The agent's client, its credential and its buffer at concrete inputs.
use pulse_frix.Prelude.{
  ◌*◌, ◌≡◌, refl, false, Option, none, some, [], ◌∷◌, Text, bytes, same_text, same_text_refl, arith,
  text_eq, ◌==◌,
}
use pulse_frix.Dict
use pulse_frix.Duration.{second}
use pulse_frix.Model.{Agent}
use pulse_frix.Store.{Memory, ok, new_memory}
use pulse_frix.Store.Agents.{get_agent_by_agent_id, create_agent}
use pulse_frix.Api.Ingest.{IngestEnvelope, apply_envelope}
use pulse_frix.AgentClient.{
  Outside, Signer, Client, Answer, Request, signed, unsigned, sign_request, send, ingest_path,
  no_answer,
}
use pulse_frix.AgentClient.Acceptance.{IsScheme}
use pulse_frix.AgentClient.Attempts.{envelope_of, IsRun, send-IsRun}
use pulse_frix.AgentClient.Delivery.{ControlPlane, status_of, ingest_at, send-IsDelivered}

abbrev key : Text
key = bytes "0123456789abcdef0123456789abcdef"

-- A scheme in which the signature is the signed text after a byte.
abbrev signer : Signer
signer = record {
  crypto = record {
    sha256_hex = λ s. s;
    decode_base64 = λ s. some s;
    verify = λ key message signature. b's' ∷ message == signature;
  };
  sign = λ m. b's' ∷ m;
  encode_base64 = λ s. s;
}

abbrev agent : Agent
agent = record {
  id = bytes "r2";
  org_id = bytes "o1";
  server_id = bytes "srv";
  agent_id = bytes "agt";
  public_key = key;
  protocol_version = bytes "1.0";
  revoked_at = none;
  last_seen_at = 6;
}

abbrev envelope : IngestEnvelope
envelope = record {
  type = bytes "logs";
  agent_id = bytes "agt";
  protocol = bytes "1.0";
  body = bytes "{}";
}

abbrev server : ControlPlane
server = record {
  decoder = record { envelope = λ _. some envelope; hostname = λ body. body };
  memory = (create_agent new_memory agent []).1;
  nonces = [];
  now = 100 * second;
  now' = 100 * second;
  now'' = 100 * second;
  row = bytes "r4";
}

-- The control plane's ingestion answers the signed requests; the others fail.
abbrev answer_of : Request → Option Answer
answer_of (unsigned _) = none
answer_of (signed path h payload) =
    some (record { status = status_of (ingest_at server signer h payload).0.0; body = [] })

abbrev outside : Outside
outside = record {
  clock = λ k. 99 * second;
  nonce = λ k. bytes "n";
  jitter = λ k. 7;
  cancelled = λ k. false;
  answer = λ k. answer_of;
  message = λ r. [];
  decode = λ body. none;
  encode_envelope = λ e. e.body;
  encode_enroll = λ r. [];
  encode_reenroll = λ r. [];
}

abbrev client : Client
client = record { agent_id = bytes "agt"; signer = signer }

abbrev applied : Memory
applied =
    elim (apply_envelope server.decoder server.memory agent envelope server.now'' server.row) [
      | none ↦ server.memory
      | some m ↦ m
    ]

signer-IsScheme : IsScheme signer key
signer-IsScheme = (λ m e. cc e, λ t. refl, (key, refl, refl, λ m. same_text_refl (b's' ∷ m)))

is_registered : get_agent_by_agent_id server.memory (bytes "agt") ≡ ok agent
unfolding get_agent_by_agent_id create_agent Dict.find Dict.get Dict.put same_text
is_registered = refl

is_applied :
    apply_envelope server.decoder server.memory agent envelope server.now'' server.row
    ≡ some applied
unfolding apply_envelope same_text
is_applied = refl

send_example :
    ((send outside client (bytes "logs") (bytes "{}") 0).failure ≡ none)
    × ((send outside client (bytes "logs") (bytes "{}") 0).steps ≡ 2)
    × ((ingest_at server signer
          (sign_request outside signer
            (bytes "agt")
            ingest_path
            (envelope_of outside client (bytes "logs") (bytes "{}") 0)
            1)
          (envelope_of outside client (bytes "logs") (bytes "{}") 0)).0.1
        ≡ applied)
unfolding Dict.get
send_example =
    send-IsDelivered outside client server agent envelope applied (bytes "logs") (bytes "{}") 0
      (λ h payload. (_, refl, refl)) (λ e. cc e) is_registered signer-IsScheme (λ e. cc e) refl
      (omega arith) (omega arith, omega arith) refl is_applied

send-IsRun_example :
    IsRun outside client
      (envelope_of outside client (bytes "logs") (bytes "{}") 0)
      1
      1
      5
      no_answer
      (send outside client (bytes "logs") (bytes "{}") 0)
send-IsRun_example = send-IsRun outside client (bytes "logs") (bytes "{}") 0
