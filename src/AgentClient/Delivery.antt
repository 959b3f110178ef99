-- ===== src/AgentClient/Delivery.antt =====
-- A message of an enrolled agent, from the client to the control plane's store and back.
use pulse_frix.Prelude.{
  ℕ, ◌+◌, ◌<◌, ◌^◌, ◌≡◌, ◌≢◌, none, some, [], ◌∷◌, Text, text_eq, arith, ap, same_text_iff, bytes,
}
use pulse_frix.Dict
use pulse_frix.Model.{Agent}
use pulse_frix.Store.{Memory, ok}
use pulse_frix.Store.Agents.{get_agent_by_agent_id}
use pulse_frix.Api.{Response, fail, json}
use pulse_frix.Api.Signing.{Nonces, Headers, valid, verify_signed_request}
use pulse_frix.Api.Ingest.{Decoder, IngestEnvelope, apply_envelope, handle_ingest, ingest_verified}
use pulse_frix.AgentClient.{
  Outside, Signer, Client, Answer, signed, sign_request, ingest_path, do_signed, classify, attempts,
  send,
}
use pulse_frix.AgentClient.Attempts.{envelope_of}
use pulse_frix.AgentClient.Acceptance.{IsScheme, AreClose, sign_request-valid}

abbrev pub status_of : Response → ℕ
status_of (fail status _ _) = status
status_of (json status _) = status

-- The control plane at one time: its store, its nonces, its readings of the clock and the
-- identifier that it draws.
pub record ControlPlane : Type 0 where
  pub decoder : Decoder
  pub memory : Memory
  pub nonces : Nonces
  pub now : ℕ
  pub now' : ℕ
  pub now'' : ℕ
  pub row : Text

abbrev pub ingest_at : ControlPlane → Signer → Headers → Text → (Response × Memory) × Nonces
ingest_at v s h payload =
    handle_ingest s.crypto v.decoder v.memory v.nonces h payload v.now v.now' v.now'' v.row

-- The request at `k` reaches the control plane, and its answer the agent.
abbrev pub Reaches : Outside → Signer → ControlPlane → ℕ → Type 0
Reaches o s v k =
    (h : Headers) (payload : Text)
    → (r : Answer) × (o.answer k (signed ingest_path h payload) ≡ some r)
      × (r.status ≡ status_of (ingest_at v s h payload).0.0)

-- A request that is valid and whose message is applied is accepted, and the store is the new one.
ingest-accepts :
    (v : ControlPlane) (s : Signer) (h : Headers) (payload : Text) (a : Agent)
    (env : IngestEnvelope) (m : Memory)
    → h.agent_id ≢ []
    → get_agent_by_agent_id v.memory h.agent_id ≡ ok a
    → (verify_signed_request s.crypto v.nonces h payload a.public_key ingest_path v.now v.now').0
      ≡ valid
    → v.decoder.envelope payload ≡ some env
    → apply_envelope v.decoder v.memory a env v.now'' v.row ≡ some m
    → (ingest_at v s h payload).0 ≡ (json 202 ((bytes "status", bytes "accepted") ∷ []), m)
unfolding handle_ingest ingest_verified
ingest-accepts v s h payload a env m id registered verified decodes applies =
    ground (arith, id, registered, verified, decodes, applies, same_text_iff h.agent_id [])

-- An attempt that is answered below 300 ends the send.
send-done :
    (o : Outside) (c : Client) (msg_type body : Text) (k : ℕ)
    → do_signed o c ingest_path (envelope_of o c msg_type body k) (k + 1) ≡ none
    → ((send o c msg_type body k).failure ≡ none) × ((send o c msg_type body k).steps ≡ k + 2)
unfolding send attempts
send-done o c msg_type body k e = ground (arith, e)

-- The answer 202 is success.
do_signed-accepted :
    (o : Outside) (c : Client) (payload : Text) (v : ControlPlane) (k : ℕ)
    → Reaches o c.signer v k
    → status_of
        (ingest_at v c.signer
          (sign_request o c.signer c.agent_id ingest_path payload k)
          payload).0.0
      ≡ 202
    → do_signed o c ingest_path payload k ≡ none
unfolding do_signed classify
do_signed-accepted o c payload v k reaches accepted =
    let h = sign_request o c.signer c.agent_id ingest_path payload k in
    let (r, e, same) = reaches h payload in ground (arith, e, same, accepted)

-- The message of an agent whose identifier and public key the control plane holds is accepted at the
-- first attempt, the store is the one that its application gives, and the send reports success.
-- The conditions: the request reaches the control plane, the nonce is not empty and new there, the
-- clocks are a minute apart at most and before the year 2262, the scheme is as `IsScheme` says, and
-- the control plane decodes the envelope and applies it.
pub send-IsDelivered :
    (o : Outside) (c : Client) (v : ControlPlane) (a : Agent) (env : IngestEnvelope) (m : Memory)
    (msg_type body : Text) (k : ℕ)
    → Reaches o c.signer v (k + 1)
    → c.agent_id ≢ []
    → get_agent_by_agent_id v.memory c.agent_id ≡ ok a
    → IsScheme c.signer a.public_key
    → o.nonce (k + 1) ≢ []
    → Dict.get v.nonces (o.nonce (k + 1)) ≡ none
    → o.clock (k + 1) < 2 ^ 63
    → AreClose (o.clock (k + 1)) v.now
    → v.decoder.envelope (envelope_of o c msg_type body k) ≡ some env
    → apply_envelope v.decoder v.memory a env v.now'' v.row ≡ some m
    → ((send o c msg_type body k).failure ≡ none)
      × ((send o c msg_type body k).steps ≡ k + 2)
      × ((ingest_at v c.signer
            (sign_request o c.signer c.agent_id ingest_path
              (envelope_of o c msg_type body k)
              (k + 1))
            (envelope_of o c msg_type body k)).0.1
          ≡ m)
unfolding sign_request
send-IsDelivered o c v a env m msg_type body k reaches id registered scheme nonce new small close
      decodes applies =
    let payload = envelope_of o c msg_type body k in
    let h = sign_request o c.signer c.agent_id ingest_path payload (k + 1) in
    let verified =
      sign_request-valid o c.signer c.agent_id ingest_path payload a.public_key v.nonces (k + 1)
        v.now v.now' scheme nonce new small close in
    let accepted =
      ingest-accepts v c.signer h payload a env m id registered verified decodes applies in
    let (done, steps) =
      send-done o c msg_type body k
        (do_signed-accepted o c payload v (k + 1) reaches (ap (λ x. status_of x.0) accepted)) in
    (done, steps, ap (λ x. x.1) accepted)
