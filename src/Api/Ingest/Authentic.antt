-- ===== src/Api/Ingest/Authentic.antt =====
-- Ingestion: who can write, and where.
use pulse_frix.Prelude.{
  ℕ, ◌≡◌, ◌∙◌, refl, sym, ap, true, false, none, some, [], Text, text_eq, ◌==◌, arith, ◌⊎◌, inl,
  inr, Bool-cases, Option-cases,
}
use pulse_frix.Dict
use pulse_frix.Dict.{HasUniqueKeys}
use pulse_frix.Model.{Agent}
use pulse_frix.Store.{Memory, Result, ok, err, Error}
use pulse_frix.Store.Agents.{get_agent_by_agent_id}
use pulse_frix.Api.{Crypto}
use pulse_frix.Api.Signing.{
  Nonces, Headers, Verdict, valid, invalid, verify_signed_request, signing_input, check_signature,
  is_fresh, check_and_store,
}
use pulse_frix.Api.Ingest.{
  Decoder, IngestEnvelope, handle_ingest, ingest_verified, apply_envelope, ingest_path,
}

-- The proof that a request carries: a key that decodes, a signature that verifies over the path, the
-- time, the nonce and the body, a time that is fresh, and a nonce that was not used.
pub record IsProven (c : Crypto) (seen : Nonces) (h : Headers) (body public_key path : Text)
    (now : ℕ) : Type 0 where
  pub verification_key : Text
  pub proof : Text
  pub key_decodes : c.decode_base64 public_key ≡ some verification_key
  pub proof_decodes : c.decode_base64 h.signature ≡ some proof
  pub verifies :
      c.verify verification_key (signing_input c path h.timestamp h.nonce body) proof ≡ true
  pub fresh : is_fresh h.timestamp now ≡ true
  pub unused : Dict.get seen h.nonce ≡ none

Result-cases : {A : Type 0} (r : Result A) → ((a : A) × (r ≡ ok a)) ⊎ ((e : Error) × (r ≡ err e))
Result-cases (ok a) = inl (a, refl)
Result-cases (err e) = inr (e, refl)

Verdict-cases : (v : Verdict) → (v ≡ valid) ⊎ ((message : Text) × (v ≡ invalid message))
Verdict-cases valid = inl refl
Verdict-cases (invalid message) = inr (message, refl)

signature_proven :
    (c : Crypto) (h : Headers) (body public_key path : Text)
    → check_signature c h body public_key path ≡ valid
    → (key : Text) × (sig : Text) × (c.decode_base64 public_key ≡ some key)
      × (c.decode_base64 h.signature ≡ some sig)
      × (c.verify key (signing_input c path h.timestamp h.nonce body) sig ≡ true)
unfolding check_signature
signature_proven c h body public_key path v = elim (Option-cases (c.decode_base64 public_key)) [
  | inl e ↦ ground (arith, e)
  | inr (key, e) ↦ elim (Option-cases (c.decode_base64 h.signature)) [
    | inl e' ↦ ground (arith, e, e')
    | inr (sig, e') ↦ (key, sig, e, e', ground (arith, e, e'))
  ]
]

request-IsProven :
    (c : Crypto) (seen : Nonces) (h : Headers) (body public_key path : Text) (now now' : ℕ)
    → (verify_signed_request c seen h body public_key path now now').0 ≡ valid
    → IsProven c seen h body public_key path now
unfolding verify_signed_request check_and_store
request-IsProven c seen h body public_key path now now' v =
    let signed : check_signature c h body public_key path ≡ valid = ground arith in
    let (key, sig, e, e', verifies) = signature_proven c h body public_key path signed in
    record {
      verification_key = key;
      proof = sig;
      key_decodes = e;
      proof_decodes = e';
      verifies = verifies;
      fresh = ground arith;
      unused = ground arith;
    }

-- The message of the body, as the agent `a` sent it, is what changed the store.
abbrev pub IsApplied : Decoder → Memory → Agent → Text → ℕ → Text → Memory → Type 0
IsApplied dec m a body now row m' =
    (env : IngestEnvelope) × (dec.envelope body ≡ some env)
    × (apply_envelope dec m a env now row ≡ some m')

ingest_verified-IsApplied :
    (dec : Decoder) (m : Memory) (a : Agent) (body : Text) (now : ℕ) (row : Text)
    → let m' = (ingest_verified dec m a body now row).1 in
      (m' ≡ m) ⊎ IsApplied dec m a body now row m'
unfolding ingest_verified
ingest_verified-IsApplied dec m a body now row = elim (Option-cases (dec.envelope body)) [
  | inl e ↦ rw (e, ingest_verified) (inl refl)
  | inr (env, e) ↦ elim (Option-cases (apply_envelope dec m a env now row)) [
    | inl e' ↦ rw (e, e', ingest_verified) (inl refl)
    | inr (m', e') ↦ inr (env, e, e' ∙ rw (e, e', ingest_verified))
  ]
]

handle_ingest_lem :
    (c : Crypto) (dec : Decoder) (m : Memory) (seen : Nonces) (h : Headers) (body : Text)
    (now now' now'' : ℕ) (row : Text) (a : Agent)
    → (h.agent_id == []) ≡ false
    → get_agent_by_agent_id m h.agent_id ≡ ok a
    → (verify_signed_request c seen h body a.public_key ingest_path now now').0 ≡ valid
    → (handle_ingest c dec m seen h body now now' now'' row).0
      ≡ ingest_verified dec m a body now'' row
unfolding handle_ingest
handle_ingest_lem c dec m seen h body now now' now'' row a e e' v = rw (e, e', v, handle_ingest)

-- The row that the index has for an agent's identifier, which is not revoked.
pub record IsLive (m : Memory) (agent_id : Text) (a : Agent) : Type 0 where
  pub row_id : Text
  pub indexed : Dict.get m.agent_by_aid agent_id ≡ some row_id
  pub stored : Dict.get m.agents row_id ≡ some a
  pub not_revoked : a.revoked_at ≡ none

get_agent_by_agent_id-IsLive :
    (m : Memory) (agent_id : Text) (a : Agent)
    → get_agent_by_agent_id m agent_id ≡ ok a
    → IsLive m agent_id a
unfolding get_agent_by_agent_id
get_agent_by_agent_id-IsLive m agent_id a e =
    elim (Option-cases (Dict.get m.agent_by_aid agent_id)) [
      | inl gone ↦ absurd (ground (arith, e, gone))
      | inr (i, indexed) ↦ elim (Option-cases (Dict.get m.agents i)) [
        | inl gone ↦ absurd (ground (arith, e, indexed, gone))
        | inr (b, stored) ↦ elim (Option-cases b.revoked_at) [
          | inr (t, late) ↦ absurd (ground (arith, e, indexed, stored, late))
          | inl live ↦
              let same : b ≡ a = ground (arith, e, indexed, stored, live) in
              record {
                row_id = i;
                indexed = indexed;
                stored = stored ∙ ap some same;
                not_revoked = sym (ap (λ (g : Agent). g.revoked_at) same) ∙ live;
              }
        ]
      ]
    ]

-- Ingestion leaves the store as it was, or the identifier that the request names has the row of an
-- agent that is not revoked, its recorded key verifies the request's signature over the ingest path, the timestamp, the nonce and the body,
-- the timestamp is fresh, the nonce was not in the cache, and the new store is the old one with the
-- decoded message applied for that agent.
pub ingest_authentic :
    (c : Crypto) (dec : Decoder) (m : Memory) (seen : Nonces) (h : Headers) (body : Text)
    (now now' now'' : ℕ) (row : Text)
    → let m' = (handle_ingest c dec m seen h body now now' now'' row).0.1 in
      (m' ≡ m)
      ⊎ ((a : Agent) × IsLive m h.agent_id a
          × IsProven c seen h body a.public_key ingest_path now
          × IsApplied dec m a body now'' row m')
unfolding handle_ingest
ingest_authentic c dec m seen h body now now' now'' row = elim (Bool-cases (h.agent_id == [])) [
  | inl e ↦ rw (e, handle_ingest) (inl refl)
  | inr e ↦ elim (Result-cases (get_agent_by_agent_id m h.agent_id)) [
    | inr (x, e') ↦ rw (e, e', handle_ingest) (inl refl)
    | inl (a, e') ↦
        elim (Verdict-cases
          (verify_signed_request c seen h body a.public_key ingest_path now now').0) [
            | inr (message, v) ↦ rw (e, e', v, handle_ingest) (inl refl)
            | inl v ↦
                let same = handle_ingest_lem c dec m seen h body now now' now'' row a e e' v in
                elim (ingest_verified-IsApplied dec m a body now'' row) [
                  | inl left ↦ inl (rw same left)
                  | inr (env, decodes, applied) ↦ inr (
                    a,
                    get_agent_by_agent_id-IsLive m h.agent_id a e',
                    request-IsProven c seen h body a.public_key ingest_path now now' v,
                    (env, decodes, rw same applied),
                  )
                ]
          ]
  ]
]
