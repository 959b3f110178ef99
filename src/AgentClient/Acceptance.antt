-- ===== src/AgentClient/Acceptance.antt =====
-- A request that the agent signs, at the control plane that verifies it.
use pulse_frix.Prelude.{
  ℕ, ◌+◌, ◌*◌, ◌/◌, ◌≤◌, ◌<◌, ◌^◌, ◌≡◌, ◌≢◌, refl, true, none, some, [], Text, text_eq, arith,
  length, same_text_iff,
}
use pulse_frix.Dict
use pulse_frix.Prelude.Int.{pos}
use pulse_frix.Duration.{is_within, second}
use pulse_frix.Duration.Decimal.{parse_int-format_int, format_int-nonempty}
use pulse_frix.Api.{Crypto}
use pulse_frix.Api.Signing.{
  Nonces, Headers, valid, is_fresh, check_signature, check_and_store, verify_signed_request,
  signing_input,
}
use pulse_frix.AgentClient.{Outside, Signer, sign_request, timestamp_of}

-- The signature scheme: what the key signs verifies under the public key, which is 32 bytes; an
-- encoding is decoded to what was encoded; and an encoded signature is not empty.
abbrev pub IsScheme : Signer → Text → Type 0
IsScheme s public_key =
    ((m : Text) → s.encode_base64 (s.sign m) ≢ [])
    × ((t : Text) → s.crypto.decode_base64 (s.encode_base64 t) ≡ some t)
    × ((key : Text) × (s.crypto.decode_base64 public_key ≡ some key)
        × (length key ≡ 32)
        × ((m : Text) → s.crypto.verify key m (s.sign m) ≡ true))

-- The server's clock is at most a minute from the client's, whose reading is cut to milliseconds.
abbrev pub AreClose : ℕ → ℕ → Type 0
AreClose sent now =
    (now ≤ sent / 1000000 * 1000000 + 60 * second) × (sent / 1000000 * 1000000 ≤ now + 60 * second)

is_within_near :
    (ms now : ℕ)
    → now ≤ ms * 1000000 + 60 * second
    → ms * 1000000 ≤ now + 60 * second
    → is_within (60 * second) now (pos ms) ≡ true
unfolding is_within
is_within_near ms now a b = ground arith

timestamp_is_fresh :
    (sent now : ℕ) → sent < 2 ^ 63 → AreClose sent now → is_fresh (timestamp_of sent) now ≡ true
unfolding is_fresh timestamp_of
timestamp_is_fresh sent now h (a, b) =
    rw (is_fresh, timestamp_of, parse_int-format_int (sent / 1000000) (omega (arith, h)))
      (is_within_near (sent / 1000000) now a b)

signature_is_checked :
    (s : Signer) (h : Headers) (body public_key path : Text)
    → IsScheme s public_key
    → h.signature ≡ s.encode_base64 (s.sign (signing_input s.crypto path h.timestamp h.nonce body))
    → check_signature s.crypto h body public_key path ≡ valid
unfolding check_signature
signature_is_checked s h body public_key path (_, inverse, (key, e, size, verifies)) signed =
    let m = signing_input s.crypto path h.timestamp h.nonce body in
    rw (check_signature, e, size, signed, inverse (s.sign m), verifies m) refl

-- The checks pass one by one.
verify_passes :
    (c : Crypto) (seen : Nonces) (h : Headers) (body public_key path : Text) (now now' : ℕ)
    → h.timestamp ≢ []
    → h.nonce ≢ []
    → h.signature ≢ []
    → is_fresh h.timestamp now ≡ true
    → Dict.get seen h.nonce ≡ none
    → check_signature c h body public_key path ≡ valid
    → (verify_signed_request c seen h body public_key path now now').0 ≡ valid
unfolding verify_signed_request check_and_store
verify_passes c seen h body public_key path now now' ts nonce sig fresh new checked = ground (
  arith,
  ts,
  nonce,
  sig,
  fresh,
  new,
  checked,
  same_text_iff h.timestamp [],
  same_text_iff h.nonce [],
  same_text_iff h.signature [],
)

timestamp_of-nonempty : (now : ℕ) → timestamp_of now ≢ []
unfolding timestamp_of
timestamp_of-nonempty now h = format_int-nonempty (now / 1000000) h

-- What the client signs at path `path` is what the control plane verifies there: the request is
-- valid for the public key, if its nonce is not empty and not in the cache, and the two clocks are a
-- minute apart at most. The scheme's conditions are those of `IsScheme`; the clock is before the
-- year 2262.
pub sign_request-valid :
    (o : Outside) (s : Signer) (agent_id path payload public_key : Text) (seen : Nonces)
    (k now now' : ℕ)
    → IsScheme s public_key
    → o.nonce k ≢ []
    → Dict.get seen (o.nonce k) ≡ none
    → o.clock k < 2 ^ 63
    → AreClose (o.clock k) now
    → (verify_signed_request s.crypto seen
        (sign_request o s agent_id path payload k)
        payload
        public_key
        path
        now
        now').0
      ≡ valid
unfolding sign_request
sign_request-valid o s agent_id path payload public_key seen k now now' scheme nonce new small
      close =
    let h = sign_request o s agent_id path payload k in
    verify_passes s.crypto seen h payload public_key path now now'
      (timestamp_of-nonempty (o.clock k)) nonce (scheme.0 _)
      (timestamp_is_fresh (o.clock k) now small close) new
      (signature_is_checked s h payload public_key path scheme refl)
