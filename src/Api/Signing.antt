-- ===== src/Api/Signing.antt =====
-- handlers_agents.go, the proof of key possession in the headers of an agent's request, and the
-- cache of nonces that have been used.
pub mod Replay
use pulse_frix.Prelude.{
  ℕ, ◌+◌, ◌*◌, Bool, true, false, not, ◌||◌, Option, none, some, List, [], ◌∷◌, ◌++◌, Text, bytes,
  text_eq, nat_eq, ◌==◌, length, ltb, if◌then◌else◌,
}
use pulse_frix.Dict
use pulse_frix.Dict.{Dict}
use pulse_frix.Prelude.Int.{ℤ}
use pulse_frix.Duration.{parse_int, is_within, second}
use pulse_frix.Api.{Crypto}

-- `nonceCache.seen`
abbrev pub Nonces : Type 0
Nonces = Dict ℕ

-- `now.Sub(t) > 2*time.Minute`
abbrev pub is_old : ℕ → ℕ → Bool
is_old now t = ltb (t + 120 * second) now

unfoldable pub check_and_store : Nonces → Text → ℕ → Bool × Nonces
check_and_store seen nonce now = elim (Dict.get seen nonce) [
  | some _ ↦ (false, seen)
  | none ↦ (true, Dict.put (Dict.remove_where (is_old now) seen) nonce now)
]

pub record Headers : Type 0 where
  pub agent_id : Text
  pub timestamp : Text
  pub nonce : Text
  pub signature : Text

pub data Verdict : Type 0 where
  valid : Verdict
  invalid : Text → Verdict

-- `ed25519.PublicKeySize`
abbrev public_key_size : ℕ
public_key_size = 32

unfoldable pub signing_input : Crypto → Text → Text → Text → Text → Text
signing_input c path ts nonce body =
    bytes "POST|" ++ path ++ bytes "|" ++ ts ++ bytes "|" ++ nonce ++ bytes "|" ++ c.sha256_hex body

-- What follows the nonce: the key, the signature's encoding, the signature.
unfoldable pub check_signature : Crypto → Headers → Text → Text → Text → Verdict
check_signature c h body public_key path = elim (c.decode_base64 public_key) [
  | none ↦ invalid (bytes "invalid agent key")
  | some key ↦
      if length key == public_key_size
      then elim (c.decode_base64 h.signature) [
        | none ↦ invalid (bytes "invalid signature encoding")
        | some sig ↦
            if c.verify key (signing_input c path h.timestamp h.nonce body) sig
            then valid
            else invalid (bytes "signature verification failed")
      ]
      else invalid (bytes "invalid agent key")
]

-- The test of the timestamp: it parses, and is at most a minute off the clock.
unfoldable pub is_fresh : Text → ℕ → Bool
is_fresh ts now = elim (parse_int ts) [ none ↦ false | some t ↦ is_within (60 * second) now t ]

-- The two readings of the clock: that of the timestamp's test, and that of the nonce cache.
unfoldable pub verify_signed_request :
    Crypto → Nonces → Headers → Text → Text → Text → ℕ → ℕ → Verdict × Nonces
unfolding check_signature is_fresh
verify_signed_request c seen h body public_key path now now' =
    if h.timestamp == [] || h.nonce == [] || h.signature == []
    then (invalid (bytes "missing signature headers"), seen)
    else if not (is_fresh h.timestamp now)
    then (invalid (bytes "stale or invalid timestamp"), seen)
    else let (unseen, seen') = check_and_store seen h.nonce now' in
      if unseen
      then (check_signature c h body public_key path, seen')
      else (invalid (bytes "replayed request"), seen')
