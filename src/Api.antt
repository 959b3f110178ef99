-- ===== src/Api.antt =====
-- apps/api/internal/httpx: the handlers of the control plane, over the store. A handler is a function
-- of the server's state and of the request with its body decoded; it returns the response and the
-- new state. What comes from outside the repository's code is an argument: the clock's readings,
-- the random identifiers and tokens, and the cryptographic primitives.
pub mod Signing
pub mod Registration
pub mod Ingest
use pulse_frix.Prelude.{ℕ, Bool, Option, List, [], ◌∷◌, Text, bytes}
use pulse_frix.Dict.{Dict}
use pulse_frix.Model.{AuditEntry}
use pulse_frix.Store.{Memory}
use pulse_frix.Store.Journal.{append_audit}

-- The primitives of crypto/sha256, crypto/ed25519 and encoding/base64 that the code calls.
-- `verify key message signature`.
pub record Crypto : Type 0 where
  pub sha256_hex : Text → Text
  pub decode_base64 : Text → Option Text
  pub verify : Text → Text → Text → Bool

-- A response: `Fail` with its status, code and message, or `JSON` with its status and the fields
-- of its body.
pub data Response : Type 0 where
  fail : ℕ → Text → Text → Response
  json : ℕ → Dict Text → Response

abbrev pub code_auth : Text
code_auth = bytes "AUTH_ERROR"

abbrev pub code_validation : Text
code_validation = bytes "VALIDATION_ERROR"

abbrev pub code_not_found : Text
code_not_found = bytes "SERVER_NOT_FOUND"

-- A long dash in UTF-8.
abbrev pub dash : Text
dash = 226 ∷ 128 ∷ 148 ∷ []

abbrev pub code_internal : Text
code_internal = bytes "INTERNAL_ERROR"

-- What a request draws from `auth.NewID`: the public identifiers of a server and of an agent, the
-- row identifiers of both and of the audit entry; and the readings of the clock when an enrollment
-- token is used or made, when a row is made, and when the audit entry is written.
pub record Draws : Type 0 where
  pub server_id : Text
  pub agent_id : Text
  pub server_row : Text
  pub agent_row : Text
  pub audit_row : Text
  pub used_at : ℕ
  pub made_at : ℕ
  pub audit_at : ℕ

-- `auth.HashToken`
abbrev pub hash_token : Crypto → Text → Text
hash_token c plain = c.sha256_hex plain

-- `audit.Recorder.Record`, without the copy to the log.
unfoldable pub record_audit : Memory → Text → Text → Text → Text → Text → Dict Text → Draws → Memory
record_audit m org_id actor action result ip metadata d =
    (append_audit m
      (record {
        id = [];
        org_id = org_id;
        actor = actor;
        action = action;
        result = result;
        ip = ip;
        metadata = metadata;
        ts = d.audit_at;
      })
      d.audit_row).1
