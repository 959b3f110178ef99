-- ===== src/Model.antt =====
-- apps/api/internal/model/model.go: the control plane's entities. A Go string is a `Text`; a time is
-- a number of nanoseconds, and 0 is the zero `time.Time`; a nil pointer is `none`.
-- A string type with named constants is a data type; `other` holds any further string.
use pulse_frix.Prelude.{ℕ, Bool, Option, List, Text}
use pulse_frix.Dict.{Dict}

pub data Health : Type 0 where
  healthy degraded down unknown : Health

pub data Severity : Type 0 where
  info warning critical : Severity
  other : Text → Severity

pub data Role : Type 0 where
  owner admin viewer : Role
  other : Text → Role

pub record Organization : Type 0 where
  pub id : Text
  pub name : Text
  pub created_at : ℕ

pub record User : Type 0 where
  pub id : Text
  pub email : Text
  pub name : Text
  pub password_hash : Text
  pub mfa_secret : Text
  pub created_at : ℕ

pub record Membership : Type 0 where
  pub org_id : Text
  pub user_id : Text
  pub role : Role

pub record Server : Type 0 where
  pub id : Text
  pub org_id : Text
  pub server_id : Text
  pub hostname : Text
  pub mode : Text
  pub status : Health
  pub last_seen_at : ℕ
  pub created_at : ℕ

pub record Agent : Type 0 where
  pub id : Text
  pub org_id : Text
  pub server_id : Text
  pub agent_id : Text
  pub public_key : Text
  pub protocol_version : Text
  pub revoked_at : Option ℕ
  pub last_seen_at : ℕ

pub record EnrollmentToken : Type 0 where
  pub id : Text
  pub org_id : Text
  pub token_hash : Text
  pub expires_at : ℕ
  pub used_at : Option ℕ
  pub fingerprint : Text
  pub created_at : ℕ

-- `for_seconds` and `cooldown_seconds` are Go's `int`: 64-bit two's complement words.
pub record Alert : Type 0 where
  pub id : Text
  pub org_id : Text
  pub name : Text
  pub expr : Text
  pub severity : Severity
  pub for_seconds : ℕ
  pub cooldown_seconds : ℕ
  pub enabled : Bool

pub record AlertInstance : Type 0 where
  pub id : Text
  pub org_id : Text
  pub alert_id : Text
  pub name : Text
  pub severity : Severity
  pub server_id : Text
  pub state : Text
  pub dedup_key : Text
  pub root_cause : Text
  pub affected : List Text
  pub started_at : ℕ
  pub resolved_at : Option ℕ

pub record Event : Type 0 where
  pub id : Text
  pub org_id : Text
  pub server_id : Text
  pub severity : Severity
  pub source : Text
  pub event : Text
  pub prev_state : Text
  pub new_state : Text
  pub ts : ℕ

-- The values of `metadata` are strings everywhere in the code.
pub record AuditEntry : Type 0 where
  pub id : Text
  pub org_id : Text
  pub actor : Text
  pub action : Text
  pub result : Text
  pub ip : Text
  pub metadata : Dict Text
  pub ts : ℕ

pub record Session : Type 0 where
  pub id : Text
  pub user_id : Text
  pub org_id : Text
  pub csrf_secret : Text
  pub expires_at : ℕ
