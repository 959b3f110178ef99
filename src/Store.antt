-- ===== src/Store.antt =====
-- apps/api/internal/store: the contract of store.go and the in-memory implementation, memory.go.
-- A method is a function of the state; one that writes returns the result and the new state. What
-- the source draws from the clock or from `auth.NewID` is an argument. The mutex is left out: every
-- method holds it from its first access of the state to its last, so methods do not interleave.
pub mod Users
pub mod Sessions
pub mod Sorting
pub mod Servers
pub mod Agents
pub mod Snapshots
pub mod Alerts
pub mod Journal
pub mod Tenants
use pulse_frix.Prelude.{ℕ, List, [], ◌++◌, Text, bytes}
use pulse_frix.Dict.{Dict}
use pulse_frix.Model.{
  Organization, User, Membership, Session, Server, Agent, EnrollmentToken, Alert, AlertInstance,
  Event, AuditEntry,
}

-- `ErrNotFound`, `ErrAlreadyExists`; `nil_deref` is the panic on a nil pointer.
pub data Error : Type 0 where
  not_found already_exists nil_deref : Error

pub data Result {ℓ} (A : Type ℓ) : Type ℓ where
  ok : A → Result A
  err : Error → Result A

abbrev pub Done : Type 0
Done = Result (Unit {0})

pub record MetricSample : Type 0 where
  pub ts : ℕ
  pub sample : Text

pub record Memory : Type 0 where
  pub orgs : Dict Organization
  pub users : Dict User
  pub users_by_mail : Dict Text
  pub oidc_by_key : Dict Text
  pub memberships : Dict Membership
  pub sessions : Dict Session
  pub servers : Dict Server
  pub agents : Dict Agent
  pub agent_by_aid : Dict Text
  pub enrollments : Dict EnrollmentToken
  pub discovery : Dict Text
  pub logs : Dict Text
  pub metrics : Dict Text
  pub metric_hist : Dict (List MetricSample)
  pub alerts : Dict Alert
  pub instances : Dict AlertInstance
  pub events : List Event
  pub audit : List AuditEntry

abbrev pub new_memory : Memory
new_memory = record {
  orgs = [];
  users = [];
  users_by_mail = [];
  oidc_by_key = [];
  memberships = [];
  sessions = [];
  servers = [];
  agents = [];
  agent_by_aid = [];
  enrollments = [];
  discovery = [];
  logs = [];
  metrics = [];
  metric_hist = [];
  alerts = [];
  instances = [];
  events = [];
  audit = [];
}

unfoldable pub key : Text → Text → Text
key org_id server_id = org_id ++ (bytes "/" ++ server_id)
