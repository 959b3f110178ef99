-- ===== src/Access.antt =====
-- apps/api/internal/rbac/rbac.go and the middleware of apps/api/internal/httpx/middleware.go: who a
-- request is from, and what a role may do.
pub mod Roles
pub mod Sessions
use pulse_frix.Prelude.{
  ℕ, Bool, true, false, not, ◌&&◌, Option, none, some, List, [], ◌∷◌, Text, bytes, any, nat_eq,
  text_eq, ◌==◌, if◌then◌else◌,
}
use pulse_frix.Dict.{Dict}
use pulse_frix.Strings.{trim_space}
use pulse_frix.Model.{Role, owner, admin, viewer, other, Membership, User, Session}
use pulse_frix.Store.{Memory, Result, ok, err}
use pulse_frix.Store.Users.{get_user, get_membership}
use pulse_frix.Store.Sessions.{get_session}
use pulse_frix.Api.{Crypto, hash_token}

-- A permission of another name is `unlisted`.
pub data Permission : Type 0 where
  server_read server_manage alert_read alert_manage event_read integration_manage ssh_exec
        user_manage org_manage audit_read :
      Permission
  unlisted : Text → Permission

-- `rolePermissions`, in the order of the source.
pub role_permissions : Role → List Permission
role_permissions viewer = server_read ∷ alert_read ∷ event_read ∷ []
role_permissions admin =
    server_read ∷ alert_read ∷ event_read ∷ server_manage ∷ alert_manage ∷ integration_manage
    ∷ audit_read ∷ ssh_exec ∷ []
role_permissions owner =
    server_read ∷ alert_read ∷ event_read ∷ server_manage ∷ alert_manage ∷ integration_manage
    ∷ audit_read ∷ user_manage ∷ org_manage ∷ ssh_exec ∷ []
role_permissions (other _) = []

pub rank : Permission → ℕ
rank server_read = 0
rank server_manage = 1
rank alert_read = 2
rank alert_manage = 3
rank event_read = 4
rank integration_manage = 5
rank ssh_exec = 6
rank user_manage = 7
rank org_manage = 8
rank audit_read = 9
rank (unlisted _) = 10

-- A role that is no key of the table has no permission.
pub can : Role → Permission → Bool
unfolding rank role_permissions
can role p = any (λ q. rank q == rank p) (role_permissions role)

pub record Principal : Type 0 where
  pub user_id : Text
  pub org_id : Text
  pub email : Text
  pub role : Role
  pub has_password : Bool

-- `none` is a nil pointer; the empty role is `other []`.
pub role_of : Option Membership → Role
role_of none = viewer
role_of (some mem) = elim mem.role [
  | owner ↦ owner
  | admin ↦ admin
  | viewer ↦ viewer
  | other s ↦ if s == [] then viewer else other s
]

-- The membership that `GetMembership` returns beside an error is nil.
pub membership_of : Result Membership → Option Membership
membership_of (ok mem) = some mem
membership_of (err _) = none

pub principal_of : Memory → Session → User → Principal
principal_of m s u = record {
  user_id = u.id;
  org_id = s.org_id;
  email = u.email;
  role = role_of (membership_of (get_membership m s.org_id s.user_id));
  has_password = not (u.password_hash == []);
}

-- The principal of a session.
pub principal_of_session : Memory → Result Session → Option Principal
principal_of_session m (err _) = none
principal_of_session m (ok s) = elim (get_user m s.org_id s.user_id) [
  | err _ ↦ none
  | ok u ↦ some (principal_of m s u)
]

-- `cookie` is the value of the session's cookie, empty when there is none.
pub authenticate : Crypto → Memory → Text → ℕ → Option Principal
authenticate c m cookie now =
    if cookie == [] then none else principal_of_session m (get_session m (hash_token c cookie) now)

-- The headers that `CORS` adds, and whether it answers the request itself, with 204.
pub cors : List Text → Text → Text → Dict Text × Bool
cors origins origin method = (
  if not (origin == []) && any (λ o. o == origin) origins
      then (bytes "Access-Control-Allow-Origin", origin)
        ∷ (bytes "Vary", bytes "Origin")
        ∷ (bytes "Access-Control-Allow-Credentials", bytes "true")
        ∷ (bytes "Access-Control-Allow-Headers", bytes "Content-Type, X-CSRF-Token")
        ∷ (bytes "Access-Control-Allow-Methods", bytes "GET, POST, PUT, DELETE, OPTIONS")
        ∷ []
      else [],
  method == bytes "OPTIONS",
)

before_comma : Text → Text
before_comma [] = []
before_comma (c ∷ s) = let rest = before_comma s in if c == b',' then [] else c ∷ rest

-- `split_host_port` is `net.SplitHostPort`: the host, or `none` where it fails.
pub client_ip : (Text → Option Text) → Text → Text → Text
unfolding before_comma
client_ip split_host_port forwarded remote_addr =
    let host : Text = elim (split_host_port remote_addr) [ none ↦ remote_addr | some h ↦ h ] in
    if forwarded == [] then host else trim_space (before_comma forwarded)
