-- ===== src/Account.antt =====
-- apps/api/internal/httpx: signing in and out (handlers_auth.go), the change of a password
-- (handlers_account.go), and the sessions that they issue (handlers_common.go).
pub mod Rotation
pub mod Setup
pub mod Email
use pulse_frix.Prelude.{
  ℕ, Bool, true, false, not, ◌||◌, Option, none, some, List, [], ◌∷◌, ◌++◌, Text, bytes, text_eq,
  ◌==◌, if◌then◌else◌,
}
use pulse_frix.Dict.{Dict}
use pulse_frix.Model.{Session, User, Membership}
use pulse_frix.Store.{Memory, Result, ok, err, Error}
use pulse_frix.Store.Users.{find_login_by_email, get_user, update_user_password}
use pulse_frix.Store.Sessions.{create_session, delete_session, delete_sessions_for_user}
use pulse_frix.Credentials.{validate_password_policy, normalize_email}
use pulse_frix.Access.{Principal}
use pulse_frix.Api.{
  dash, Crypto, Draws, Response, fail, json, code_auth, code_validation, code_internal, hash_token,
  record_audit,
}

-- The password hashing of auth/password.go: `verify password hash`, and `hash`, which may refuse.
pub record Passwords : Type 0 where
  pub verify : Text → Text → Bool
  pub hash : Text → Option Text

-- A session that is issued: the cookie's value, the CSRF secret and the expiry.
pub record Issue : Type 0 where
  pub cookie : Text
  pub csrf_secret : Text
  pub expires_at : ℕ

pub new_session : Crypto → Text → Text → Issue → Session
new_session c org_id user_id i = record {
  id = hash_token c i.cookie;
  user_id = user_id;
  org_id = org_id;
  csrf_secret = i.csrf_secret;
  expires_at = i.expires_at;
}

-- `issueSession`: the store with the session, or `none` for an error, of the draw of the cookie (which
-- is `none` then) or of the write.
pub issue_session : Crypto → Memory → Text → Text → Option Issue → Option Memory
issue_session c m org_id user_id none = none
issue_session c m org_id user_id (some i) =
    let (done, m') = create_session m (new_session c org_id user_id i) in
    elim done [ err _ ↦ none | ok _ ↦ some m' ]

-- The body of a response, its role and permissions left out.
abbrev pub session_payload : Text → Dict Text
session_payload email = (bytes "email", email) ∷ []

pub record LoginRequest : Type 0 where
  pub email : Text
  pub password : Text

abbrev pub Reply : Type 0
Reply = Response × Memory

-- What a login does with the account that the store found.
pub login_as :
    Crypto
    → Passwords
    → Memory
    → Text
    → Text
    → Text
    → Option Issue
    → Draws
    → Result (Option User × Option Membership)
    → Reply
login_as c pw m email password ip i d (ok (some user, some mem)) =
    if pw.verify password user.password_hash
    then elim (issue_session c m mem.org_id user.id i) [
      | none ↦ (fail 500 code_internal (bytes "could not create session"), m)
      | some m' ↦ (
        json 200 (session_payload user.email),
        record_audit m' mem.org_id user.email (bytes "auth.login") (bytes "success") ip [] d,
      )
    ]
    else (
      fail 401 code_auth (bytes "invalid credentials"),
      record_audit m [] email (bytes "auth.login") (bytes "failure") ip [] d,
    )
login_as c pw m email password ip i d _ = (
  fail 401 code_auth (bytes "invalid credentials"),
  record_audit m [] email (bytes "auth.login") (bytes "failure") ip [] d,
)

pub handle_login :
    Crypto → Passwords → Memory → Option LoginRequest → Text → Option Issue → Draws → Reply
handle_login c pw m none ip i d = (fail 400 code_validation (bytes "invalid request body"), m)
handle_login c pw m (some req) ip i d =
    let email = normalize_email req.email in
    if email == [] || req.password == []
    then (fail 400 code_validation (bytes "email and password are required"), m)
    else login_as c pw m email req.password ip i d (find_login_by_email m email)

-- `none` is a request without the cookie.
pub handle_logout : Crypto → Memory → Option Text → Reply
handle_logout c m none = (json 200 ((bytes "status", bytes "logged_out") ∷ []), m)
handle_logout c m (some cookie) = (
  json 200 ((bytes "status", bytes "logged_out") ∷ []),
  (delete_session m (hash_token c cookie)).1,
)

-- `none` where the password is the caller's, else the status and the message.
pub verify_current_password : Passwords → Memory → Principal → Text → Option (ℕ × Text)
verify_current_password pw m p current = elim (get_user m p.org_id p.user_id) [
  | err _ ↦ some (401, bytes "account not found")
  | ok user ↦
      if user.password_hash == []
      then some (409, bytes "this account signs in with an identity provider and has no password")
      else if pw.verify current user.password_hash
      then none
      else some (401, bytes "current password is incorrect")
]

pub record ChangePasswordRequest : Type 0 where
  pub current_password : Text
  pub new_password : Text

abbrev pub sign_in_again : Response
sign_in_again =
    fail 401 code_auth (bytes "password updated " ++ dash ++ bytes " please sign in again")

-- The rotation of the sessions once the password has changed. Without a new session the browser has to
-- sign in again.
pub rotate : Crypto → Memory → Principal → Text → Option Issue → Draws → Reply
rotate c m p ip i d =
    let m' = (delete_sessions_for_user m p.user_id).1 in
    let record_change : Memory → Memory = λ n.
      record_audit n p.org_id p.email (bytes "account.password_change") (bytes "success") ip [] d in
    elim (issue_session c m' p.org_id p.user_id i) [
      | none ↦ (sign_in_again, record_change m')
      | some m'' ↦ (json 200 (session_payload p.email), record_change m'')
    ]

pub store_password : Crypto → Memory → Principal → Text → Text → Option Issue → Draws → Reply
store_password c m p hash ip i d =
    let (done, m') = update_user_password m p.org_id p.user_id hash in
    elim done [
      | err _ ↦ (fail 500 code_internal (bytes "could not update the password"), m')
      | ok _ ↦ rotate c m' p ip i d
    ]

-- What follows the check of the current password.
pub change_verified :
    Crypto
    → Passwords
    → Memory
    → Principal
    → ChangePasswordRequest
    → Text
    → Option Issue
    → Draws
    → Reply
change_verified c pw m p req ip i d = elim (pw.hash req.new_password) [
  | none ↦ (fail 400 code_validation (bytes "password is not acceptable"), m)
  | some hash ↦ store_password c m p hash ip i d
]

pub change_checked :
    Crypto
    → Passwords
    → Memory
    → Principal
    → ChangePasswordRequest
    → Text
    → Option Issue
    → Draws
    → Option (ℕ × Text)
    → Reply
change_checked c pw m p req ip i d none = change_verified c pw m p req ip i d
change_checked c pw m p req ip i d (some (status, message)) = (
  fail status code_auth message,
  record_audit m p.org_id p.email (bytes "account.password_change") (bytes "failure") ip [] d,
)

pub handle_change_password :
    Crypto
    → Passwords
    → Memory
    → Principal
    → Option ChangePasswordRequest
    → Text
    → Option Issue
    → Draws
    → Reply
handle_change_password c pw m p none ip i d =
    (fail 400 code_validation (bytes "invalid request body"), m)
handle_change_password c pw m p (some req) ip i d =
    elim (validate_password_policy req.new_password p.email) [
      | some message ↦ (fail 400 code_validation message, m)
      | none ↦
          if req.new_password == req.current_password
          then (
            fail 400 code_validation (bytes "the new password must differ from the current one"),
            m,
          )
          else change_checked c pw m p req ip i d
              (verify_current_password pw m p req.current_password)
    ]
