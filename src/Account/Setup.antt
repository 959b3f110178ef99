-- ===== src/Account/Setup.antt =====
-- handlers_setup.go: the wizard that creates the first administrator.
pub mod Closed
use pulse_frix.Prelude.{
  ℕ, Bool, true, false, not, ◌&&◌, Option, none, some, List, [], ◌∷◌, ◌++◌, Text, bytes, nat_eq,
  text_eq, ◌==◌, if◌then◌else◌,
}
use pulse_frix.Model.{Organization, User}
use pulse_frix.Store.{Memory, Result, ok, err, Error, not_found, already_exists}
use pulse_frix.Store.Users.{seed_org_owner, count_users, update_user_email}
use pulse_frix.Credentials.{validate_password_policy, validate_email, normalize_email}
use pulse_frix.Access.{Principal}
use pulse_frix.Api.{
  Crypto, Draws, Response, fail, json, dash, code_auth, code_validation, code_internal,
  record_audit,
}
use pulse_frix.Account.{
  Passwords, Issue, Reply, issue_session, session_payload, verify_current_password,
}

-- The two settings of the configuration that the wizard reads.
pub record SetupConfig : Type 0 where
  pub enable_setup_wizard : Bool
  pub self_hosted : Bool

pub record SetupRequest : Type 0 where
  pub email : Text
  pub password : Text

-- What the creation draws: the identifiers, and the reading of the clock.
pub record Seed : Type 0 where
  pub org_id : Text
  pub user_id : Text
  pub now : ℕ

-- The count of the in-memory store has no error.
unfoldable pub needs_setup : SetupConfig → Memory → Bool
needs_setup cfg m =
    if not cfg.enable_setup_wizard
    then false
    else if not cfg.self_hosted
    then false
    else count_users m == 0

-- The account exists; only the sign-in failed.
abbrev pub not_signed_in : Response
not_signed_in = fail 500 code_internal (
    bytes "account created, but the session could not be started "
    ++ dash
    ++ bytes " please sign in")

-- What follows the creation of the owner.
unfoldable pub seeded :
    Crypto → Text → Text → Option Issue → Draws → Result (Organization × User) × Memory → Reply
seeded c email ip i d (ok (org, user), m) =
    let record_setup : Memory → Memory =
      λ n. record_audit n org.id email (bytes "setup.complete") (bytes "success") ip [] d in
    elim (issue_session c m org.id user.id i) [
      | none ↦ (not_signed_in, record_setup m)
      | some m' ↦ (json 201 (session_payload email), record_setup m')
    ]
seeded c email ip i d (err already_exists, m) =
    (fail 409 code_validation (bytes "this deployment is already provisioned"), m)
seeded c email ip i d (err _, m) =
    (fail 500 code_internal (bytes "could not create the administrator account"), m)

-- The requests that are handled one at a time, each with what it draws.
unfoldable pub handle_setup_complete :
    Crypto
    → Passwords
    → SetupConfig
    → Memory
    → Option SetupRequest
    → Text
    → Option Issue
    → Seed
    → Draws
    → Reply
unfolding seeded
handle_setup_complete c pw cfg m none ip i s d =
    (fail 400 code_validation (bytes "invalid request body"), m)
handle_setup_complete c pw cfg m (some req) ip i s d =
    let email = normalize_email req.email in
    if not (needs_setup cfg m)
    then (fail 409 code_validation (bytes "this deployment is already provisioned"), m)
    else elim (validate_email email) [
      | some message ↦ (fail 400 code_validation message, m)
      | none ↦ elim (validate_password_policy req.password email) [
        | some message ↦ (fail 400 code_validation message, m)
        | none ↦ elim (pw.hash req.password) [
          | none ↦ (fail 400 code_validation (bytes "password is not acceptable"), m)
          | some hash ↦
              seeded c email ip i d
                (seed_org_owner m (bytes "Default") email hash s.org_id s.user_id s.now)
        ]
      ]
    ]
