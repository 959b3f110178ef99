-- ===== src/Account/Email.antt =====
-- handlers_account.go: the change of the address of an account.
pub mod Login
use pulse_frix.Prelude.{
  ℕ, ◌≡◌, ◌≢◌, ◌∙◌, refl, ap, ◌⊎◌, inl, inr, Bool, true, false, not, Option, none, some, List, [],
  ◌∷◌, Text, bytes, text_eq, ◌==◌, if◌then◌else◌, arith, Option-cases, Bool-cases, same_text_iff,
}
use pulse_frix.Dict
use pulse_frix.Dict.Laws.{get-put}
use pulse_frix.Strings.{to_lower, trim_space, to_lower_idem}
use pulse_frix.Model.{User, Membership}
use pulse_frix.Store.{Memory, Result, ok, err, Error, already_exists, not_found, nil_deref, Done}
use pulse_frix.Store.Users.{update_user_email, find_login_by_email}
use pulse_frix.Store.Journal.{append_audit}
use pulse_frix.Credentials.{validate_email, normalize_email}
use pulse_frix.Access.{Principal}
use pulse_frix.Api.{
  Crypto, Draws, fail, json, code_auth, code_validation, code_internal, record_audit,
}
use pulse_frix.Account.{Passwords, Reply, session_payload, verify_current_password}

pub record ChangeEmailRequest : Type 0 where
  pub current_password : Text
  pub email : Text

-- What follows the write to the store.
unfoldable pub email_stored : Principal → Text → Text → Draws → Done × Memory → Reply
email_stored p email ip d (ok _, m) = (
  json 200 (session_payload email),
  record_audit m p.org_id p.email (bytes "account.email_change") (bytes "success") ip
      ((bytes "new_email", email) ∷ []) d,
)
email_stored p email ip d (err already_exists, m) =
    (fail 409 code_validation (bytes "that email is already in use"), m)
email_stored p email ip d (err _, m) =
    (fail 500 code_internal (bytes "could not update the email address"), m)

-- What follows the check of the current password.
unfoldable pub email_checked : Memory → Principal → Text → Text → Draws → Option (ℕ × Text) → Reply
unfolding email_stored
email_checked m p email ip d (some (status, message)) = (
  fail status code_auth message,
  record_audit m p.org_id p.email (bytes "account.email_change") (bytes "failure") ip [] d,
)
email_checked m p email ip d none =
    email_stored p email ip d (update_user_email m p.org_id p.user_id email)

unfoldable pub handle_change_email :
    Passwords → Memory → Principal → Option ChangeEmailRequest → Text → Draws → Reply
unfolding email_checked
handle_change_email pw m p none ip d = (fail 400 code_validation (bytes "invalid request body"), m)
handle_change_email pw m p (some req) ip d =
    let email = normalize_email req.email in
    elim (validate_email email) [
      | some message ↦ (fail 400 code_validation message, m)
      | none ↦ email_checked m p email ip d (verify_current_password pw m p req.current_password)
    ]
