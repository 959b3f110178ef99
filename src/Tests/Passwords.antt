-- ===== src/Tests/Passwords.antt =====
-- The change of a password and of an address, and the first boot, at concrete inputs.
use pulse_frix.Prelude.{Option, ◌≡◌, ◌⊎◌, none, Text, refl, true, some, [], bytes, text_eq, ◌==◌}
use pulse_frix.Dict
use pulse_frix.Model.{owner}
use pulse_frix.Store.{Memory, new_memory}
use pulse_frix.Store.Users.{seed_org_owner}
use pulse_frix.Store.Sessions.{create_session}
use pulse_frix.Api.{Crypto, Draws}
use pulse_frix.Access.{Principal}
use pulse_frix.Account.{
  Passwords, Issue, ChangePasswordRequest, handle_change_password, verify_current_password,
}
use pulse_frix.Account.Rotation.{IsOutcome, password_rotation}
use pulse_frix.Credentials.{validate_email, normalize_email}
use pulse_frix.Store.Users.{count_users}
use pulse_frix.Account.Email.{ChangeEmailRequest, handle_change_email}
use pulse_frix.Account.Email.Login.{IsDenied, IsRenamed, handle_change_email-login}
use pulse_frix.Account.Setup.{SetupConfig, SetupRequest, Seed, handle_setup_complete}
use pulse_frix.Account.Setup.Closed.{
  IsTurnedDown, IsProvisioned, provisioned, handle_setup_complete-once,
}

abbrev crypto : Crypto
crypto = record {
  sha256_hex = λ s. s;
  decode_base64 = λ s. some s;
  verify = λ key message signature. message == signature;
}

abbrev passwords : Passwords
passwords = record { verify = λ password hash. password == hash; hash = λ password. some password }

abbrev signed_in : Memory
signed_in =
    (create_session
      (seed_org_owner new_memory (bytes "Acme") (bytes "ann@acme.io") (bytes "h") (bytes "o1")
        (bytes "u1") 7).1
      (record {
        id = bytes "c";
        user_id = bytes "u1";
        org_id = bytes "o1";
        csrf_secret = [];
        expires_at = 50;
      })).1

signed_in-HasUniqueKeys : Dict.HasUniqueKeys signed_in.sessions
unfolding create_session seed_org_owner Dict.get Dict.put
signed_in-HasUniqueKeys = (refl, tt)

abbrev ann : Principal
ann = record {
  user_id = bytes "u1";
  org_id = bytes "o1";
  email = bytes "ann@acme.io";
  role = owner;
  has_password = true;
}

abbrev request : ChangePasswordRequest
request = record { current_password = bytes "h"; new_password = bytes "correct horse" }

abbrev issue : Option Issue
issue = some (record { cookie = bytes "new"; csrf_secret = []; expires_at = 90 })

abbrev draws : Draws
draws = record {
  server_id = [];
  agent_id = [];
  server_row = [];
  agent_row = [];
  audit_row = bytes "a1";
  used_at = 9;
  made_at = 9;
  audit_at = 9;
}

password_rotation_example :
    IsOutcome crypto passwords ann request issue signed_in
      (handle_change_password crypto passwords signed_in ann (some request) [] issue draws)
password_rotation_example =
    password_rotation crypto passwords signed_in ann request [] issue draws signed_in-HasUniqueKeys

abbrev email_request : ChangeEmailRequest
email_request = record { current_password = bytes "h"; email = bytes "Ann@example.com" }

handle_change_email-login_example :
    let email = normalize_email (bytes "Ann@example.com") in
    let reply = handle_change_email passwords signed_in ann (some email_request) [] draws in
    IsDenied signed_in reply
    ⊎ ((validate_email email ≡ none)
        × (verify_current_password passwords signed_in ann (bytes "h") ≡ none)
        × IsRenamed signed_in (bytes "u1") email reply)
handle_change_email-login_example =
    handle_change_email-login passwords signed_in ann email_request [] draws

abbrev wizard : SetupConfig
wizard = record { enable_setup_wizard = true; self_hosted = true }

abbrev setup_request : SetupRequest
setup_request = record { email = bytes "ann@acme.io"; password = bytes "correct horse" }

abbrev seed : Seed
seed = record { org_id = bytes "o1"; user_id = bytes "u1"; now = 7 }

setup_once_example :
    let reply =
      handle_setup_complete crypto passwords wizard new_memory
        (some setup_request)
        []
        issue
        seed
        draws in
    IsTurnedDown new_memory reply
    ⊎ (IsProvisioned (normalize_email (bytes "ann@acme.io")) issue reply
        × (count_users new_memory ≡ 0)
        × ((c' : Crypto) (pw' : Passwords) (cfg' : SetupConfig) (req' : SetupRequest) (ip' : Text)
              (i' : Option Issue) (s' : Seed) (d' : Draws)
            → handle_setup_complete c' pw' cfg' reply.1 (some req') ip' i' s' d'
              ≡ provisioned reply.1))
setup_once_example =
    handle_setup_complete-once crypto passwords wizard new_memory setup_request [] issue seed draws
