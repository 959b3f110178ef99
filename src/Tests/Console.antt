-- ===== src/Tests/Console.antt =====
-- The alert engine, roles, sessions and the SSH console's frames at concrete inputs.
use pulse_frix.Prelude.{
  ◌&&◌, not, ℕ, ◌+◌, ◌<◌, ◌≤◌, ◌^◌, ◌≡◌, refl, Bool, true, false, none, some, List, [], ◌∷◌, Text,
  bytes, length, arith, text_eq, ◌==◌, if◌then◌else◌, same_text, ◌*◌, ◌≢◌, ◌↔◌, ◌++◌, any, reverse,
}
use pulse_frix.Dict
use pulse_frix.Model.{Membership, AlertInstance, owner, admin, viewer, other, critical}
use pulse_frix.Store.{Memory, new_memory}
use pulse_frix.Store.Alerts.{create_alert}
use pulse_frix.Store.Sessions.{create_session, delete_sessions_for_user, get_session}
use pulse_frix.Api.{Crypto, hash_token}
use pulse_frix.AlertEngine.{Outside, Engine, evaluate_alerts, firing_of}
use pulse_frix.AlertEngine.Continuity.{Continues, evaluate_alerts-Continues}
use pulse_frix.Access.{can, role_of, user_manage, authenticate}
use pulse_frix.Access.Roles.{looks, governs, is_listed, roles_are_ordered}
use pulse_frix.Access.Sessions.{is_of, authenticate-delete_sessions_for_user}
use pulse_frix.Strings.{trim_space}
use pulse_frix.Duration.{second}
use pulse_frix.AlertEngine.{is_due}
use pulse_frix.AlertEngine.Timing.{is_due_lem, is_due_wrapped}
use pulse_frix.Credentials.{
  validate_trimmed, cut, is_split_well, validate_email, validate_password_policy, contains,
  has_dot_first, is_blank, normalize_email,
}
use pulse_frix.Credentials.Addresses.{
  IsGoodPassword, validate_email_lem, validate_password_policy_lem,
}
use pulse_frix.Websocket.{Conn, read_message}
use pulse_frix.Websocket.Bounds.{IsMessageWithin, read_message-IsMessageWithin}

abbrev masked_frame : Text
masked_frame = 129 ∷ 130 ∷ 1 ∷ 2 ∷ 3 ∷ 4 ∷ 105 ∷ 107 ∷ []

abbrev conn : Conn
conn = record { input = masked_frame; output = []; answers = true ∷ []; is_closed = false }

read_message_example : IsMessageWithin (read_message 20 0 [] conn).0
read_message_example = read_message-IsMessageWithin 20 0 [] conn (omega arith) (omega arith)

roles_example :
    (can viewer user_manage ≡ looks user_manage)
    × (can admin user_manage ≡ is_listed user_manage && not (governs user_manage))
    × (can owner user_manage ≡ is_listed user_manage)
    × ((s : Text) → can (other s) user_manage ≡ false)
    × (can (role_of none) user_manage ≡ looks user_manage)
    × ((mem : Membership)
        → mem.role ≡ other []
        → can (role_of (some mem)) user_manage ≡ looks user_manage)
roles_example = roles_are_ordered user_manage

abbrev crypto : Crypto
crypto = record {
  sha256_hex = λ s. s;
  decode_base64 = λ s. some s;
  verify = λ key message signature. message == signature;
}

abbrev signed_in : Memory
signed_in =
    (create_session new_memory (record {
      id = bytes "c";
      user_id = bytes "u1";
      org_id = bytes "o1";
      csrf_secret = [];
      expires_at = 50;
    })).1

signed_in-HasUniqueKeys : Dict.HasUniqueKeys signed_in.sessions
unfolding create_session Dict.get Dict.put
signed_in-HasUniqueKeys = (refl, tt)

authenticate_example :
    authenticate crypto (delete_sessions_for_user signed_in (bytes "u1")).1 (bytes "c") 9 ≡ (
      if is_of (bytes "u1") (get_session signed_in (hash_token crypto (bytes "c")) 9)
      then none
      else authenticate crypto signed_in (bytes "c") 9)
authenticate_example =
    authenticate-delete_sessions_for_user crypto signed_in (bytes "u1") (bytes "c") 9
      signed_in-HasUniqueKeys

abbrev outside : Outside
outside = record {
  parse_float = λ s. some (length s);
  less = λ a b. pulse_frix.Prelude.ltb a b;
  zero_float = 0;
  percent = λ used total. used;
  print_1 = λ v. [];
  print_0 = λ v. [];
  sample = λ raw. none;
  resources = λ raw. none;
}

abbrev engine : Engine
engine = record { breach = []; firing = [] }

abbrev one_rule : Memory
one_rule =
    (create_alert new_memory
      (record {
        id = bytes "r1";
        org_id = bytes "o1";
        name = bytes "CPU";
        expr = bytes "cpu > 80";
        severity = critical;
        for_seconds = 60;
        cooldown_seconds = 0;
        enabled = true;
      })
      []).1

evaluate_alerts_example :
    let e' = evaluate_alerts outside one_rule engine (bytes "o1") 9 in
    ((d : Text) (i : AlertInstance)
      → Dict.get (firing_of e' (bytes "o1")) d ≡ some i
      → Continues 9 d (Dict.get (firing_of engine (bytes "o1")) d) i)
    × ((org : Text) → (bytes "o1" == org) ≡ false → firing_of e' org ≡ firing_of engine org)
evaluate_alerts_example = evaluate_alerts-Continues outside one_rule engine (bytes "o1") 9

email_run : validate_email (bytes " ann@acme.io") ≡ none
unfolding validate_email validate_trimmed cut is_split_well has_dot_first trim_space same_text
email_run = refl

email_example :
    (before : Text) × (domain : Text) × (trim_space (bytes " ann@acme.io")
      ≡ before ++ b'@' ∷ domain)
    × (before ≢ [])
    × (contains b'@' before ≡ false)
    × (contains b'@' domain ≡ false)
    × (contains b'.' domain ≡ true)
    × (has_dot_first domain ≡ false)
    × (has_dot_first (reverse domain) ≡ false)
    × (length (trim_space (bytes " ann@acme.io")) ≤ 254)
    × (any is_blank (trim_space (bytes " ann@acme.io")) ≡ false)
    × (normalize_email (bytes " ann@acme.io") ≢ [])
email_example = validate_email_lem (bytes " ann@acme.io") email_run

password_example :
    (validate_password_policy (bytes "correct horse") (bytes "ann@acme.io") ≡ none)
    ↔ IsGoodPassword (bytes "correct horse") (bytes "ann@acme.io")
password_example = validate_password_policy_lem (bytes "correct horse") (bytes "ann@acme.io")

is_due_example :
    (is_due (90 * second) (30 * second) 60 ≡ true) ↔ (30 * second + 60 * second ≤ 90 * second)
is_due_example = is_due_lem (90 * second) (30 * second) 60 (omega arith) (omega arith) (omega arith)

is_due_wrapped_example : is_due (30 * second) (30 * second) 9223372037 ≡ true
is_due_wrapped_example =
    is_due_wrapped (30 * second) (30 * second) 9223372037 (omega arith) (omega arith)
