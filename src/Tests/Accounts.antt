-- ===== src/Tests/Accounts.antt =====
-- Accounts, sessions and the journal of memory.go at concrete inputs.
use pulse_frix.Prelude.{
  same_text, ◌-◌, arith, take, reverse, text_eq, ◌==◌, ℕ, ◌≡◌, ◌≢◌, refl, none, some, List, [], ◌∷◌,
  Text, bytes, select, drop, leb, length, ◌++◌,
}
use pulse_frix.Dict
use pulse_frix.Strings.{to_lower, lower_byte}
use pulse_frix.Model.{User, Session, EnrollmentToken, Event, info}
use pulse_frix.Store.{Memory, new_memory, ok, err, not_found, MetricSample}
use pulse_frix.Store.Users.{seed_org_owner, find_login_by_email}
use pulse_frix.Store.Users.Login.{AccountReach, start, next, seeds, login_by_email, emails_distinct}
use pulse_frix.Store.Users.Index.{email_of}
use pulse_frix.Store.Sessions.{get_session, create_session, delete_sessions_for_user}
use pulse_frix.Store.Sessions.Revocation.{without_user, get_session-delete_sessions_for_user}
use pulse_frix.Store.Agents.{create_enrollment_token, consume_enrollment_token}
use pulse_frix.Store.Agents.Enrollment.{consume_once, IsGood}
use pulse_frix.Store.Snapshots.{history, query_metric_history}
use pulse_frix.Store.Snapshots.History.{append_all, query-append_all}
use pulse_frix.Store.Journal.{list_events, list_audit, append_event}
use pulse_frix.Store.Journal.Newest.{journal_newest_first}

abbrev one_account : Memory
one_account =
    (seed_org_owner new_memory (bytes "Acme") (bytes "Ann@acme.io") (bytes "h") (bytes "o1")
      (bytes "u1") 7).1

abbrev ann : User
ann = record {
  id = bytes "u1";
  email = bytes "ann@acme.io";
  name = [];
  password_hash = bytes "h";
  mfa_secret = [];
  created_at = 7;
}

one_account-AccountReach : AccountReach one_account
unfolding Dict.get
one_account-AccountReach =
    next start
      (seeds (bytes "Acme") (bytes "Ann@acme.io") (bytes "h") (bytes "o1") (bytes "u1") 7 refl)

ann_row : Dict.get one_account.users (bytes "u1") ≡ some ann
unfolding seed_org_owner Dict.get Dict.put to_lower lower_byte same_text
ann_row = refl

given : to_lower (bytes "ANN@acme.io") ≢ []
unfolding to_lower lower_byte
given e = cc

login_by_email_example :
    ((uid : Text) (u : User)
      → Dict.get one_account.users uid ≡ some u
      → u.email ≡ to_lower (bytes "ANN@acme.io")
      → find_login_by_email one_account (bytes "ANN@acme.io")
        ≡ ok (some u, Dict.get one_account.memberships uid))
    × (((uid : Text) → email_of one_account.users uid ≢ some (to_lower (bytes "ANN@acme.io")))
        → find_login_by_email one_account (bytes "ANN@acme.io") ≡ err not_found)
login_by_email_example =
    login_by_email one_account (bytes "ANN@acme.io") one_account-AccountReach given

emails_distinct_example : bytes "u1" ≡ bytes "u1"
emails_distinct_example =
    emails_distinct one_account (bytes "u1") (bytes "u1") ann ann one_account-AccountReach ann_row
      ann_row (λ e. cc) refl

abbrev session : Session
session = record {
  id = bytes "s1";
  user_id = bytes "u1";
  org_id = bytes "o1";
  csrf_secret = [];
  expires_at = 50;
}

abbrev signed_in : Memory
signed_in = (create_session one_account session).1

sessions-HasUniqueKeys : Dict.HasUniqueKeys signed_in.sessions
unfolding create_session seed_org_owner Dict.get Dict.put
sessions-HasUniqueKeys = (refl, tt)

delete_sessions_for_user_example :
    get_session (delete_sessions_for_user signed_in (bytes "u1")).1 (bytes "s1") 10
    ≡ without_user (bytes "u1") (get_session signed_in (bytes "s1") 10)
delete_sessions_for_user_example =
    get_session-delete_sessions_for_user signed_in (bytes "u1") (bytes "s1") 10
      sessions-HasUniqueKeys

abbrev token : EnrollmentToken
token = record {
  id = [];
  org_id = bytes "o1";
  token_hash = bytes "t";
  expires_at = 50;
  used_at = none;
  fingerprint = [];
  created_at = 1;
}

abbrev with_token : Memory
with_token = (create_enrollment_token new_memory token).1

consume_once_example :
    ((t : EnrollmentToken)
      → IsGood with_token (bytes "t") 9 t
      → let m' = (consume_enrollment_token with_token (bytes "t") 9).1 in
        ((consume_enrollment_token with_token (bytes "t") 9).0 ≡ ok (record t { used_at = some 9 }))
        × ((later : ℕ) → consume_enrollment_token m' (bytes "t") later ≡ (err not_found, m'))
        × ((other : Text)
            → other ≢ bytes "t"
            → Dict.get m'.enrollments other ≡ Dict.get with_token.enrollments other))
    × (((t : EnrollmentToken) → ¬ IsGood with_token (bytes "t") 9 t)
        → consume_enrollment_token with_token (bytes "t") 9 ≡ (err not_found, with_token))
consume_once_example = consume_once with_token (bytes "t") 9

token-IsGood : IsGood with_token (bytes "t") 9 token
unfolding create_enrollment_token Dict.get Dict.put same_text
token-IsGood = record { stored = refl; unused = refl; in_time = omega arith }

abbrev samples : List MetricSample
samples = record { ts = 5; sample = bytes "a" } ∷ record { ts = 9; sample = bytes "b" } ∷ []

no_history : length (history new_memory (bytes "o1") (bytes "s1")) ≡ 0
unfolding history Dict.get
no_history = refl

query_example :
    query_metric_history
      (append_all new_memory (bytes "o1") (bytes "s1") samples)
      (bytes "o1")
      (bytes "s1")
      6
    ≡ select
        (λ s. leb 6 s.ts)
        (drop
          (length (history new_memory (bytes "o1") (bytes "s1") ++ samples) - 10000)
          (history new_memory (bytes "o1") (bytes "s1") ++ samples))
query_example =
    query-append_all (bytes "o1") (bytes "s1") new_memory samples 6 (omega (arith, no_history))

abbrev event : Text → Event
event what = record {
  id = what;
  org_id = bytes "o1";
  server_id = [];
  severity = info;
  source = [];
  event = what;
  prev_state = [];
  new_state = [];
  ts = 3;
}

abbrev two_events : Memory
two_events =
    (append_event (append_event new_memory (event (bytes "a")) []).1 (event (bytes "b")) []).1

journal_example :
    (list_events two_events (bytes "o1") 1
      ≡ take 1 (select (λ e. e.org_id == bytes "o1") (reverse two_events.events)))
    × (list_audit two_events (bytes "o1") 1
        ≡ take 1 (select (λ e. e.org_id == bytes "o1") (reverse two_events.audit)))
journal_example = journal_newest_first two_events (bytes "o1") 1
