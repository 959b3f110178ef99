-- ===== src/Store/Users.antt =====
-- memory.go, the accounts: organizations, users, the index of emails, provider identities and
-- memberships. `org_id` and `user_id` are the identifiers that `auth.NewID` draws.
pub mod Index
pub mod Login
pub mod Scope
use pulse_frix.Prelude.{
  ℕ, Bool, true, false, not, ◌&&◌, Option, none, some, List, [], ◌∷◌, ◌++◌, Text, bytes, text_eq,
  ◌==◌, length, if◌then◌else◌,
}
use pulse_frix.Dict
use pulse_frix.Strings.{to_lower, trim_space}
use pulse_frix.Model.{Organization, User, Membership, Role}
use pulse_frix.Store.{Memory, Result, ok, err, Done, Error, not_found, already_exists}

-- The pointers may be nil: an index entry need not have a user.
unfoldable pub find_login_by_email : Memory → Text → Result (Option User × Option Membership)
find_login_by_email m email = elim (Dict.get m.users_by_mail (to_lower email)) [
  | none ↦ err not_found
  | some uid ↦ ok (Dict.get m.users uid, Dict.get m.memberships uid)
]

abbrev new_org : Text → Text → ℕ → Organization
new_org org_id name now = record { id = org_id; name = name; created_at = now }

abbrev owner_of : Text → Text → Membership
owner_of org_id user_id = record { org_id = org_id; user_id = user_id; role = Role.owner }

seed_org_owner_lower :
    Memory → Text → Text → Text → Text → Text → ℕ → Result (Organization × User) × Memory
seed_org_owner_lower m org_name email password_hash org_id user_id now =
    let org = new_org org_id org_name now in
    let user : User = record {
      id = user_id;
      email = email;
      name = [];
      password_hash = password_hash;
      mfa_secret = [];
      created_at = now;
    } in
    elim (Dict.get m.users_by_mail email) [
      | some _ ↦ (err already_exists, m)
      | none ↦ (
        ok (org, user),
        record m {
          orgs = Dict.put m.orgs org_id org;
          users = Dict.put m.users user_id user;
          users_by_mail = Dict.put m.users_by_mail email user_id;
          memberships = Dict.put m.memberships user_id (owner_of org_id user_id);
        },
      )
    ]

unfoldable pub seed_org_owner :
    Memory → Text → Text → Text → Text → Text → ℕ → Result (Organization × User) × Memory
unfolding seed_org_owner_lower
seed_org_owner m org_name email password_hash org_id user_id now =
    seed_org_owner_lower m org_name (to_lower email) password_hash org_id user_id now

unfoldable pub first_non_empty : List Text → Text
first_non_empty [] = []
first_non_empty (v ∷ vals) = if v == [] then first_non_empty vals else v

-- The tenant that a first sign-in creates: an organization and its owner.
new_tenant :
    Memory
    → Text
    → Text
    → Text
    → Text
    → Text
    → ℕ
    → Result (Option User × Option Membership) × Memory
new_tenant m key email name org_id user_id now =
    let user : User = record {
      id = user_id;
      email = to_lower email;
      name = name;
      password_hash = [];
      mfa_secret = [];
      created_at = now;
    } in
    let mem = owner_of org_id user_id in
    let org = new_org org_id (first_non_empty (name ∷ email ∷ bytes "Personal" ∷ [])) now in
    (
      ok (some user, some mem),
      record m {
        orgs = Dict.put m.orgs org_id org;
        users = Dict.put m.users user_id user;
        users_by_mail =
            if email == []
            then m.users_by_mail
            else Dict.put m.users_by_mail (to_lower email) user_id;
        oidc_by_key = Dict.put m.oidc_by_key key user_id;
        memberships = Dict.put m.memberships user_id mem;
      },
    )

unfoldable pub upsert_oidc_user :
    Memory
    → Text
    → Text
    → Text
    → Text
    → Text
    → Text
    → ℕ
    → Result (Option User × Option Membership) × Memory
unfolding new_tenant
upsert_oidc_user m provider subject email name org_id user_id now =
    let key = provider ++ (bytes ":" ++ subject) in
    let by_mail = if email == [] then none else Dict.get m.users_by_mail (to_lower email) in
    elim (Dict.get m.oidc_by_key key) [
      | some uid ↦ (ok (Dict.get m.users uid, Dict.get m.memberships uid), m)
      | none ↦ elim by_mail [
        | some uid ↦ (
          ok (Dict.get m.users uid, Dict.get m.memberships uid),
          record m { oidc_by_key = Dict.put m.oidc_by_key key uid },
        )
        | none ↦ new_tenant m key email name org_id user_id now
      ]
    ]

unfoldable pub get_membership : Memory → Text → Text → Result Membership
get_membership m org_id user_id = elim (Dict.get m.memberships user_id) [
  | none ↦ err not_found
  | some mem ↦ if mem.org_id == org_id then ok mem else err not_found
]

-- `mem == nil || mem.OrgID != orgID`, negated.
abbrev pub is_member : Memory → Text → Text → Bool
is_member m org_id user_id = elim (Dict.get m.memberships user_id) [
  | none ↦ false
  | some mem ↦ mem.org_id == org_id
]

unfoldable pub get_user : Memory → Text → Text → Result User
get_user m org_id user_id = elim (Dict.get m.users user_id) [
  | none ↦ err not_found
  | some u ↦ if is_member m org_id user_id then ok u else err not_found
]

unfoldable pub count_users : Memory → ℕ
count_users m = length m.users

-- `existing, taken := m.usersByMail[email]; taken && existing != userID`
abbrev pub is_taken : Memory → Text → Text → Bool
is_taken m email user_id = elim (Dict.get m.users_by_mail email) [
  | none ↦ false
  | some existing ↦ not (existing == user_id)
]

unfoldable pub set_email : Memory → User → Text → Text → Memory
set_email m u user_id email =
    let index =
      if u.email == [] then m.users_by_mail else Dict.remove m.users_by_mail (to_lower u.email) in
    record m {
      users = Dict.put m.users user_id (record u { email = email });
      users_by_mail = Dict.put index email user_id;
    }

unfoldable pub update_user_email : Memory → Text → Text → Text → Done × Memory
unfolding set_email
update_user_email m org_id user_id email =
    let email' = to_lower (trim_space email) in
    elim (Dict.get m.users user_id) [
      | none ↦ (err not_found, m)
      | some u ↦
          if not (is_member m org_id user_id)
          then (err not_found, m)
          else if is_taken m email' user_id
          then (err already_exists, m)
          else (ok tt, set_email m u user_id email')
    ]

unfoldable pub update_user_password : Memory → Text → Text → Text → Done × Memory
update_user_password m org_id user_id password_hash = elim (Dict.get m.users user_id) [
  | none ↦ (err not_found, m)
  | some u ↦
      if is_member m org_id user_id
      then (
        ok tt,
        record m { users = Dict.put m.users user_id (record u { password_hash = password_hash }) },
      )
      else (err not_found, m)
]
