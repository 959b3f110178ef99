-- ===== src/Store/Users/Login.antt =====
-- Signing in by address, over any history of the accounts.
use pulse_frix.Prelude.{ℕ, ◌≡◌, ◌≢◌, none, some, [], Text, arith, Option-cases, inl, inr}
use pulse_frix.Dict
use pulse_frix.Strings.{to_lower}
use pulse_frix.Model.{User}
use pulse_frix.Store.{Memory, new_memory, ok, err, not_found}
use pulse_frix.Store.Users.{
  find_login_by_email, seed_org_owner, upsert_oidc_user, update_user_email, update_user_password,
}
use pulse_frix.Store.Users.Index.{
  email_of, IsIndexed, seed_org_owner-IsIndexed, upsert_oidc_user-IsIndexed,
  update_user_email-IsIndexed, update_user_password-IsIndexed,
}

-- The calls that change accounts. The identifiers that `auth.NewID` draws are fresh.
pub data AccountStep (m : Memory) : Memory → Type 0 where
  seeds :
      (org_name email hash org_id uid : Text) (now : ℕ)
      → Dict.get m.users uid ≡ none
      → AccountStep m (seed_org_owner m org_name email hash org_id uid now).1
  signs_in :
      (provider subject email name org_id uid : Text) (now : ℕ)
      → Dict.get m.users uid ≡ none
      → AccountStep m (upsert_oidc_user m provider subject email name org_id uid now).1
  changes_email : (org_id uid email : Text) → AccountStep m (update_user_email m org_id uid email).1
  changes_password :
      (org_id uid hash : Text) → AccountStep m (update_user_password m org_id uid hash).1

pub data AccountReach : Memory → Type 0 where
  start : AccountReach new_memory
  next : {m m' : Memory} → AccountReach m → AccountStep m m' → AccountReach m'

new_memory-IsIndexed : IsIndexed new_memory.users new_memory.users_by_mail
unfolding Dict.get
new_memory-IsIndexed = record { agree = λ e uid ne. (λ g. cc, λ g. cc); lower = λ uid e g. cc }

AccountStep-IsIndexed :
    {m m' : Memory}
    → AccountStep m m'
    → IsIndexed m.users m.users_by_mail
    → IsIndexed m'.users m'.users_by_mail
AccountStep-IsIndexed {m} (seeds a b c d e now fresh) v =
    seed_org_owner-IsIndexed m a b c d e now v fresh
AccountStep-IsIndexed {m} (signs_in a b c d e f now fresh) v =
    upsert_oidc_user-IsIndexed m a b c d e f now v fresh
AccountStep-IsIndexed {m} (changes_email a b c) v = update_user_email-IsIndexed m a b c v
AccountStep-IsIndexed {m} (changes_password a b c) v = update_user_password-IsIndexed m a b c v

AccountReach-IsIndexed : {m : Memory} → AccountReach m → IsIndexed m.users m.users_by_mail
AccountReach-IsIndexed start = new_memory-IsIndexed
AccountReach-IsIndexed (next r st) = AccountStep-IsIndexed st (AccountReach-IsIndexed r)

-- After any history of seeding, provider sign-ins, and changes of address and password: a lookup by
-- a user's address, in any case of its letters, returns exactly that user with the user's
-- membership; and an address, not blank, that no user has in lower case is not found.
pub login_by_email :
    (m : Memory) (email : Text)
    → AccountReach m
    → to_lower email ≢ []
    → ((uid : Text) (u : User)
        → Dict.get m.users uid ≡ some u
        → u.email ≡ to_lower email
        → find_login_by_email m email ≡ ok (some u, Dict.get m.memberships uid))
      × (((uid : Text) → email_of m.users uid ≢ some (to_lower email))
          → find_login_by_email m email ≡ err not_found)
unfolding find_login_by_email
login_by_email m email r given =
    let v = AccountReach-IsIndexed r in
    (
      λ uid u row same. ground (arith, v.agree (to_lower email) uid given),
      λ nobody. elim (Option-cases (Dict.get m.users_by_mail (to_lower email))) [
        | inl out ↦ rw (out, find_login_by_email)
        | inr (uid, entry) ↦ absurd (nobody uid ((v.agree (to_lower email) uid given).0 entry))
      ],
    )

-- After any history of seeding, provider sign-ins, and changes of address and password: no two users
-- have one address, the empty address aside.
pub emails_distinct :
    (m : Memory) (i j : Text) (u w : User)
    → AccountReach m
    → Dict.get m.users i ≡ some u
    → Dict.get m.users j ≡ some w
    → u.email ≢ []
    → u.email ≡ w.email
    → i ≡ j
emails_distinct m i j u w r gi gj given same =
    let v = AccountReach-IsIndexed r in
    ground (arith, v.agree u.email i given, v.agree u.email j given)
