-- ===== src/Account/Email/Login.antt =====
-- After a change of the address the account is found by the new one.
use pulse_frix.Prelude.{
  ◌≡◌, ◌∙◌, refl, ap, ◌⊎◌, inl, inr, not, none, some, Text, text_eq, arith, Option-cases,
  same_text_refl, both,
}
use pulse_frix.Dict
use pulse_frix.Dict.Laws.{get-put}
use pulse_frix.Strings.{to_lower, trim_space, to_lower_idem}
use pulse_frix.Model.{User}
use pulse_frix.Store.{Memory, ok, err, already_exists, not_found, nil_deref, Done}
use pulse_frix.Store.Users.{is_member, is_taken, set_email, update_user_email, find_login_by_email}
use pulse_frix.Store.Journal.{append_audit}
use pulse_frix.Credentials.{validate_email, normalize_email}
use pulse_frix.Access.{Principal}
use pulse_frix.Api.{Draws, fail, json, record_audit}
use pulse_frix.Account.{Passwords, Reply, verify_current_password}
use pulse_frix.Account.Email.{ChangeEmailRequest, email_stored, email_checked, handle_change_email}

-- The account that the store finds by an address.
abbrev pub IsFoundBy : Memory → Memory → Text → Text → Type 0
IsFoundBy m m' user_id email =
    (u : User) × (Dict.get m.users user_id ≡ some u)
    × (find_login_by_email m' email
        ≡ ok (some (record u { email = email }), Dict.get m.memberships user_id))

stored_email : Text → Text
stored_email email = to_lower (trim_space email)

Updates : Memory → Text → Text → Done × Memory → Type 0
Updates m user_id email (err _, m') = m' ≡ m
Updates m user_id email (ok _, m') =
    IsFoundBy m m' user_id (stored_email email) × (m'.sessions ≡ m.sessions)

get-put_self :
    {V : Type 0} (m : Dict.Dict V) (k : Text) (v : V) → Dict.get (Dict.put m k v) k ≡ some v
get-put_self m k v = get-put m k v k ∙ rw (same_text_refl k) refl

found_login :
    (m : Memory) (index : Dict.Dict Text) (user_id email : Text) (u : User)
    → let e = to_lower (trim_space email) in
      find_login_by_email
        (record m { users = Dict.put m.users user_id u; users_by_mail = Dict.put index e user_id })
        e
      ≡ ok (some u, Dict.get m.memberships user_id)
unfolding find_login_by_email
found_login m index user_id email u =
    rw
      (
        find_login_by_email,
        to_lower_idem (trim_space email),
        get-put_self index (to_lower (trim_space email)) user_id,
        get-put_self m.users user_id u,
      )
      refl

update_user_email-Updates :
    (m : Memory) (org_id user_id email : Text)
    → Updates m user_id email (update_user_email m org_id user_id email)
unfolding Updates update_user_email stored_email set_email
update_user_email-Updates m org_id user_id email = elim (Option-cases (Dict.get m.users user_id)) [
  | inl e ↦ rw (Updates, update_user_email, e) refl
  | inr (u, e) ↦
      let found : Updates m user_id email
          (ok tt, set_email m u user_id (to_lower (trim_space email))) =
        ((u, e, found_login m _ user_id email _), refl) in
      let kept : Updates m user_id email (err not_found, m) = refl in
      let kept' : Updates m user_id email (err already_exists, m) = refl in
      rw (Updates, update_user_email, e)
        (both (Updates m user_id email) (not (is_member m org_id user_id)) (λ _. kept)
          (λ _.
            both (Updates m user_id email) (is_taken m (to_lower (trim_space email)) user_id)
              (λ _. kept') (λ _. found)))
]

-- A failure that leaves accounts and sessions alone.
abbrev pub IsDenied : Memory → Reply → Type 0
IsDenied m (fail _ _ _, m') =
    (m'.users ≡ m.users) × (m'.users_by_mail ≡ m.users_by_mail) × (m'.sessions ≡ m.sessions)
IsDenied m (json _ _, m') = ⊥

-- The account is found by the address from then on, and the sessions stay.
abbrev pub IsRenamed : Memory → Text → Text → Reply → Type 0
IsRenamed m user_id email (_, m') =
    IsFoundBy m m' user_id (to_lower (trim_space email)) × (m'.sessions ≡ m.sessions)

found_later :
    (m m' m'' : Memory) (user_id email : Text)
    → m''.users ≡ m'.users
    → m''.users_by_mail ≡ m'.users_by_mail
    → m''.memberships ≡ m'.memberships
    → IsFoundBy m m' user_id email
    → IsFoundBy m m'' user_id email
unfolding find_login_by_email
found_later m m' m'' user_id email a b c (u, e, found) = (u, e, ground (arith, a, b, c, found))

email_stored-cases :
    (m : Memory) (p : Principal) (email ip : Text) (d : Draws) (r : Done × Memory)
    → Updates m p.user_id email r
    → IsDenied m (email_stored p email ip d r)
      ⊎ IsRenamed m p.user_id email (email_stored p email ip d r)
unfolding Updates email_stored stored_email record_audit append_audit
email_stored-cases m p email ip d (ok done, m') (found, same) =
    inr (found_later m m' _ p.user_id _ refl refl refl found, same)
email_stored-cases m p email ip d (err not_found, m') same =
    inl (ap (λ x. x.users) same, ap (λ x. x.users_by_mail) same, ap (λ x. x.sessions) same)
email_stored-cases m p email ip d (err already_exists, m') same =
    inl (ap (λ x. x.users) same, ap (λ x. x.users_by_mail) same, ap (λ x. x.sessions) same)
email_stored-cases m p email ip d (err nil_deref, m') same =
    inl (ap (λ x. x.users) same, ap (λ x. x.users_by_mail) same, ap (λ x. x.sessions) same)

-- A change of the address fails and leaves accounts and sessions alone; or the address is accepted
-- and the current password is the caller's, and from then on a sign-in by the new address finds the
-- caller's account with it, and the sessions are as they were.
pub handle_change_email-login :
    (pw : Passwords) (m : Memory) (p : Principal) (req : ChangeEmailRequest) (ip : Text) (d : Draws)
    → let email = normalize_email req.email in
      let reply = handle_change_email pw m p (some req) ip d in
      IsDenied m reply
      ⊎ ((validate_email email ≡ none)
          × (verify_current_password pw m p req.current_password ≡ none)
          × IsRenamed m p.user_id email reply)
unfolding handle_change_email email_checked record_audit append_audit
handle_change_email-login pw m p req ip d =
    let email = normalize_email req.email in
    elim (Option-cases (validate_email email)) [
      | inr (message, e) ↦ inl (rw (handle_change_email, e) (refl, refl, refl))
      | inl e ↦ elim (Option-cases (verify_current_password pw m p req.current_password)) [
        | inr ((status, message), e') ↦ inl (rw (handle_change_email, e, e') (refl, refl, refl))
        | inl e' ↦
            let outcome =
              email_stored-cases m p email ip d (update_user_email m p.org_id p.user_id email)
                (update_user_email-Updates m p.org_id p.user_id email) in
            elim outcome [
              | inl denied ↦ inl (rw (handle_change_email, e, e') denied)
              | inr renamed ↦ inr (e, e', rw (handle_change_email, e, e') renamed)
            ]
      ]
    ]
