-- ===== src/Access/Sessions.antt =====
-- Requests and the end of sessions.
use pulse_frix.Prelude.{
  ℕ, ◌≡◌, ◌∙◌, ap, refl, Bool, false, none, [], Text, text_eq, ◌==◌, if◌then◌else◌, arith,
  Bool-cases, inl, inr,
}
use pulse_frix.Dict.{HasUniqueKeys}
use pulse_frix.Store.{Memory, Result, ok, err}
use pulse_frix.Model.{Session}
use pulse_frix.Store.Sessions.{get_session, delete_sessions_for_user}
use pulse_frix.Store.Sessions.Revocation.{without_user, get_session-delete_sessions_for_user}
use pulse_frix.Store.Users.{get_user, get_membership}
use pulse_frix.Api.{Crypto, hash_token}
use pulse_frix.Access.{authenticate, principal_of_session, principal_of}

abbrev pub is_of : Text → Result Session → Bool
is_of user_id (ok s) = s.user_id == user_id
is_of user_id (err _) = false

-- The deletion changes no account.
same_accounts :
    (m : Memory) (user_id : Text) (r : Result Session)
    → principal_of_session (delete_sessions_for_user m user_id).1 r ≡ principal_of_session m r
unfolding delete_sessions_for_user principal_of_session principal_of get_user get_membership
same_accounts m user_id (ok s) = refl
same_accounts m user_id (err x) = refl

principal_of_session-without_user :
    (m : Memory) (user_id : Text) (r : Result Session)
    → principal_of_session m (without_user user_id r)
      ≡ (if is_of user_id r then none else principal_of_session m r)
unfolding principal_of_session
principal_of_session-without_user m user_id (ok s) = elim (Bool-cases (s.user_id == user_id)) [
  | inl e ↦ rw (e, principal_of_session)
  | inr e ↦ rw (e, principal_of_session)
]
principal_of_session-without_user m user_id (err x) = refl

-- After the sessions of a user are deleted, a request with a cookie of one of them has no principal,
-- and a request with any other cookie has the principal that it had. The map of sessions has one
-- entry for each key.
pub authenticate-delete_sessions_for_user :
    (c : Crypto) (m : Memory) (user_id cookie : Text) (now : ℕ)
    → HasUniqueKeys m.sessions
    → authenticate c (delete_sessions_for_user m user_id).1 cookie now ≡ (
        if is_of user_id (get_session m (hash_token c cookie) now)
        then none
        else authenticate c m cookie now)
unfolding authenticate
authenticate-delete_sessions_for_user c m user_id cookie now u = elim (Bool-cases (cookie == [])) [
  | inl e ↦ ground (arith, e)
  | inr e ↦
      rw (e, authenticate)
        (ap (principal_of_session _)
            (get_session-delete_sessions_for_user m user_id (hash_token c cookie) now u)
          ∙ (same_accounts m user_id _
              ∙ principal_of_session-without_user m user_id
                  (get_session m (hash_token c cookie) now)))
]
