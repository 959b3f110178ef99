-- ===== src/Account/Rotation.antt =====
-- A change of the password ends the sessions of the account.
use pulse_frix.Prelude.{
  ℕ, ◌≡◌, ◌∙◌, ap, refl, true, false, [], same_text_refl, Option, none, some, Text, text_eq, ◌==◌,
  ltb, if◌then◌else◌, arith, Bool-cases, Option-cases, ◌⊎◌, inl, inr,
}
use pulse_frix.Dict
use pulse_frix.Dict.{HasUniqueKeys}
use pulse_frix.Dict.Laws.{get-put}
use pulse_frix.Model.{Session, User}
use pulse_frix.Store.{Memory, Result, ok, err, Done, Error, not_found}
use pulse_frix.Store.Users.{get_user, is_member, update_user_password}
use pulse_frix.Store.Sessions.{get_session, create_session, delete_sessions_for_user}
use pulse_frix.Store.Sessions.Revocation.{without_user, get_session-delete_sessions_for_user}
use pulse_frix.Store.Journal.{append_audit}
use pulse_frix.Credentials.{validate_password_policy}
use pulse_frix.Access.{Principal}
use pulse_frix.Api.{Crypto, Draws, Response, fail, json, hash_token, record_audit}
use pulse_frix.Account.{
  Passwords, Issue, ChangePasswordRequest, Reply, sign_in_again, session_payload, new_session,
  issue_session, rotate, store_password, change_verified, change_checked, handle_change_password,
  verify_current_password,
}

-- The session that an identifier gives after the rotation, in which a new session is issued or not.
abbrev pub rotated : Crypto → Principal → Option Issue → Text → ℕ → Result Session → Result Session
rotated c p none id now before = without_user p.user_id before
rotated c p (some i) id now before =
    if hash_token c i.cookie == id
    then if ltb i.expires_at now then err not_found else ok (new_session c p.org_id p.user_id i)
    else without_user p.user_id before

-- No session and no account has changed, and the response is a failure.
abbrev pub IsRefused : Memory → Reply → Type 0
IsRefused m (fail _ _ _, m') = (m'.sessions ≡ m.sessions) × (m'.users ≡ m.users)
IsRefused m (json _ _, m') = ⊥

abbrev pub answer_of : Principal → Option Issue → Response
answer_of p none = sign_in_again
answer_of p (some _) = json 200 (session_payload p.email)

-- What a rotation leaves of the accounts and the sessions.
abbrev IsRotated : Crypto → Principal → Option Issue → Memory → Reply → Type 0
IsRotated c p i m (response, m') =
    (response ≡ answer_of p i)
    × ((org_id user_id : Text) → get_user m' org_id user_id ≡ get_user m org_id user_id)
    × ((id : Text) (now : ℕ) → get_session m' id now ≡ rotated c p i id now (get_session m id now))

-- The given password is that of the account.
pub record IsVerified (pw : Passwords) (m : Memory) (p : Principal) (current : Text) (user : User)
    : Type 0 where
  pub found : get_user m p.org_id p.user_id ≡ ok user
  pub has_password : (user.password_hash == []) ≡ false
  pub verified : pw.verify current user.password_hash ≡ true

-- The hash of the new password is stored and the sessions are rotated.
pub record IsChanged (c : Crypto) (p : Principal) (i : Option Issue) (m : Memory) (hash : Text)
    (reply : Reply) : Type 0 where
  pub answered : reply.0 ≡ answer_of p i
  pub stored :
      (user : User)
      → get_user m p.org_id p.user_id ≡ ok user
      → get_user reply.1 p.org_id p.user_id ≡ ok (record user { password_hash = hash })
  pub sessions :
      (id : Text) (now : ℕ)
      → get_session reply.1 id now ≡ rotated c p i id now (get_session m id now)

-- Refused; or the current password was verified, and the new one stored.
abbrev pub IsOutcome :
    Crypto → Passwords → Principal → ChangePasswordRequest → Option Issue → Memory → Reply → Type 0
IsOutcome c pw p req i m reply =
    IsRefused m reply
    ⊎ ((user : User) × (hash : Text) × IsVerified pw m p req.current_password user
        × (pw.hash req.new_password ≡ some hash)
        × IsChanged c p i m hash reply)

same_sessions :
    (m m' : Memory) (id : Text) (now : ℕ)
    → m'.sessions ≡ m.sessions
    → get_session m' id now ≡ get_session m id now
unfolding get_session
same_sessions m m' id now e = ground (arith, e)

get_session-create_session :
    (m : Memory) (s : Session) (id : Text) (now : ℕ)
    → get_session (create_session m s).1 id now ≡ (
        if s.id == id
        then if ltb s.expires_at now then err not_found else ok s
        else get_session m id now)
unfolding get_session create_session
get_session-create_session m s id now = elim (Bool-cases (s.id == id)) [
  | inl e ↦ rw (get-put m.sessions s.id s id, e, get_session)
  | inr e ↦ rw (get-put m.sessions s.id s id, e, get_session)
]

rotate-IsRotated :
    (c : Crypto) (m : Memory) (p : Principal) (ip : Text) (i : Option Issue) (d : Draws)
    → HasUniqueKeys m.sessions
    → IsRotated c p i m (rotate c m p ip i d)
unfolding rotate issue_session new_session record_audit append_audit get_user
    delete_sessions_for_user create_session
rotate-IsRotated c m p ip none d u = (
  refl,
  λ org_id user_id. refl,
  λ id now.
      same_sessions (delete_sessions_for_user m p.user_id).1 (rotate c m p ip none d).1 id now refl
      ∙ get_session-delete_sessions_for_user m p.user_id id now u,
)
rotate-IsRotated c m p ip (some i) d u = (
  refl,
  λ org_id user_id. refl,
  λ id now.
      let m' = (delete_sessions_for_user m p.user_id).1 in
      let s = new_session c p.org_id p.user_id i in
      same_sessions (create_session m' s).1 (rotate c m p ip (some i) d).1 id now refl
      ∙ (get_session-create_session m' s id now
          ∙ ap
              (λ r.
                if hash_token c i.cookie == id
                then if ltb i.expires_at now then err not_found else ok s
                else r)
              (get_session-delete_sessions_for_user m p.user_id id now u)),
)

update_user_password-sessions :
    (m : Memory) (org_id user_id hash : Text)
    → (update_user_password m org_id user_id hash).1.sessions ≡ m.sessions
unfolding update_user_password
update_user_password-sessions m org_id user_id hash = ground arith

update_user_password-err :
    (m : Memory) (org_id user_id hash : Text) (x : Error)
    → (update_user_password m org_id user_id hash).0 ≡ err x
    → (update_user_password m org_id user_id hash).1.users ≡ m.users
unfolding update_user_password
update_user_password-err m org_id user_id hash x e = ground (arith, e)

Result-split : {V : Type 0} (r : Result V) → ((x : Error) × (r ≡ err x)) ⊎ ((v : V) × (r ≡ ok v))
Result-split (err x) = inl (x, refl)
Result-split (ok v) = inr (v, refl)

row_written : (d : Dict.Dict User) (k : Text) (v : User) → Dict.get (Dict.put d k v) k ≡ some v
row_written d k v = ground (arith, get-put d k v k, same_text_refl k)

update_user_password_at :
    (m : Memory) (org_id user_id hash : Text) (u : User)
    → Dict.get m.users user_id ≡ some u
    → is_member m org_id user_id ≡ true
    → update_user_password m org_id user_id hash
      ≡ (ok tt, record m { users = Dict.put m.users user_id (record u { password_hash = hash }) })
unfolding update_user_password
update_user_password_at m org_id user_id hash u row member =
    rw (update_user_password, row, member) refl

get_user_at :
    (m : Memory) (users : Dict.Dict User) (org_id user_id : Text) (w : User)
    → Dict.get users user_id ≡ some w
    → is_member m org_id user_id ≡ true
    → get_user (record m { users = users }) org_id user_id ≡ ok w
unfolding get_user
get_user_at m users org_id user_id w row member = ground (arith, row, member)

update_user_password-stored :
    (m : Memory) (org_id user_id hash : Text) (v : Unit) (user : User)
    → (update_user_password m org_id user_id hash).0 ≡ ok v
    → get_user m org_id user_id ≡ ok user
    → get_user (update_user_password m org_id user_id hash).1 org_id user_id
      ≡ ok (record user { password_hash = hash })
unfolding update_user_password get_user
update_user_password-stored m org_id user_id hash v user e given =
    elim (Option-cases (Dict.get m.users user_id)) [
      | inl gone ↦ absurd (ground (arith, given, gone))
      | inr (u, row) ↦ elim (Bool-cases (is_member m org_id user_id)) [
        | inr stranger ↦ absurd (ground (arith, given, row, stranger))
        | inl member ↦
            let same : u ≡ user = ground (arith, given, row, member) in
            let u' : User → User = λ w. record w { password_hash = hash } in
            ap (λ (r : Done × Memory). get_user r.1 org_id user_id)
              (update_user_password_at m org_id user_id hash u row member)
            ∙ (get_user_at m (Dict.put m.users user_id (u' u)) org_id user_id (u' u)
                  (row_written m.users user_id (u' u)) member
                ∙ ap (λ w. ok (u' w)) same)
      ]
    ]

store_password-IsChanged :
    (c : Crypto) (m : Memory) (p : Principal) (hash ip : Text) (i : Option Issue) (d : Draws)
    → HasUniqueKeys m.sessions
    → IsRefused m (store_password c m p hash ip i d)
      ⊎ IsChanged c p i m hash (store_password c m p hash ip i d)
unfolding store_password
store_password-IsChanged c m p hash ip i d u =
    let m' = (update_user_password m p.org_id p.user_id hash).1 in
    let kept = update_user_password-sessions m p.org_id p.user_id hash in
    elim (Result-split (update_user_password m p.org_id p.user_id hash).0) [
      | inl (x, e) ↦
          rw (e, store_password)
            (inl (kept, update_user_password-err m p.org_id p.user_id hash x e))
      | inr (v, e) ↦
          let (answered, users, sessions) = rotate-IsRotated c m' p ip i d (rw kept u) in
          rw (e, store_password)
            (inr (record {
              answered = answered;
              stored = λ user given.
                  users p.org_id p.user_id
                  ∙ update_user_password-stored m p.org_id p.user_id hash v user e given;
              sessions = λ id now.
                  sessions id now ∙ ap (rotated c p i id now) (same_sessions m m' id now kept);
            }))
    ]

verify_current_password-none :
    (pw : Passwords) (m : Memory) (p : Principal) (current : Text)
    → verify_current_password pw m p current ≡ none
    → (user : User) × IsVerified pw m p current user
unfolding verify_current_password
verify_current_password-none pw m p current e =
    elim (Result-split (get_user m p.org_id p.user_id)) [
      | inl (x, lost) ↦ absurd (ground (arith, e, lost))
      | inr (user, found) ↦ elim (Bool-cases (user.password_hash == [])) [
        | inl without ↦ absurd (ground (arith, e, found, without))
        | inr with_one ↦ elim (Bool-cases (pw.verify current user.password_hash)) [
          | inl right ↦ (user, record { found = found; has_password = with_one; verified = right })
          | inr wrong ↦ absurd (ground (arith, e, found, with_one, wrong))
        ]
      ]
    ]

change_verified-IsOutcome :
    (c : Crypto) (pw : Passwords) (m : Memory) (p : Principal) (req : ChangePasswordRequest)
    (ip : Text) (i : Option Issue) (d : Draws) (user : User)
    → HasUniqueKeys m.sessions
    → IsVerified pw m p req.current_password user
    → IsOutcome c pw p req i m (change_verified c pw m p req ip i d)
unfolding change_verified
change_verified-IsOutcome c pw m p req ip i d user u given =
    elim (Option-cases (pw.hash req.new_password)) [
      | inl e ↦ rw (e, change_verified) (inl (refl, refl))
      | inr (hash, e) ↦
          rw (e, change_verified)
            (elim (store_password-IsChanged c m p hash ip i d u) [
              | inl kept ↦ inl kept
              | inr changed ↦ inr (user, hash, given, refl, changed)
            ])
    ]

change_checked-IsOutcome :
    (c : Crypto) (pw : Passwords) (m : Memory) (p : Principal) (req : ChangePasswordRequest)
    (ip : Text) (i : Option Issue) (d : Draws) (r : Option (ℕ × Text))
    → HasUniqueKeys m.sessions
    → verify_current_password pw m p req.current_password ≡ r
    → IsOutcome c pw p req i m (change_checked c pw m p req ip i d r)
unfolding change_checked record_audit append_audit
change_checked-IsOutcome c pw m p req ip i d (some (status, message)) u e = inl (refl, refl)
change_checked-IsOutcome c pw m p req ip i d none u e =
    let (user, given) = verify_current_password-none pw m p req.current_password e in
    change_verified-IsOutcome c pw m p req ip i d user u given

-- A request to change the password fails, and leaves every session and every account as it was; or the
-- account had a password and the given one was verified against its hash, the hash of the new
-- password is stored in the account, and afterwards, at any time, the identifier of the new cookie
-- gives the new session until it expires, every other identifier of a session of the user gives none,
-- and any further one gives what it gave before. Where no session could be issued the answer is 401,
-- and no identifier gives a session of the user. The map of sessions has one entry for each key.
pub password_rotation :
    (c : Crypto) (pw : Passwords) (m : Memory) (p : Principal) (req : ChangePasswordRequest)
    (ip : Text) (i : Option Issue) (d : Draws)
    → HasUniqueKeys m.sessions
    → IsOutcome c pw p req i m (handle_change_password c pw m p (some req) ip i d)
unfolding handle_change_password
password_rotation c pw m p req ip i d u =
    elim (Option-cases (validate_password_policy req.new_password p.email)) [
      | inr (message, e) ↦ rw (e, handle_change_password) (inl (refl, refl))
      | inl e ↦ elim (Bool-cases (req.new_password == req.current_password)) [
        | inl e' ↦ rw (e, e', handle_change_password) (inl (refl, refl))
        | inr e' ↦
            rw (e, e', handle_change_password)
              (change_checked-IsOutcome c pw m p req ip i d
                (verify_current_password pw m p req.current_password) u refl)
      ]
    ]
