-- ===== src/Account/Setup/Closed.antt =====
-- The wizard creates one account, and is closed from then on.
use pulse_frix.Prelude.{
  ℕ, suc, ◌≡◌, refl, ◌⊎◌, inl, inr, true, false, Option, none, some, List, [], ◌∷◌, Text, bytes,
  text_eq, nat_eq, arith, Option-cases, Bool-cases, length,
}
use pulse_frix.Dict
use pulse_frix.Strings.{to_lower}
use pulse_frix.Model.{Organization, User}
use pulse_frix.Store.{Memory, Result, ok, err, already_exists, not_found, nil_deref}
use pulse_frix.Store.Users.{seed_org_owner, count_users}
use pulse_frix.Store.Sessions.{create_session}
use pulse_frix.Store.Journal.{append_audit}
use pulse_frix.Credentials.{validate_password_policy, validate_email, normalize_email}
use pulse_frix.Api.{Crypto, Draws, Response, fail, json, code_validation, record_audit}
use pulse_frix.Account.{Passwords, Issue, Reply, issue_session, session_payload}
use pulse_frix.Account.Setup.{
  SetupConfig, SetupRequest, Seed, needs_setup, not_signed_in, seeded, handle_setup_complete,
}

-- A failure that leaves the store alone.
abbrev pub IsTurnedDown : Memory → Reply → Type 0
IsTurnedDown m (fail _ _ _, m') = m' ≡ m
IsTurnedDown m (json _ _, m') = ⊥

abbrev pub provisioned : Memory → Reply
provisioned m = (fail 409 code_validation (bytes "this deployment is already provisioned"), m)

-- The answer to the request that creates the account: its session could be started, or not.
abbrev pub welcome : Text → Option Issue → Response
welcome email none = not_signed_in
welcome email (some _) = json 201 (session_payload email)

-- The account is created, and it is the only one.
abbrev pub IsProvisioned : Text → Option Issue → Reply → Type 0
IsProvisioned email i (response, m') = (response ≡ welcome email i) × (count_users m' ≡ 1)

-- Where there is an account, the wizard is closed.
pub handle_setup_complete-closed :
    (c : Crypto) (pw : Passwords) (cfg : SetupConfig) (m : Memory) (req : SetupRequest) (ip : Text)
    (i : Option Issue) (s : Seed) (d : Draws)
    → needs_setup cfg m ≡ false
    → handle_setup_complete c pw cfg m (some req) ip i s d ≡ provisioned m
unfolding handle_setup_complete
handle_setup_complete-closed c pw cfg m req ip i s d closed =
    rw (handle_setup_complete, closed) refl

needs_setup-count :
    (cfg : SetupConfig) (m : Memory) (n : ℕ) → count_users m ≡ suc n → needs_setup cfg m ≡ false
unfolding needs_setup
needs_setup-count cfg m n e = ground (arith, e)

needs_setup-zero : (cfg : SetupConfig) (m : Memory) → needs_setup cfg m ≡ true → count_users m ≡ 0
unfolding needs_setup
needs_setup-zero cfg m h = ground (arith, h)

length-nil : {A : Type 0} (xs : List A) → length xs ≡ 0 → xs ≡ []
length-nil [] h = refl
length-nil (x ∷ xs) h = absurd (omega (arith, h))

needs_setup-nil : (cfg : SetupConfig) (m : Memory) → needs_setup cfg m ≡ true → m.users ≡ []
unfolding needs_setup count_users
needs_setup-nil cfg m h = length-nil m.users (ground (arith, h))

-- The creation fails and changes nothing, or makes the only account.
abbrev Seeds : Memory → Result (Organization × User) × Memory → Type 0
Seeds m (err _, m') = m' ≡ m
Seeds m (ok _, m') = count_users m' ≡ 1

one_user : (m : Memory) (id : Text) (u : User) → m.users ≡ [] → length (Dict.put m.users id u) ≡ 1
unfolding Dict.put
one_user m id u none_yet = rw none_yet refl

count_users-seed_org_owner :
    (m : Memory) (name email hash org_id user_id : Text) (now : ℕ)
    → m.users ≡ []
    → Dict.get m.users_by_mail (to_lower email) ≡ none
    → count_users (seed_org_owner m name email hash org_id user_id now).1 ≡ 1
unfolding seed_org_owner count_users
count_users-seed_org_owner m name email hash org_id user_id now none_yet e =
    let owner : User = record {
      id = user_id;
      email = to_lower email;
      name = [];
      password_hash = hash;
      mfa_secret = [];
      created_at = now;
    } in
    let one = one_user m user_id owner none_yet in ground (arith, e, one)

unchanged-seed_org_owner :
    (m : Memory) (name email hash org_id user_id other : Text) (now : ℕ)
    → Dict.get m.users_by_mail (to_lower email) ≡ some other
    → (seed_org_owner m name email hash org_id user_id now).1 ≡ m
unfolding seed_org_owner
unchanged-seed_org_owner m name email hash org_id user_id other now e = ground (arith, e)

seed_org_owner-Seeds :
    (m : Memory) (name email hash org_id user_id : Text) (now : ℕ)
    → m.users ≡ []
    → Seeds m (seed_org_owner m name email hash org_id user_id now)
unfolding seed_org_owner count_users
seed_org_owner-Seeds m name email hash org_id user_id now none_yet =
    elim (Option-cases (Dict.get m.users_by_mail (to_lower email))) [
      | inl e ↦
          rw (Seeds, seed_org_owner, e)
            (count_users-seed_org_owner m name email hash org_id user_id now none_yet e)
      | inr (other, e) ↦
          rw (Seeds, seed_org_owner, e)
            (unchanged-seed_org_owner m name email hash org_id user_id other now e)
    ]

abbrev pub IsOutcome : Memory → Text → Option Issue → Reply → Type 0
IsOutcome m email i reply = IsTurnedDown m reply ⊎ IsProvisioned email i reply

seeded-IsOutcome :
    (c : Crypto) (email ip : Text) (i : Option Issue) (d : Draws) (m : Memory)
    (r : Result (Organization × User) × Memory)
    → Seeds m r
    → IsOutcome m email i (seeded c email ip i d r)
unfolding seeded count_users issue_session create_session record_audit append_audit
seeded-IsOutcome c email ip none d m (ok (o, u), m') one = inr (refl, one)
seeded-IsOutcome c email ip (some i) d m (ok (o, u), m') one = inr (refl, one)
seeded-IsOutcome c email ip i d m (err not_found, m') same = inl same
seeded-IsOutcome c email ip i d m (err already_exists, m') same = inl same
seeded-IsOutcome c email ip i d m (err nil_deref, m') same = inl same

handle_setup_complete-IsOutcome :
    (c : Crypto) (pw : Passwords) (cfg : SetupConfig) (m : Memory) (req : SetupRequest) (ip : Text)
    (i : Option Issue) (s : Seed) (d : Draws)
    → needs_setup cfg m ≡ true
    → IsOutcome m
        (normalize_email req.email)
        i
        (handle_setup_complete c pw cfg m (some req) ip i s d)
unfolding handle_setup_complete
handle_setup_complete-IsOutcome c pw cfg m req ip i s d needed =
    let email = normalize_email req.email in
    elim (Option-cases (validate_email email)) [
      | inr (message, e) ↦ rw (handle_setup_complete, needed, e) (inl refl)
      | inl e ↦ elim (Option-cases (validate_password_policy req.password email)) [
        | inr (message, e') ↦ rw (handle_setup_complete, needed, e, e') (inl refl)
        | inl e' ↦ elim (Option-cases (pw.hash req.password)) [
          | inl e'' ↦ rw (handle_setup_complete, needed, e, e', e'') (inl refl)
          | inr (hash, e'') ↦
              rw (handle_setup_complete, needed, e, e', e'')
                (seeded-IsOutcome c email ip i d m _ (
                  seed_org_owner-Seeds m (bytes "Default") email hash s.org_id s.user_id s.now
                    (needs_setup-nil cfg m needed)))
        ]
      ]
    ]

-- The wizard turns a request down and leaves the store alone; or, of a store without accounts, it
-- creates one account, answers 201, or 500 where no session could be started for it, is closed for that
-- store, and turns down every later request on it.
pub handle_setup_complete-once :
    (c : Crypto) (pw : Passwords) (cfg : SetupConfig) (m : Memory) (req : SetupRequest) (ip : Text)
    (i : Option Issue) (s : Seed) (d : Draws)
    → let reply = handle_setup_complete c pw cfg m (some req) ip i s d in
      IsTurnedDown m reply
      ⊎ (IsProvisioned (normalize_email req.email) i reply
          × (count_users m ≡ 0)
          × ((c' : Crypto) (pw' : Passwords) (cfg' : SetupConfig) (req' : SetupRequest) (ip' : Text)
                (i' : Option Issue) (s' : Seed) (d' : Draws)
              → handle_setup_complete c' pw' cfg' reply.1 (some req') ip' i' s' d'
                ≡ provisioned reply.1))
handle_setup_complete-once c pw cfg m req ip i s d = elim (Bool-cases (needs_setup cfg m)) [
  | inr closed ↦ inl (rw (handle_setup_complete-closed c pw cfg m req ip i s d closed) refl)
  | inl needed ↦ elim (handle_setup_complete-IsOutcome c pw cfg m req ip i s d needed) [
    | inl down ↦ inl down
    | inr (created, one) ↦ inr (
      (created, one),
      needs_setup-zero cfg m needed,
      λ c' pw' cfg' req' ip' i' s' d'.
          handle_setup_complete-closed c' pw' cfg' _ req' ip' i' s' d'
            (needs_setup-count cfg' _ 0 one),
    )
  ]
]
