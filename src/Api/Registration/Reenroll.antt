-- ===== src/Api/Registration/Reenroll.antt =====
-- Re-enrollment: what is refused, and what a refusal leaves alone.
use pulse_frix.Prelude.{
  ℕ, ◌≡◌, refl, some, Text, text_eq, ◌==◌, not, Bool, true, false, [], ◌∷◌, All, arith, ap, sym,
  ◌∙◌, same_text_iff, Option-cases, inl, inr, Bool-cases,
}
use pulse_frix.Dict
use pulse_frix.Dict.{Dict}
use pulse_frix.Dict.Laws.{find-none}
use pulse_frix.Model.{Agent, EnrollmentToken}
use pulse_frix.Store.{Memory, ok, err, Error}
use pulse_frix.Store.Agents.{get_agent_by_public_key}
use pulse_frix.Store.Journal.{append_audit}
use pulse_frix.Store.Agents.Enrollment.{IsGood, refused}
use pulse_frix.Api.{Crypto, Draws, Response, fail, json, hash_token, record_audit}
use pulse_frix.Api.Signing.{Nonces, Headers, Verdict, valid, invalid, verify_signed_request}
use pulse_frix.Api.Registration.{
  ReenrollRequest, Reply, handle_reenroll, reenroll_verified, reenroll_path, rebind, adopt,
  adopt_used, audit_reenroll, reenroll_checked, is_supported,
}

abbrev pub IsFailure : Response → Type 0
IsFailure (fail _ _ _) = Unit
IsFailure (json _ _) = ⊥

-- The servers, the agents and the enrollment tokens are the same.
pub record SameFleet (m m' : Memory) : Type 0 where
  pub servers : m'.servers ≡ m.servers
  pub agents : m'.agents ≡ m.agents
  pub agent_by_aid : m'.agent_by_aid ≡ m.agent_by_aid
  pub enrollments : m'.enrollments ≡ m.enrollments

abbrev IsRefusal : Memory → Reply → Type 0
IsRefusal m (response, m') = IsFailure response × SameFleet m m'

SameFleet-refl : (m : Memory) → SameFleet m m
SameFleet-refl m = record { servers = refl; agents = refl; agent_by_aid = refl; enrollments = refl }

SameFleet-audit :
    (m : Memory) (org_id : Text) (req : ReenrollRequest) (result ip : Text) (metadata : Dict Text)
    (d : Draws)
    → SameFleet m (audit_reenroll m org_id req result ip metadata d)
unfolding audit_reenroll record_audit append_audit
SameFleet-audit m org_id req result ip metadata d = record {
  servers = refl;
  agents = refl;
  agent_by_aid = refl;
  enrollments = refl;
}

rebind_revoked :
    (m : Memory) (req : ReenrollRequest) (ip : Text) (a : Agent) (d : Draws) (t : ℕ)
    → a.revoked_at ≡ some t
    → IsRefusal m (rebind m req ip a d)
unfolding rebind
rebind_revoked m req ip a d t e = rw (e, rebind) (tt, SameFleet-audit m _ req _ ip _ d)

adopt_refused :
    (c : Crypto) (m : Memory) (req : ReenrollRequest) (ip : Text) (d : Draws)
    → ((t : EnrollmentToken) → ¬ IsGood m (hash_token c req.enrollment_token) d.made_at t)
    → IsRefusal m (adopt c m req ip d)
unfolding adopt adopt_used
adopt_refused c m req ip d bad = elim (Bool-cases (req.enrollment_token == [])) [
  | inl e ↦ rw (e, adopt) (tt, SameFleet-audit m _ req _ ip _ d)
  | inr e ↦
      rw (e, adopt, refused m (hash_token c req.enrollment_token) d.made_at bad)
        (tt, SameFleet-audit m _ req _ ip _ d)
]

-- Every agent of a key is revoked.
abbrev pub AreRevoked : Memory → Text → Type 0
AreRevoked m public_key =
    All (λ (a : Agent). a.public_key ≡ public_key → (t : ℕ) × (a.revoked_at ≡ some t))
      (Dict.values m.agents)

-- A row that a search finds passes the test, and has what all rows have.
find-All :
    (p : Agent → Bool) (Q : Agent → Type 0) (d : Dict Agent) (a : Agent)
    → Dict.find p d ≡ some a
    → All Q (Dict.values d)
    → (p a ≡ true) × Q a
unfolding Dict.find Dict.values
find-All p Q [] a e all = absurd (ground (arith, e))
find-All p Q ((k, b) ∷ d) a e (first, all) = elim (Bool-cases (p b)) [
  | inl hit ↦
      let same : b ≡ a = ground (arith, e, hit) in (ap p (sym same) ∙ hit, rw (sym same) first)
  | inr miss ↦ find-All p Q d a (ground (arith, e, miss)) all
]

-- With such a row, and a key that is not empty, the search for the key finds a revoked agent.
find_revoked :
    (m : Memory) (public_key k : Text) (a : Agent)
    → (public_key == []) ≡ false
    → Dict.get m.agents k ≡ some a
    → a.public_key ≡ public_key
    → AreRevoked m public_key
    → (b : Agent) × (t : ℕ) × (get_agent_by_public_key m public_key ≡ ok b)
      × (b.revoked_at ≡ some t)
unfolding get_agent_by_public_key
find_revoked m public_key k a given row own all =
    let p : Agent → Bool = λ b. b.public_key == public_key in
    elim (Option-cases (Dict.find p m.agents)) [
      | inl gone ↦
          let miss = find-none p m.agents k a gone row in
          absurd (ground (arith, miss, own, same_text_iff a.public_key public_key))
      | inr (b, found) ↦
          let (hit, late) = find-All p _ m.agents b found all in
          let (t, e) = late ((same_text_iff b.public_key public_key).0 hit) in
          (b, t, rw (given, found) refl, e)
    ]

-- The reasons to refuse.
pub data HasNoRight (c : Crypto) (m : Memory) (req : ReenrollRequest) (d : Draws)
    : Verdict → Type 0 where
  no_proof : {message : Text} → HasNoRight c m req d (invalid message)
  revoked :
      {v : Verdict} (k : Text) (a : Agent)
      → Dict.get m.agents k ≡ some a
      → a.public_key ≡ req.public_key
      → AreRevoked m req.public_key
      → HasNoRight c m req d v
  no_token :
      {v : Verdict} (e : Error)
      → get_agent_by_public_key m req.public_key ≡ err e
      → ((t : EnrollmentToken) → ¬ IsGood m (hash_token c req.enrollment_token) d.made_at t)
      → HasNoRight c m req d v

verified_refused :
    (c : Crypto) (m : Memory) (req : ReenrollRequest) (ip : Text) (d : Draws)
    → (req.public_key == []) ≡ false
    → HasNoRight c m req d valid
    → IsRefusal m (reenroll_verified c m req ip d)
unfolding reenroll_verified
verified_refused c m req ip d given (revoked k a row own all) =
    let (b, t, e, e') = find_revoked m req.public_key k a given row own all in
    rw (e, reenroll_verified) (rebind_revoked m req ip b d t e')
verified_refused c m req ip d given (no_token x e bad) =
    rw (e, reenroll_verified) (adopt_refused c m req ip d bad)

checked_refused :
    (c : Crypto) (m : Memory) (req : ReenrollRequest) (ip : Text) (d : Draws) (v : Verdict)
    → (req.public_key == []) ≡ false
    → HasNoRight c m req d v
    → IsRefusal m (reenroll_checked c m req ip d v)
unfolding reenroll_checked
checked_refused c m req ip d valid given refusal = verified_refused c m req ip d given refusal
checked_refused c m req ip d (invalid message) given refusal =
    (tt, SameFleet-audit m _ req _ ip _ d)

-- Re-enrollment is refused, and servers, agents and enrollment tokens stay as they were, when the
-- signature's check fails, when the key is that of an agent and every agent of that key is revoked
-- (whatever token the request brings), and when the key is unknown and the token is not a stored, unused and unexpired one.
pub reenroll_refused :
    (c : Crypto) (m : Memory) (seen : Nonces) (h : Headers) (body : Text) (req : ReenrollRequest)
    (ip : Text) (now now' : ℕ) (d : Draws)
    → HasNoRight c m req d
        (verify_signed_request c seen h body req.public_key reenroll_path now now').0
    → let (response, m') = (handle_reenroll c m seen h body (some req) ip now now' d).0 in
      IsFailure response × SameFleet m m'
unfolding handle_reenroll
reenroll_refused c m seen h body req ip now now' d refusal =
    elim (Bool-cases (not (is_supported req.protocol_version))) [
      | inl e ↦ rw (e, handle_reenroll) (tt, SameFleet-refl m)
      | inr e ↦ elim (Bool-cases (req.public_key == [])) [
        | inl e' ↦ rw (e, e', handle_reenroll) (tt, SameFleet-refl m)
        | inr e' ↦ rw (e, e', handle_reenroll) (checked_refused c m req ip d _ e' refusal)
      ]
    ]
