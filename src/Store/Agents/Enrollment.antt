-- ===== src/Store/Agents/Enrollment.antt =====
-- Enrollment tokens are single-use and expire.
use pulse_frix.Prelude.{
  ℕ, ◌≤◌, ◌≡◌, ◌≢◌, refl, none, some, Text, text_eq, arith, same_text_iff, same_text_refl,
  Option-cases, inl, inr,
}
use pulse_frix.Dict
use pulse_frix.Dict.Laws.{get-put}
use pulse_frix.Model.{EnrollmentToken}
use pulse_frix.Store.{Memory, ok, err, not_found}
use pulse_frix.Store.Agents.{consume_enrollment_token}

-- The tokens that are good at a time.
pub record IsGood (m : Memory) (hash : Text) (now : ℕ) (t : EnrollmentToken) : Type 0 where
  pub stored : Dict.get m.enrollments hash ≡ some t
  pub unused : t.used_at ≡ none
  pub in_time : now ≤ t.expires_at

pub refused :
    (m : Memory) (hash : Text) (now : ℕ)
    → ((t : EnrollmentToken) → ¬ IsGood m hash now t)
    → consume_enrollment_token m hash now ≡ (err not_found, m)
unfolding consume_enrollment_token
refused m hash now bad = elim (Option-cases (Dict.get m.enrollments hash)) [
  | inl none_there ↦ rw (none_there, consume_enrollment_token)
  | inr (t, there) ↦ ground (arith, bad t)
]

abbrev pub spent : EnrollmentToken → ℕ → EnrollmentToken
spent t now = record t { used_at = some now }

abbrev pub after_use : Memory → Text → ℕ → EnrollmentToken → Memory
after_use m hash now t = record m { enrollments = Dict.put m.enrollments hash (spent t now) }

pub consume_good :
    (m : Memory) (hash : Text) (now : ℕ) (t : EnrollmentToken)
    → IsGood m hash now t
    → consume_enrollment_token m hash now ≡ (ok (spent t now), after_use m hash now t)
unfolding consume_enrollment_token
consume_good m hash now t g = ground arith

consume_spent :
    (m : Memory) (hash : Text) (now later : ℕ) (t : EnrollmentToken)
    → consume_enrollment_token (after_use m hash now t) hash later
      ≡ (err not_found, after_use m hash now t)
unfolding consume_enrollment_token
consume_spent m hash now later t =
    rw
      (get-put m.enrollments hash (spent t now) hash, same_text_refl hash, consume_enrollment_token)

-- A token that is stored, unused and not past its expiry is handed out marked as used, with its
-- organization; from then on, at any time, its hash is refused, and every other token of the store
-- is what it was. A hash with no such token is refused, and nothing changes.
pub consume_once :
    (m : Memory) (hash : Text) (now : ℕ)
    → ((t : EnrollmentToken)
        → IsGood m hash now t
        → let m' = (consume_enrollment_token m hash now).1 in
          ((consume_enrollment_token m hash now).0 ≡ ok (record t { used_at = some now }))
          × ((later : ℕ) → consume_enrollment_token m' hash later ≡ (err not_found, m'))
          × ((other : Text)
              → other ≢ hash
              → Dict.get m'.enrollments other ≡ Dict.get m.enrollments other))
      × (((t : EnrollmentToken) → ¬ IsGood m hash now t)
          → consume_enrollment_token m hash now ≡ (err not_found, m))
consume_once m hash now = (
  λ t g. rw (consume_good m hash now t g) (
    refl,
    λ later. consume_spent m hash now later t,
    λ other ne.
        ground (arith, get-put m.enrollments hash (spent t now) other, same_text_iff hash other),
  ),
  refused m hash now,
)
