-- ===== src/Store/Agents.antt =====
-- memory.go, enrollment tokens and agents.
pub mod Enrollment
use pulse_frix.Prelude.{
  ℕ, Option, none, some, List, [], ◌∷◌, Text, text_eq, ◌==◌, ltb, if◌then◌else◌,
}
use pulse_frix.Dict
use pulse_frix.Model.{Agent, EnrollmentToken}
use pulse_frix.Store.{Memory, Result, ok, err, Done, not_found, nil_deref}

unfoldable pub create_enrollment_token : Memory → EnrollmentToken → Done × Memory
create_enrollment_token m t =
    (ok tt, record m { enrollments = Dict.put m.enrollments t.token_hash t })

-- `t.UsedAt != nil || now.After(t.ExpiresAt)`, negated.
abbrev use_token : Memory → Text → ℕ → EnrollmentToken → Result EnrollmentToken × Memory
use_token m hash now t =
    let used = record t { used_at = some now } in
    elim t.used_at [
      | some _ ↦ (err not_found, m)
      | none ↦
          if ltb t.expires_at now
          then (err not_found, m)
          else (ok used, record m { enrollments = Dict.put m.enrollments hash used })
    ]

unfoldable pub consume_enrollment_token : Memory → Text → ℕ → Result EnrollmentToken × Memory
consume_enrollment_token m hash now = elim (Dict.get m.enrollments hash) [
  | none ↦ (err not_found, m)
  | some t ↦ use_token m hash now t
]

unfoldable pub create_agent : Memory → Agent → Text → Result Agent × Memory
create_agent m a new_id =
    let id = if a.id == [] then new_id else a.id in
    let row = record a { id = id } in
    (
      ok row,
      record m {
        agents = Dict.put m.agents id row;
        agent_by_aid = Dict.put m.agent_by_aid a.agent_id id;
      },
    )

unfoldable pub get_agent_by_agent_id : Memory → Text → Result Agent
get_agent_by_agent_id m agent_id = elim (Dict.get m.agent_by_aid agent_id) [
  | none ↦ err not_found
  | some id ↦ elim (Dict.get m.agents id) [
    | none ↦ err nil_deref
    | some a ↦ elim a.revoked_at [ some _ ↦ err not_found | none ↦ ok a ]
  ]
]

unfoldable pub get_agent_by_public_key : Memory → Text → Result Agent
get_agent_by_public_key m public_key =
    if public_key == []
    then err not_found
    else elim (Dict.find (λ a. a.public_key == public_key) m.agents) [
      | none ↦ err not_found
      | some a ↦ ok a
    ]

unfoldable pub revoke_agent : Memory → Text → Text → ℕ → Done × Memory
revoke_agent m org_id id now = elim (Dict.get m.agents id) [
  | none ↦ (err not_found, m)
  | some a ↦
      if a.org_id == org_id
      then (ok tt, record m { agents = Dict.put m.agents id (record a { revoked_at = some now }) })
      else (err not_found, m)
]
