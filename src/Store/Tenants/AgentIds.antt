-- ===== src/Store/Tenants/AgentIds.antt =====
-- The agents that their identifiers find, for one organization.
use pulse_frix.Prelude.{
  ◌≡◌, ◌∙◌, refl, ap, sym, Option, none, some, Text, text_eq, ◌==◌, arith, Bool-cases, inl, inr,
  same_text_iff,
}
use pulse_frix.Dict
use pulse_frix.Dict.{Dict}
use pulse_frix.Dict.Laws.{get-put}
use pulse_frix.Dict.Scoped.{SameScope, keep}
use pulse_frix.Model.{Agent}
use pulse_frix.Store.{Memory}
use pulse_frix.Store.Agents.{get_agent_by_agent_id}
use pulse_frix.Store.Tenants.{own_agent}

unrevoked : Option Agent → Option Agent
unrevoked none = none
unrevoked (some a) = elim a.revoked_at [ none ↦ some a | some _ ↦ none ]

-- The agent of the organization that has the row, if there is one.
pub row_agent : Text → Dict Agent → Option Text → Option Agent
row_agent org agents none = none
row_agent org agents (some row) = unrevoked (keep (λ a. a.org_id == org) (Dict.get agents row))

-- The agent of the organization that an identifier finds, in its two tables.
abbrev pub by_aid : Text → Dict Agent → Dict Text → Text → Option Agent
by_aid org agents index aid = row_agent org agents (Dict.get index aid)

pub own_agent-by_aid :
    (m : Memory) (org aid : Text)
    → own_agent org (get_agent_by_agent_id m aid) ≡ by_aid org m.agents m.agent_by_aid aid
unfolding get_agent_by_agent_id row_agent unrevoked
own_agent-by_aid m org aid = ground arith

-- The same rows and the same index find the same agents.
pub row_agent_same :
    (org : Text) (agents d : Dict Agent) (row : Option Text)
    → SameScope (λ a. a.org_id == org) agents d
    → row_agent org d row ≡ row_agent org agents row
unfolding row_agent
row_agent_same org agents d none same = refl
row_agent_same org agents d (some row) same = ap unrevoked (same.looked_up row)

row_agent-none :
    (org : Text) (agents : Dict Agent) (row : Option Text)
    → ((r : Text) → row ≡ some r → keep (λ a. a.org_id == org) (Dict.get agents r) ≡ none)
    → row_agent org agents row ≡ none
unfolding row_agent unrevoked
row_agent-none org agents none alien = refl
row_agent-none org agents (some r) alien = ap unrevoked (alien r refl)

-- So they do when an identifier is given a row, and neither the new row nor the old one is an agent of
-- the organization.
pub by_aid-put :
    (org : Text) (agents d : Dict Agent) (index : Dict Text) (new row aid : Text)
    → SameScope (λ a. a.org_id == org) agents d
    → keep (λ a. a.org_id == org) (Dict.get d row) ≡ none
    → ((r : Text)
        → Dict.get index new ≡ some r
        → keep (λ a. a.org_id == org) (Dict.get agents r) ≡ none)
    → by_aid org d (Dict.put index new row) aid ≡ by_aid org agents index aid
unfolding row_agent unrevoked
by_aid-put org agents d index new row aid same fresh alien = elim (Bool-cases (new == aid)) [
  | inl hit ↦
      let is_row : Dict.get (Dict.put index new row) aid ≡ some row =
        ground (arith, get-put index new row aid, hit) in
      let at : new ≡ aid = (same_text_iff new aid).0 hit in
      ap (row_agent org d) is_row
      ∙ (ap unrevoked fresh
          ∙ sym (
              row_agent-none org agents (Dict.get index aid)
                (λ r found. alien r (ap (Dict.get index) at ∙ found))))
  | inr miss ↦
      let is_old : Dict.get (Dict.put index new row) aid ≡ Dict.get index aid =
        ground (arith, get-put index new row aid, miss) in
      ap (row_agent org d) is_old ∙ row_agent_same org agents d (Dict.get index aid) same
]
