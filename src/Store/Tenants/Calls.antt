-- ===== src/Store/Tenants/Calls.antt =====
-- Each call, in the tables that another organization's views read.
use pulse_frix.Prelude.{
  ℕ, ◌≡◌, ◌≢◌, refl, true, false, none, Text, text_eq, ◌==◌, [], arith, same_text_iff,
  same_text_refl, some, Bool-cases, Option-cases, inl, inr, if◌then◌else◌,
}
use pulse_frix.Dict
use pulse_frix.Dict.{Dict, HasUniqueKeys}
use pulse_frix.Dict.Scoped.{
  SameScope, keep, SameScope-refl, SameScope-put, SameScope-remove, SameScope-update_first,
}
use pulse_frix.Model.{Server, Agent, Alert, AlertInstance, Health}
use pulse_frix.Store.{Memory}
use pulse_frix.Store.Servers.{
  upsert_server, delete_server, touch_server_seen, ensure_server, refreshed, is_row,
}
use pulse_frix.Store.Agents.{create_agent, revoke_agent}
use pulse_frix.Store.Alerts.{create_alert, update_alert, delete_alert, upsert_alert_instance}
use pulse_frix.Dict.Laws.{get-put}
use pulse_frix.Store.Tenants.{IsOwn}
use pulse_frix.Store.Tenants.AgentIds.{by_aid, row_agent_same, by_aid-put}
use pulse_frix.Store.Tenants.Tables.{
  SameTables, with_servers, with_agents, with_alerts, with_instances, with_server_gone,
}
use pulse_frix.Store.Tenants.Keys.{HasNoSlash}

-- A value of `a` is none of `b`'s.
pub not_ours : (a b x : Text) → a ≢ b → x ≡ a → (x == b) ≡ false
not_ours a b x ne e = ground (arith, ne, same_text_iff x b)

-- A row of `a` is none of `b`'s.
pub keep_own :
    {V : Type 0} (org_of : V → Text) (a b : Text) (d : Dict V) (k : Text)
    → a ≢ b
    → IsOwn org_of a d k
    → keep (λ v. org_of v == b) (Dict.get d k) ≡ none
keep_own org_of a b d k ne own = elim (Option-cases (Dict.get d k)) [
  | inl gone ↦ rw gone refl
  | inr (v, found) ↦ let out = not_ours a b (org_of v) ne (own v found) in rw (found, out) refl
]

module _ (m : Memory) (a b : Text) (ne : a ≢ b) where
  pub upsert_server-SameTables :
      (s : Server) (new_id : Text) (now : ℕ)
      → IsOwn (λ v. v.org_id) a m.servers (if s.id == [] then new_id else s.id)
      → SameTables b m (upsert_server m a s new_id now).1
  unfolding upsert_server
  upsert_server-SameTables s new_id now free = with_servers b m _ (
      SameScope-put _ m.servers _ _ (not_ours a b a ne refl)
        (keep_own (λ v. v.org_id) a b _ _ ne free))

  row_outside : (sid : Text) (s : Server) → is_row a sid s ≡ true → (s.org_id == b) ≡ false
  row_outside sid s hit = ground (arith, ne, same_text_iff s.org_id a, same_text_iff s.org_id b)

  pub touch_server_seen-SameTables :
      (sid : Text) (now : ℕ) (status : Health)
      → SameTables b m (touch_server_seen m a sid now status).1
  unfolding touch_server_seen
  touch_server_seen-SameTables sid now status =
      elim (Option-cases (
        Dict.update_first (is_row a sid) (λ s. record s { last_seen_at = now; status = status })
          m.servers)) [
            | inl none_there ↦
                rw (none_there, touch_server_seen)
                  (with_servers b m m.servers (SameScope-refl _ m.servers))
            | inr (d, updated) ↦
                rw (updated, touch_server_seen)
                  (with_servers b m d (
                    SameScope-update_first _ (is_row a sid) _
                      (λ s hit. (row_outside sid s hit, row_outside sid s hit)) m.servers d
                      updated))
          ]

  pub ensure_server-SameTables :
      (sid hostname : Text) (now : ℕ) (status : Health) (new_id : Text)
      → IsOwn (λ v. v.org_id) a m.servers new_id
      → SameTables b m (ensure_server m a sid hostname now status new_id).1
  unfolding ensure_server
  ensure_server-SameTables sid hostname now status new_id free =
      elim (Option-cases
        (Dict.update_first (is_row a sid) (refreshed hostname now status) m.servers)) [
          | inl none_there ↦
              rw (none_there, ensure_server)
                (with_servers b m _ (
                  SameScope-put _ m.servers _ _ (not_ours a b a ne refl)
                    (keep_own (λ v. v.org_id) a b _ _ ne free)))
          | inr (d, updated) ↦
              rw (updated, ensure_server)
                (with_servers b m d (
                  SameScope-update_first _ (is_row a sid) _
                    (λ s hit. (row_outside sid s hit, row_outside sid s hit)) m.servers d updated))
        ]

  same_ids :
      {d : Dict Agent}
      → SameScope (λ v. v.org_id == b) m.agents d
      → (aid : Text) → by_aid b d m.agent_by_aid aid ≡ by_aid b m.agents m.agent_by_aid aid
  same_ids {d} same aid = row_agent_same b m.agents d (Dict.get m.agent_by_aid aid) same

  pub revoke_agent-SameTables : (id : Text) (now : ℕ) → SameTables b m (revoke_agent m a id now).1
  unfolding revoke_agent
  revoke_agent-SameTables id now =
      let still = SameScope-refl (λ (v : Agent). v.org_id == b) m.agents in
      elim (Option-cases (Dict.get m.agents id)) [
        | inl gone ↦ rw (gone, revoke_agent) (with_agents b m _ _ still (same_ids still))
        | inr (g, row) ↦ elim (Bool-cases (g.org_id == a)) [
          | inr alien ↦ rw (row, alien, revoke_agent) (with_agents b m _ _ still (same_ids still))
          | inl own ↦
              let out = not_ours a b g.org_id ne ((same_text_iff g.org_id a).0 own) in
              let same =
                SameScope-put (λ (v : Agent). v.org_id == b) m.agents id
                  (record g { revoked_at = some now }) out (rw (row, out) refl) in
              rw (row, own, revoke_agent) (with_agents b m _ _ same (same_ids same))
        ]
      ]

  pub create_agent-SameTables :
      (g : Agent) (new_id : Text)
      → g.org_id ≡ a
      → IsOwn (λ v. v.org_id) a m.agents (if g.id == [] then new_id else g.id)
      → ((row : Text)
          → Dict.get m.agent_by_aid g.agent_id ≡ some row
          → IsOwn (λ v. v.org_id) a m.agents row)
      → SameTables b m (create_agent m g new_id).1
  unfolding create_agent
  create_agent-SameTables g new_id own free index =
      let id = if g.id == [] then new_id else g.id in
      let row : Agent = record g { id = id } in
      let out = not_ours a b g.org_id ne own in
      let same =
        SameScope-put (λ (v : Agent). v.org_id == b) m.agents id row out
          (keep_own (λ v. v.org_id) a b m.agents id ne free) in
      let gone : keep (λ (v : Agent). v.org_id == b) (Dict.get (Dict.put m.agents id row) id)
          ≡ none =
        rw (get-put m.agents id row id, same_text_refl id, out) refl in
      with_agents b m _ _ same (λ aid.
        by_aid-put b m.agents _ m.agent_by_aid g.agent_id id aid same gone
          (λ r found. keep_own (λ v. v.org_id) a b m.agents r ne (index r found)))

  pub create_alert-SameTables :
      (r : Alert) (new_id : Text)
      → r.org_id ≡ a
      → IsOwn (λ v. v.org_id) a m.alerts (if r.id == [] then new_id else r.id)
      → SameTables b m (create_alert m r new_id).1
  unfolding create_alert
  create_alert-SameTables r new_id own free = with_alerts b m _ (
      SameScope-put _ m.alerts _ _ (not_ours a b r.org_id ne own)
        (keep_own (λ v. v.org_id) a b _ _ ne free))

  pub update_alert-SameTables : (r : Alert) → SameTables b m (update_alert m a r).1
  unfolding update_alert
  update_alert-SameTables r = elim (Option-cases (Dict.get m.alerts r.id)) [
    | inl gone ↦ rw (gone, update_alert) (with_alerts b m _ (SameScope-refl _ m.alerts))
    | inr (old, row) ↦ elim (Bool-cases (old.org_id == a)) [
      | inr alien ↦ rw (row, alien, update_alert) (with_alerts b m _ (SameScope-refl _ m.alerts))
      | inl own ↦
          let out = not_ours a b old.org_id ne ((same_text_iff old.org_id a).0 own) in
          rw (row, own, update_alert)
            (with_alerts b m _
              (SameScope-put _ m.alerts _ _ (not_ours a b a ne refl) (rw (row, out) refl)))
    ]
  ]

  pub delete_alert-SameTables :
      (id : Text) → HasUniqueKeys m.alerts → SameTables b m (delete_alert m a id).1
  unfolding delete_alert
  delete_alert-SameTables id u = elim (Option-cases (Dict.get m.alerts id)) [
    | inl gone ↦ rw (gone, delete_alert) (with_alerts b m _ (SameScope-refl _ m.alerts))
    | inr (old, row) ↦ elim (Bool-cases (old.org_id == a)) [
      | inr alien ↦ rw (row, alien, delete_alert) (with_alerts b m _ (SameScope-refl _ m.alerts))
      | inl own ↦
          let out = not_ours a b old.org_id ne ((same_text_iff old.org_id a).0 own) in
          rw (row, own, delete_alert)
            (with_alerts b m _ (SameScope-remove _ m.alerts id u (rw (row, out) refl)))
    ]
  ]

  pub upsert_alert_instance-SameTables :
      (i : AlertInstance) (new_id : Text)
      → i.org_id ≡ a
      → IsOwn (λ v. v.org_id) a m.instances (if i.id == [] then new_id else i.id)
      → SameTables b m (upsert_alert_instance m i new_id).1
  unfolding upsert_alert_instance
  upsert_alert_instance-SameTables i new_id own free = with_instances b m _ (
      SameScope-put _ m.instances _ _ (not_ours a b i.org_id ne own)
        (keep_own (λ v. v.org_id) a b _ _ ne free))

  pub delete_server-SameTables :
      (id : Text)
      → HasNoSlash a
      → HasNoSlash b
      → HasUniqueKeys m.servers
      → SameTables b m (delete_server m a id).1
  unfolding delete_server
  delete_server-SameTables id ha hb u = elim (Option-cases (Dict.get m.servers id)) [
    | inl gone ↦ rw (gone, delete_server) (with_servers b m _ (SameScope-refl _ m.servers))
    | inr (s, row) ↦ elim (Bool-cases (s.org_id == a)) [
      | inr alien ↦ rw (row, alien, delete_server) (with_servers b m _ (SameScope-refl _ m.servers))
      | inl own ↦
          let out = not_ours a b s.org_id ne ((same_text_iff s.org_id a).0 own) in
          rw (row, own, delete_server)
            (with_server_gone b m _ s.server_id a ne ha hb
              (SameScope-remove _ m.servers id u (rw (row, out) refl)))
    ]
  ]
