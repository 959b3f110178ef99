-- ===== src/AlertEngine/Continuity.antt =====
-- An alert that keeps firing keeps its instance.
use pulse_frix.Prelude.{
  ℕ, true, false, ◌≡◌, ◌∙◌, refl, Option, none, some, List, [], ◌∷◌, ◌++◌, Text, bytes, text_eq,
  ◌==◌, if◌then◌else◌, arith, same_text_iff, same_text_refl, Bool-cases, Option-cases, inl, inr,
  ◌⊎◌,
}
use pulse_frix.Dict
use pulse_frix.Dict.{Dict}
use pulse_frix.Dict.Laws.{get-put}
use pulse_frix.Model.{Alert, AlertInstance, Server}
use pulse_frix.Store.{Memory}
use pulse_frix.Store.Alerts.{list_alerts}
use pulse_frix.Store.Servers.{list_servers}
use pulse_frix.AlertEngine.{
  Outside, RuleCond, Engine, Round, fire, on_breach, is_due, evaluate_server, evaluate_servers,
  evaluate_rule, evaluate_rules, evaluate_alerts, firing_of, is_active, keep_active, dedup_key,
  check_rule, parse_rule, breach_key, current,
}

-- The instance of an active key, from what fired before: the same one but for its root cause, or
-- one that starts now.
pub data Continues (now : ℕ) (dedup : Text) : Option AlertInstance → AlertInstance → Type 0 where
  goes_on :
      {old : AlertInstance} (cause : Text)
      → Continues now dedup (some old) (record old { root_cause = cause })
  starts :
      {i : AlertInstance}
      → i.started_at ≡ now
      → i.dedup_key ≡ dedup
      → i.id ≡ bytes "ali_" ++ dedup
      → Continues now dedup none i

-- An active key has the instance that goes on or starts.
abbrev pub IsOngoing : ℕ → Text → Option AlertInstance → Option AlertInstance → Type 0
IsOngoing now dedup before none = ⊥
IsOngoing now dedup before (some i) = Continues now dedup before i

-- In a round that began with `before`, the keys that are not active have what they had.
record IsFair (before : Dict AlertInstance) (now : ℕ) (r : Round) : Type 0 where
  idle : (d : Text) → is_active r.active d ≡ false → Dict.get r.firing d ≡ Dict.get before d
  active :
      (d : Text)
      → is_active r.active d ≡ true
      → IsOngoing now d (Dict.get before d) (Dict.get r.firing d)

module _ (before : Dict AlertInstance) (now : ℕ) where
  again :
      (d detail : Text) (old : Option AlertInstance) (i : AlertInstance)
      → Continues now d old i
      → Continues now d old (record i { root_cause = detail })
  again d detail (some old) _ (goes_on cause) = goes_on detail
  again d detail none i (starts a b c) = starts a b c

  -- What fires now is what fired before, or went on or started earlier in the round.
  current-Continues :
      (org_id : Text) (rule : Alert) (srv : Server) (detail : Text)
      (old firing : Option AlertInstance)
      → (firing ≡ old) ⊎ IsOngoing now (dedup_key rule srv) old firing
      → Continues now
          (dedup_key rule srv)
          old
          (record (current org_id rule srv now firing) { root_cause = detail })
  unfolding current
  current-Continues org_id rule srv detail none none (inl same) = starts refl refl refl
  current-Continues org_id rule srv detail (some o) none (inl same) = absurd (ground (arith, same))
  current-Continues org_id rule srv detail none (some i) (inl same) = absurd (ground (arith, same))
  current-Continues org_id rule srv detail (some o) (some i) (inl same) =
      let p : i ≡ o = cc in rw p (goes_on detail)
  current-Continues org_id rule srv detail none none (inr c) = absurd c
  current-Continues org_id rule srv detail (some o) none (inr c) = absurd c
  current-Continues org_id rule srv detail old (some i) (inr c) = again _ detail old i c

  settled :
      (r : Round) (d : Text)
      → IsFair before now r
      → (Dict.get r.firing d ≡ Dict.get before d)
        ⊎ IsOngoing now d (Dict.get before d) (Dict.get r.firing d)
  settled r d fair = elim (Bool-cases (is_active r.active d)) [
    | inl e ↦ inr (fair.active d e)
    | inr e ↦ inl (fair.idle d e)
  ]

  fire-IsFair :
      (org_id : Text) (rule : Alert) (srv : Server) (detail : Text) (r : Round)
      → IsFair before now r
      → IsFair before now (fire org_id rule srv detail now r)
  unfolding fire
  fire-IsFair org_id rule srv detail r fair =
      let dedup = dedup_key rule srv in
      let inst = record (current org_id rule srv now (Dict.get r.firing dedup)) {
        root_cause = detail;
      } in
      record {
        idle = λ d h. ground (arith, fair.idle d, get-put r.firing dedup inst d);
        active = λ d h. elim (Bool-cases (dedup == d)) [
          | inl e ↦
              let p : dedup ≡ d = (same_text_iff dedup d).0 e in
              rw (get-put r.firing dedup inst d, e)
                (rw⁻¹ p (
                  current-Continues org_id rule srv detail (Dict.get before dedup)
                    (Dict.get r.firing dedup) (settled r dedup fair)))
          | inr e ↦ rw (get-put r.firing dedup inst d, e) (fair.active d (ground (arith, e, h)))
        ];
      }

  on_breach-IsFair :
      (org_id : Text) (rule : Alert) (srv : Server) (detail : Text) (start : ℕ) (r : Round)
      → IsFair before now r
      → IsFair before now (on_breach org_id rule srv detail now start r)
  unfolding on_breach
  on_breach-IsFair org_id rule srv detail start r fair =
      elim (Bool-cases (is_due now start rule.for_seconds)) [
        | inl e ↦ rw (e, on_breach) (fire-IsFair org_id rule srv detail r fair)
        | inr e ↦ rw (e, on_breach) fair
      ]

  with_breach :
      (breach : Dict ℕ) (r : Round)
      → IsFair before now r
      → IsFair before now (record r { breach = breach })
  with_breach breach r fair = record { idle = fair.idle; active = fair.active }

  evaluate_server-IsFair :
      (out : Outside) (m : Memory) (org_id : Text) (rule : Alert) (cond : RuleCond) (srv : Server)
      (r : Round)
      → IsFair before now r
      → IsFair before now (evaluate_server out m org_id now rule cond srv r)
  unfolding evaluate_server
  evaluate_server-IsFair out m org_id rule cond srv r fair =
      elim (Bool-cases (check_rule out m org_id srv cond).0) [
        | inr e ↦ rw (e, evaluate_server) (with_breach _ r fair)
        | inl e ↦ elim (Option-cases (Dict.get r.breach (breach_key org_id rule srv))) [
          | inr (start, e') ↦
              rw (e, e', evaluate_server) (on_breach-IsFair org_id rule srv _ start r fair)
          | inl e' ↦
              rw (e, e', evaluate_server)
                (on_breach-IsFair org_id rule srv _ now _ (with_breach _ r fair))
        ]
      ]

  evaluate_servers-IsFair :
      (out : Outside) (m : Memory) (org_id : Text) (rule : Alert) (cond : RuleCond)
      (servers : List Server) (r : Round)
      → IsFair before now r
      → IsFair before now (evaluate_servers out m org_id now rule cond servers r)
  unfolding evaluate_servers
  evaluate_servers-IsFair out m org_id rule cond [] r fair = fair
  evaluate_servers-IsFair out m org_id rule cond (srv ∷ servers) r fair =
      evaluate_servers-IsFair out m org_id rule cond servers _
        (evaluate_server-IsFair out m org_id rule cond srv r fair)

  evaluate_rule-IsFair :
      (out : Outside) (m : Memory) (org_id : Text) (servers : List Server) (rule : Alert)
      (r : Round)
      → IsFair before now r
      → IsFair before now (evaluate_rule out m org_id now servers rule r)
  unfolding evaluate_rule
  evaluate_rule-IsFair out m org_id servers rule r fair = elim (Bool-cases rule.enabled) [
    | inr e ↦ rw (e, evaluate_rule) fair
    | inl e ↦ elim (Option-cases (parse_rule out rule.expr)) [
      | inl e' ↦ rw (e, e', evaluate_rule) fair
      | inr (cond, e') ↦
          rw (e, e', evaluate_rule) (evaluate_servers-IsFair out m org_id rule cond servers r fair)
    ]
  ]

  evaluate_rules-IsFair :
      (out : Outside) (m : Memory) (org_id : Text) (servers : List Server) (rules : List Alert)
      (r : Round)
      → IsFair before now r
      → IsFair before now (evaluate_rules out m org_id now servers rules r)
  unfolding evaluate_rules
  evaluate_rules-IsFair out m org_id servers [] r fair = fair
  evaluate_rules-IsFair out m org_id servers (rule ∷ rules) r fair =
      evaluate_rules-IsFair out m org_id servers rules _
        (evaluate_rule-IsFair out m org_id servers rule r fair)

get-keep_active :
    (active : List Text) (f : Dict AlertInstance) (d : Text)
    → Dict.get (keep_active active f) d ≡ (if is_active active d then Dict.get f d else none)
unfolding keep_active Dict.get
get-keep_active active [] d = ground arith
get-keep_active active ((k, i) ∷ f) d =
    ground (arith, get-keep_active active f d, same_text_iff k d)

start_round : Engine → Text → Round
start_round e org_id = record { breach = e.breach; firing = firing_of e org_id; active = [] }

start_round-IsFair :
    (e : Engine) (org_id : Text) (now : ℕ) → IsFair (firing_of e org_id) now (start_round e org_id)
unfolding start_round
start_round-IsFair e org_id now = record {
  idle = λ d h. refl;
  active = λ d h. absurd (ground arith);
}

last_round : Outside → Memory → Engine → Text → ℕ → Round
last_round out m e org_id now =
    evaluate_rules out m org_id now (list_servers m org_id) (list_alerts m org_id)
      (start_round e org_id)

firing_of-evaluate_alerts :
    (out : Outside) (m : Memory) (e : Engine) (org_id : Text) (now : ℕ) (other : Text)
    → let r = last_round out m e org_id now in
      firing_of (evaluate_alerts out m e org_id now) other
      ≡ (if org_id == other then keep_active r.active r.firing else firing_of e other)
unfolding evaluate_alerts last_round start_round firing_of
firing_of-evaluate_alerts out m e org_id now other = elim (Bool-cases (org_id == other)) [
  | inl same ↦ rw (get-put e.firing org_id _ other, same, firing_of)
  | inr differ ↦ rw (get-put e.firing org_id _ other, differ, firing_of)
]

IsOngoing-some :
    (now : ℕ) (d : Text) (old firing : Option AlertInstance) (i : AlertInstance)
    → firing ≡ some i
    → IsOngoing now d old firing
    → Continues now d old i
IsOngoing-some now d old none i e c = absurd c
IsOngoing-some now d old (some j) i e c = let p : j ≡ i = cc in rw⁻¹ p c

still_firing :
    (before : Dict AlertInstance) (now : ℕ) (r : Round) (d : Text) (i : AlertInstance)
    → IsFair before now r
    → Dict.get (keep_active r.active r.firing) d ≡ some i
    → Continues now d (Dict.get before d) i
still_firing before now r d i fair g = elim (Bool-cases (is_active r.active d)) [
  | inr e ↦ absurd (ground (arith, e, g, get-keep_active r.active r.firing d))
  | inl e ↦
      let here : Dict.get r.firing d ≡ some i =
        ground (arith, e, g, get-keep_active r.active r.firing d) in
      IsOngoing-some now d (Dict.get before d) (Dict.get r.firing d) i here (fair.active d e)
]

-- An instance that fires after an evaluation of its organization's rules is the one that fired
-- before under its key, but for its root cause, so it keeps its start and its identifier, or there
-- was none and it starts now. What fires for other organizations does not change.
pub evaluate_alerts-Continues :
    (out : Outside) (m : Memory) (e : Engine) (org_id : Text) (now : ℕ)
    → let e' = evaluate_alerts out m e org_id now in
      ((d : Text) (i : AlertInstance)
        → Dict.get (firing_of e' org_id) d ≡ some i
        → Continues now d (Dict.get (firing_of e org_id) d) i)
      × ((other : Text) → (org_id == other) ≡ false → firing_of e' other ≡ firing_of e other)
unfolding last_round
evaluate_alerts-Continues out m e org_id now =
    let r = last_round out m e org_id now in
    let kept : (d : Text)
        → Dict.get (keep_active r.active r.firing) d
          ≡ Dict.get (firing_of (evaluate_alerts out m e org_id now) org_id) d =
      λ d. rw (firing_of-evaluate_alerts out m e org_id now org_id, same_text_refl org_id) in
    (
      λ d i g.
          still_firing (firing_of e org_id) now r d i
            (evaluate_rules-IsFair (firing_of e org_id) now out m org_id (list_servers m org_id)
              (list_alerts m org_id) (start_round e org_id) (start_round-IsFair e org_id now))
            (kept d ∙ g),
      λ other ne. ground (arith, ne, firing_of-evaluate_alerts out m e org_id now other),
    )
