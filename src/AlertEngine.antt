-- ===== src/AlertEngine.antt =====
-- apps/api/internal/httpx/alerts_eval.go: the evaluation of alert rules. A float64 is its 64 bits;
-- what the code does with one (strconv, fmt, comparison, division) and the decoding of JSON are the
-- functions of `Outside`.
pub mod Continuity
pub mod Timing
use pulse_frix.Prelude.{
  ℕ, ◌+◌, ◌*◌, ◌-◌, ◌%◌, ◌^◌, Bool, true, false, not, ◌&&◌, ◌||◌, Option, none, some, List, [], ◌∷◌,
  ◌++◌, Text, bytes, any, ltb, nat_eq, text_eq, ◌==◌, if◌then◌else◌,
}
use pulse_frix.Dict
use pulse_frix.Dict.{Dict}
use pulse_frix.Prelude.Int.{ℤ, pos, negsuc, ltb_ℤ}
use pulse_frix.Strings.{to_lower, trim_space, fields}
use pulse_frix.Duration.{since, second}
use pulse_frix.Model.{Alert, AlertInstance, Server}
use pulse_frix.Store.{Memory, Result, ok, err}
use pulse_frix.Store.Alerts.{list_alerts}
use pulse_frix.Store.Servers.{list_servers, get_server}
use pulse_frix.Store.Snapshots.{get_metrics, get_discovery}

abbrev pub Float : Type 0
Float = ℕ

pub record Sample : Type 0 where
  pub cpu_percent : Float
  pub load1 : Float
  pub mem_used_bytes : ℕ
  pub mem_total_bytes : ℕ
  pub disk_used_bytes : ℕ
  pub disk_total_bytes : ℕ

pub record Resource : Type 0 where
  pub type : Text
  pub name : Text
  pub status : Text

-- `percent used total` is `float64(used) / float64(total) * 100`; `print_1` is `%.1f`, `print_0` is
-- `%.0f`.
pub record Outside : Type 0 where
  pub parse_float : Text → Option Float
  pub less : Float → Float → Bool
  pub zero_float : Float
  pub percent : ℕ → ℕ → Float
  pub print_1 : Float → Text
  pub print_0 : Float → Text
  pub sample : Text → Option Sample
  pub resources : Text → Option (List Resource)

-- `ruleCond`, by its `kind`.
pub data RuleCond : Type 0 where
  metric_rule : Text → Text → Float → RuleCond
  container_down : Text → RuleCond

abbrev is_metric : Text → Bool
is_metric s = s == bytes "cpu" || s == bytes "memory" || s == bytes "disk" || s == bytes "load"

-- The two forms of a rule, by its fields.
pub parse_fields : Outside → List Text → Option RuleCond
parse_fields out (f0 ∷ f1 ∷ []) =
    if f0 == bytes "container_down" then some (container_down f1) else none
parse_fields out (f0 ∷ f1 ∷ f2 ∷ []) =
    if (f1 == bytes ">" || f1 == bytes "<") && is_metric (to_lower f0)
    then elim (out.parse_float f2) [
      | none ↦ none
      | some threshold ↦ some (metric_rule (to_lower f0) f1 threshold)
    ]
    else none
parse_fields out _ = none

pub parse_rule : Outside → Text → Option RuleCond
parse_rule out expr = parse_fields out (fields (trim_space expr))

abbrev used_percent : Outside → ℕ → ℕ → Float
used_percent out used total = if ltb 0 total then out.percent used total else out.zero_float

pub metric_value_from_sample : Outside → Text → Text → Option Float
metric_value_from_sample out raw metric = elim (out.sample raw) [
  | none ↦ none
  | some smp ↦
      if metric == bytes "cpu"
      then some smp.cpu_percent
      else if metric == bytes "load"
      then some smp.load1
      else if metric == bytes "memory"
      then some (used_percent out smp.mem_used_bytes smp.mem_total_bytes)
      else if metric == bytes "disk"
      then some (used_percent out smp.disk_used_bytes smp.disk_total_bytes)
      else none
]

pub server_label : Server → Text
server_label srv = if srv.hostname == [] then srv.server_id else srv.hostname

-- The resources of `loadSnapshot`.
pub load_snapshot : Outside → Memory → Text → Text → Option (List Resource)
load_snapshot out m org_id row_id = elim (get_server m org_id row_id) [
  | err _ ↦ none
  | ok srv ↦ elim (get_discovery m org_id srv.server_id) [
    | err _ ↦ none
    | ok raw ↦ out.resources raw
  ]
]

-- The first container of the name decides.
pub check_container : Text → Server → List Resource → Bool × Text
check_container target srv [] = (false, [])
check_container target srv (res ∷ resources) =
    let rest = check_container target srv resources in
    if res.type == bytes "docker_container" && res.name == target
    then if res.status == bytes "running" then (false, []) else (
      true,
      bytes "container "
          ++ (target ++ (bytes " is " ++ (res.status ++ (bytes " on " ++ server_label srv)))),
    )
    else rest

pub exceeds : Outside → Text → Float → Float → Bool
exceeds out op val threshold =
    (op == bytes ">" && out.less threshold val) || (op == bytes "<" && out.less val threshold)

pub check_metric : Outside → Text → Text → Float → Server → Text → Bool × Text
check_metric out metric op threshold srv raw = elim (metric_value_from_sample out raw metric) [
  | none ↦ (false, [])
  | some val ↦
      if exceeds out op val threshold
      then (
        true,
        metric
            ++ (bytes " is "
                ++ (out.print_1 val
                    ++ (bytes " (threshold "
                        ++ (op
                            ++ (bytes " "
                                ++ (out.print_0 threshold
                                    ++ (bytes ") on " ++ server_label srv))))))),
      )
      else (false, [])
]

pub check_rule : Outside → Memory → Text → Server → RuleCond → Bool × Text
check_rule out m org_id srv (metric_rule metric op threshold) =
    elim (get_metrics m org_id srv.server_id) [
      | err _ ↦ (false, [])
      | ok raw ↦ check_metric out metric op threshold srv raw
    ]
check_rule out m org_id srv (container_down target) = elim (load_snapshot out m org_id srv.id) [
  | none ↦ (false, [])
  | some resources ↦ check_container target srv resources
]

-- `alertEngine`; and what one evaluation works on: the timers, the instances of the organization,
-- and the keys that are active.
pub record Engine : Type 0 where
  pub breach : Dict ℕ
  pub firing : Dict (Dict AlertInstance)

pub record Round : Type 0 where
  pub breach : Dict ℕ
  pub firing : Dict AlertInstance
  pub active : List Text

-- `time.Duration(seconds) * time.Second`: the product of 64-bit words, read as signed.
pub seconds : ℕ → ℤ
seconds w = let p = w * second % 2 ^ 64 in if ltb p (2 ^ 63) then pos p else negsuc (2 ^ 64 - p - 1)

-- `now.Sub(start) < time.Duration(rule.ForSeconds)*time.Second`, negated.
pub is_due : ℕ → ℕ → ℕ → Bool
is_due now start for_seconds = not (ltb_ℤ (since now (pos start)) (seconds for_seconds))

abbrev pub breach_key : Text → Alert → Server → Text
breach_key org_id rule srv = org_id ++ (bytes "|" ++ (rule.id ++ (bytes "|" ++ srv.server_id)))

abbrev pub dedup_key : Alert → Server → Text
dedup_key rule srv = rule.id ++ (bytes ":" ++ srv.server_id)

abbrev pub new_instance : Text → Alert → Server → Text → ℕ → AlertInstance
new_instance org_id rule srv dedup now = record {
  id = bytes "ali_" ++ dedup;
  org_id = org_id;
  alert_id = rule.id;
  name = rule.name;
  severity = rule.severity;
  server_id = srv.server_id;
  state = bytes "firing";
  dedup_key = dedup;
  root_cause = [];
  affected = [];
  started_at = now;
  resolved_at = none;
}

-- The instance of an active key: the one that is firing, or a new one.
pub current : Text → Alert → Server → ℕ → Option AlertInstance → AlertInstance
current org_id rule srv now none = new_instance org_id rule srv (dedup_key rule srv) now
current org_id rule srv now (some old) = old

pub fire : Text → Alert → Server → Text → ℕ → Round → Round
fire org_id rule srv detail now r =
    let dedup = dedup_key rule srv in
    let inst = current org_id rule srv now (Dict.get r.firing dedup) in
    record r {
      firing = Dict.put r.firing dedup (record inst { root_cause = detail });
      active = dedup ∷ r.active;
    }

-- What follows a breach that began at `start`.
pub on_breach : Text → Alert → Server → Text → ℕ → ℕ → Round → Round
on_breach org_id rule srv detail now start r =
    if is_due now start rule.for_seconds then fire org_id rule srv detail now r else r

-- The body of the inner loop.
pub evaluate_server : Outside → Memory → Text → ℕ → Alert → RuleCond → Server → Round → Round
evaluate_server out m org_id now rule cond srv r =
    let key = breach_key org_id rule srv in
    let (breached, detail) = check_rule out m org_id srv cond in
    if breached
    then elim (Dict.get r.breach key) [
      | some start ↦ on_breach org_id rule srv detail now start r
      | none ↦
          on_breach org_id rule srv detail now now (record r { breach = Dict.put r.breach key now })
    ]
    else record r { breach = Dict.remove r.breach key }

pub evaluate_servers : Outside → Memory → Text → ℕ → Alert → RuleCond → List Server → Round → Round
evaluate_servers out m org_id now rule cond [] r = r
evaluate_servers out m org_id now rule cond (srv ∷ servers) r =
    evaluate_servers out m org_id now rule cond servers
      (evaluate_server out m org_id now rule cond srv r)

pub evaluate_rule : Outside → Memory → Text → ℕ → List Server → Alert → Round → Round
evaluate_rule out m org_id now servers rule r =
    if rule.enabled
    then elim (parse_rule out rule.expr) [
      | none ↦ r
      | some cond ↦ evaluate_servers out m org_id now rule cond servers r
    ]
    else r

pub evaluate_rules : Outside → Memory → Text → ℕ → List Server → List Alert → Round → Round
evaluate_rules out m org_id now servers [] r = r
evaluate_rules out m org_id now servers (rule ∷ rules) r =
    evaluate_rules out m org_id now servers rules (evaluate_rule out m org_id now servers rule r)

-- The instances of an organization; a missing one reads as none.
pub firing_of : Engine → Text → Dict AlertInstance
firing_of e org_id = elim (Dict.get e.firing org_id) [ none ↦ [] | some f ↦ f ]

abbrev pub is_active : List Text → Text → Bool
is_active active dedup = any (λ d. d == dedup) active

-- The entries whose keys are active: the last loop of `evaluateAlerts`.
pub keep_active : List Text → Dict AlertInstance → Dict AlertInstance
keep_active active [] = []
keep_active active ((k, i) ∷ f) =
    let rest = keep_active active f in if is_active active k then (k, i) ∷ rest else rest

pub evaluate_alerts : Outside → Memory → Engine → Text → ℕ → Engine
evaluate_alerts out m e org_id now =
    let r =
      evaluate_rules out m org_id now (list_servers m org_id) (list_alerts m org_id)
        (record { breach = e.breach; firing = firing_of e org_id; active = [] }) in
    record { breach = r.breach; firing = Dict.put e.firing org_id (keep_active r.active r.firing) }

pub firing_instances : Engine → Text → List AlertInstance
firing_instances e org_id = Dict.values (firing_of e org_id)
