-- ===== src/Store/Snapshots.antt =====
-- memory.go, the latest discovery, logs and metrics of each server, and the history of metrics.
pub mod History
use pulse_frix.Prelude.{
  ℕ, ◌-◌, not, Option, none, some, List, [], ◌∷◌, ◌++◌, Text, length, drop, select, ltb, leb,
  if◌then◌else◌,
}
use pulse_frix.Dict
use pulse_frix.Dict.{Dict}
use pulse_frix.Store.{Memory, MetricSample, Result, ok, err, Done, not_found, key}

abbrev pub or_missing {ℓ} : {A : Type ℓ} → Option A → Result A
or_missing none = err not_found
or_missing (some a) = ok a

unfoldable pub save_discovery : Memory → Text → Text → Text → Done × Memory
save_discovery m org_id server_id snapshot =
    (ok tt, record m { discovery = Dict.put m.discovery (key org_id server_id) snapshot })

unfoldable pub get_discovery : Memory → Text → Text → Result Text
get_discovery m org_id server_id = or_missing (Dict.get m.discovery (key org_id server_id))

unfoldable pub save_logs : Memory → Text → Text → Text → Done × Memory
save_logs m org_id server_id logs =
    (ok tt, record m { logs = Dict.put m.logs (key org_id server_id) logs })

unfoldable pub get_logs : Memory → Text → Text → Result Text
get_logs m org_id server_id = or_missing (Dict.get m.logs (key org_id server_id))

unfoldable pub save_metrics : Memory → Text → Text → Text → Done × Memory
save_metrics m org_id server_id sample =
    (ok tt, record m { metrics = Dict.put m.metrics (key org_id server_id) sample })

unfoldable pub get_metrics : Memory → Text → Text → Result Text
get_metrics m org_id server_id = or_missing (Dict.get m.metrics (key org_id server_id))

abbrev pub max_points : ℕ
max_points = 10000

-- `h[len(h)-n:]` where `h` is longer than `n`.
unfoldable pub keep_last {ℓ} : {A : Type ℓ} → ℕ → List A → List A
keep_last n h = if ltb n (length h) then drop (length h - n) h else h

-- A missing key reads as an empty history.
unfoldable pub history : Memory → Text → Text → List MetricSample
history m org_id server_id = elim (Dict.get m.metric_hist (key org_id server_id)) [
  | none ↦ []
  | some h ↦ h
]

unfoldable pub append_metric_sample : Memory → Text → Text → ℕ → Text → Done × Memory
append_metric_sample m org_id server_id ts sample =
    let h = history m org_id server_id ++ record { ts = ts; sample = sample } ∷ [] in
    (
      ok tt,
      record m {
        metric_hist = Dict.put m.metric_hist (key org_id server_id) (keep_last max_points h);
      },
    )

unfoldable pub query_metric_history : Memory → Text → Text → ℕ → List MetricSample
query_metric_history m org_id server_id since =
    select (λ s. not (ltb s.ts since)) (history m org_id server_id)
