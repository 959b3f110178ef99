-- ===== src/Scanner/Jobs.antt =====
-- apps/api/internal/scanner/engine.go: the Manager, with its jobs and the latest scan of each server.
-- A job is the state of its scan, and the random identifier is an argument.
pub mod Latest
use pulse_frix.Prelude.{
  ℕ, zero, suc, ◌+◌, Bool, true, false, Option, none, some, List, [], ◌∷◌, ◌++◌, Text, bytes,
  length, map, any, text_eq, ◌==◌, ltb, if◌then◌else◌,
}
use pulse_frix.Dict.{Dict, get, put, remove, values}
use pulse_frix.Store.Sorting.{sort_slice}
use pulse_frix.Scanner.{
  Check, ScanState, Input, Probed, Probe, select_checks, not_run, finish_check, advance, run_one,
  finding_less, queued,
}

abbrev pub max_jobs : ℕ
max_jobs = 40

pub record Manager : Type 0 where
  pub jobs : Dict ScanState
  pub latest : Dict Text
  pub order : List Text

abbrev pub new_manager : Manager
new_manager = record { jobs = []; latest = []; order = [] }

abbrev pub is_latest : Dict Text → Text → Bool
is_latest latest old = any (λ id. id == old) (values latest)

-- The loop of `prune`: the order and the jobs that it leaves.
unfoldable pub prune : Dict Text → List Text → Dict ScanState → List Text × Dict ScanState
prune latest [] jobs = ([], jobs)
prune latest (old ∷ order) jobs =
    let rest = prune latest order (if is_latest latest old then jobs else remove jobs old) in
    if ltb max_jobs (length (old ∷ order)) then rest else (old ∷ order, jobs)

-- A job becomes the latest of its server.
unfoldable pub keep_job : Text → Text → ScanState → Manager → Manager
keep_job id server st m =
    let latest = put m.latest server id in
    let (order, jobs) = prune latest (m.order ++ id ∷ []) (put m.jobs id st) in
    record { jobs = jobs; latest = latest; order = order }

unfoldable pub start_scan : Text → List Check → Input → Text → List Text → Manager → Manager
start_scan id registry in_ mode cats m =
    let mode' = if mode == [] then bytes "full" else mode in
    keep_job id in_.server_id (queued id in_ mode' cats (select_checks registry mode' cats)) m

unfoldable pub run_passive : Probe → Input → ℕ → ℕ → List Check → ScanState → ScanState
run_passive probe in_ i total [] st = st
run_passive probe in_ i total (d ∷ ds) st =
    let p = probe d in_ in
    let (count, st1) = run_one p d st in
    let status = if ltb 0 count then bytes "issues" else bytes "pass" in
    run_passive probe in_ (i + 1) total ds
      (advance i total (finish_check d.id status count p.duration_ms [] st1))

-- What `RunPassiveSync` stores and returns.
unfoldable pub passive_scan : Probe → Text → List Check → Input → ScanState
passive_scan probe id registry in_ =
    let defs = select_checks registry (bytes "passive") [] in
    let started = record (queued id in_ (bytes "passive") [] defs) {
      status = bytes "running";
      targets = [];
    } in
    let st = run_passive probe in_ 0 (length defs) defs started in
    record st {
      findings = sort_slice finding_less st.findings;
      finished = true;
      status = bytes "done";
      progress = (1, 1);
    }

unfoldable pub run_passive_sync : Probe → Text → List Check → Input → Manager → ScanState × Manager
run_passive_sync probe id registry in_ m =
    let st = passive_scan probe id registry in_ in (st, keep_job id in_.server_id st m)

unfoldable pub get_scan : Manager → Text → Option ScanState
get_scan m id = get m.jobs id

unfoldable pub latest_scan : Manager → Text → Option ScanState
latest_scan m server = elim (get m.latest server) [ none ↦ none | some id ↦ get m.jobs id ]
