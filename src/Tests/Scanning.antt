-- ===== src/Tests/Scanning.antt =====
-- A scan of a server without a public address, one of whose checks panics.
use pulse_frix.Prelude.{
  ◌≡◌, ◌≤◌, some, none, refl, true, false, if◌then◌else◌, List, [], ◌∷◌, Text, bytes, length, map,
  text_eq, same_text, ◌==◌,
}
use pulse_frix.Dict.{get, put}
use pulse_frix.Store.Sorting.{sort_slice}
use pulse_frix.Scanner.{Check, Finding, Input, Probe, ScanState, finding_less, run, queued}
use pulse_frix.Scanner.Jobs.{Manager, max_jobs, new_manager, prune, keep_job, latest_scan}
use pulse_frix.Scanner.Jobs.Latest.{HasLatestJobs, keep_job-HasLatestJobs, keep_job-latest_scan}
use pulse_frix.Scanner.Outcome.{outcome, found_by_all, HasDistinctIds, run_is}

abbrev check : Text → Text → Check
check id kind = record {
  id = id;
  category = bytes "network";
  name = id;
  kind = kind;
  owasp = [];
  status = [];
  count = 0;
  note = [];
  duration_ms = 0;
}

abbrev finding : Text → Finding
finding severity = record {
  id = [];
  check_id = [];
  category = [];
  severity = severity;
  owasp = [];
  title = bytes "open port";
}

-- The check of the ports finds two risks, and the others panic.
abbrev probe : Probe
probe d in_ =
    if d.id == bytes "ports"
    then record {
      emitted = finding (bytes "LOW") ∷ finding (bytes "HIGH") ∷ [];
      panicked = false;
      duration_ms = 3;
    }
    else record { emitted = []; panicked = true; duration_ms = 1 }

abbrev input : Input
input = record { server_id = bytes "srv"; targets = [] }

abbrev checks : List Check
checks =
    check (bytes "ports") (bytes "passive")
    ∷ check (bytes "sshd") (bytes "passive")
    ∷ check (bytes "tls") (bytes "active")
    ∷ []

-- The check that panicked passes.
outcomes :
    map (λ (c : Check). c.status) (map (outcome probe input) checks)
    ≡ bytes "issues" ∷ bytes "pass" ∷ bytes "skipped" ∷ []
unfolding same_text
outcomes = refl

distinct : HasDistinctIds checks
unfolding same_text
distinct = ((refl, (refl, tt)), ((refl, tt), (tt, tt)))

run_is_example :
    let st = run probe input checks (queued (bytes "scan") input (bytes "full") [] checks) in
    (st.status ≡ bytes "done")
    × (st.completed ≡ length checks)
    × (st.checks ≡ map (outcome probe input) checks)
    × (st.findings ≡ sort_slice finding_less (found_by_all probe input checks))
run_is_example = run_is probe input (bytes "scan") (bytes "full") [] checks distinct

abbrev scan : ScanState
scan = queued (bytes "scan") input (bytes "full") [] checks

-- A Manager with one job of another server.
abbrev manager : Manager
manager = keep_job (bytes "old") (bytes "other") scan new_manager

new_manager-HasLatestJobs : HasLatestJobs new_manager
unfolding get
new_manager-HasLatestJobs s i h = cc h

fresh : get manager.jobs (bytes "scan") ≡ none
unfolding get same_text put prune keep_job
fresh = refl

keep_job-latest_scan_example :
    HasLatestJobs (keep_job (bytes "scan") (bytes "srv") scan manager)
    × (length (keep_job (bytes "scan") (bytes "srv") scan manager).order ≤ max_jobs)
    × ((s : Text)
        → latest_scan (keep_job (bytes "scan") (bytes "srv") scan manager) s
          ≡ (if bytes "srv" == s then some scan else latest_scan manager s))
keep_job-latest_scan_example =
    keep_job-latest_scan (bytes "scan") (bytes "srv") scan manager
      (keep_job-HasLatestJobs (bytes "old") (bytes "other") scan new_manager
        new_manager-HasLatestJobs)
      fresh
