-- ===== src/Scanner.antt =====
-- apps/api/internal/scanner/engine.go: the engine that runs the security checks, and its jobs. The
-- checks themselves are the list `registry`, and what a check does is the function `Probe`: the
-- findings that it emits, whether it panics, and the time that it takes. What it logs by itself is
-- left out, as are the time and the sentence of a log entry; the progress is a quotient.
pub mod Outcome
pub mod Jobs
use pulse_frix.Prelude.{
  ℕ, zero, suc, ◌+◌, Bool, true, false, not, ◌&&◌, ◌||◌, Option, none, some, List, [], ◌∷◌, ◌++◌,
  Text, bytes, length, map, any, text_eq, nat_eq, ◌==◌, ltb, if◌then◌else◌,
}
use pulse_frix.Dict
use pulse_frix.Dict.{Dict}
use pulse_frix.Store.Sorting.{sort_slice}

pub record Check : Type 0 where
  pub id : Text
  pub category : Text
  pub name : Text
  pub kind : Text
  pub owasp : Text
  pub status : Text
  pub count : ℕ
  pub note : Text
  pub duration_ms : ℕ

-- The fields that the engine reads or writes, and the title.
pub record Finding : Type 0 where
  pub id : Text
  pub check_id : Text
  pub category : Text
  pub severity : Text
  pub owasp : Text
  pub title : Text

pub record LogEntry : Type 0 where
  pub level : Text
  pub check : Text

pub record ScanState : Type 0 where
  pub id : Text
  pub server_id : Text
  pub status : Text
  pub mode : Text
  pub categories : List Text
  pub targets : List Text
  pub progress : ℕ × ℕ
  pub current : Text
  pub total : ℕ
  pub completed : ℕ
  pub finished : Bool
  pub checks : List Check
  pub findings : List Finding
  pub logs : List LogEntry

pub record Input : Type 0 where
  pub server_id : Text
  pub targets : List Text

-- One run of a check.
pub record Probed : Type 0 where
  pub emitted : List Finding
  pub panicked : Bool
  pub duration_ms : ℕ

abbrev pub Probe : Type 0
Probe = Check → Input → Probed

unfoldable pub severity_rank : Text → ℕ
severity_rank s =
    if s == bytes "CRITICAL"
    then 0
    else if s == bytes "HIGH"
    then 1
    else if s == bytes "MEDIUM"
    then 2
    else if s == bytes "LOW"
    then 3
    else 4

-- A mode and the categories select a check.
unfoldable pub is_selected : Text → List Text → Check → Bool
is_selected mode cats d =
    if mode == bytes "passive" && not (d.kind == bytes "passive")
    then false
    else if mode == bytes "active" && not (d.kind == bytes "active")
    then false
    else if ltb 0 (length cats) && not (any (λ c. c == d.category) cats)
    then false
    else true

unfoldable pub select_checks : List Check → Text → List Text → List Check
select_checks [] mode cats = []
select_checks (d ∷ ds) mode cats =
    let rest = select_checks ds mode cats in if is_selected mode cats d then d ∷ rest else rest

abbrev pub not_run : Check → Check
not_run c = record c { status = bytes "not_run" }

unfoldable pub log : Text → Text → ScanState → ScanState
log level check st = record st { logs = st.logs ++ record { level = level; check = check } ∷ [] }

-- `emit` completes a finding by its check.
unfoldable pub emit : Check → Finding → Finding
emit d f = record f {
  check_id = d.id;
  category = if f.category == [] then d.category else f.category;
  owasp = if f.owasp == [] then d.owasp else f.owasp;
}

-- The first check of the identifier is changed.
unfoldable pub update_check : Text → (Check → Check) → List Check → List Check
update_check id f [] = []
update_check id f (c ∷ cs) =
    let rest = update_check id f cs in if c.id == id then f c ∷ cs else c ∷ rest

unfoldable pub set_check_error : Text → ScanState → ScanState
set_check_error id st = record st {
  checks = update_check id (λ c. record c { status = bytes "error" }) st.checks;
}

abbrev pub finished_check : Text → ℕ → ℕ → Text → Check → Check
finished_check status count duration note c = record c {
  status = status;
  count = count;
  duration_ms = duration;
  note = if note == [] then c.note else note;
}

unfoldable pub finish_check : Text → Text → ℕ → ℕ → Text → ScanState → ScanState
finish_check id status count duration note st = record st {
  checks = update_check id (finished_check status count duration note) st.checks;
}

unfoldable pub advance : ℕ → ℕ → ScanState → ScanState
advance i total st = record st {
  completed = i + 1;
  progress = if ltb 0 total then (i + 1, total) else st.progress;
}

-- `runOne`: the count of the findings and the state.
unfoldable pub run_one : Probed → Check → ScanState → ℕ × ScanState
run_one p d st =
    let st' = record st { findings = st.findings ++ map (emit d) p.emitted } in
    (
      length p.emitted,
      if p.panicked then set_check_error d.id (log (bytes "error") d.id st') else st',
    )

-- One turn of the loop of `run`.
unfoldable pub run_check : Probe → Input → ℕ → ℕ → Check → ScanState → ScanState
run_check probe in_ i total d st =
    let st1 = record st { current = d.name } in
    let p = probe d in_ in
    let (count, st2) = run_one p d (log (bytes "info") d.id st1) in
    let issues = ltb 0 count in
    let st3 = log (if issues then bytes "warn" else bytes "success") d.id st2 in
    if d.kind == bytes "active" && length in_.targets == 0
    then advance i total (
        log (bytes "warn") d.id
          (finish_check d.id (bytes "skipped") 0 p.duration_ms (bytes "no public targets") st1))
    else advance i total (
        finish_check d.id (if issues then bytes "issues" else bytes "pass") count p.duration_ms []
          st3)

unfoldable pub run_checks : Probe → Input → ℕ → ℕ → List Check → ScanState → ScanState
run_checks probe in_ i total [] st = st
run_checks probe in_ i total (d ∷ ds) st =
    run_checks probe in_ (i + 1) total ds (run_check probe in_ i total d st)

abbrev pub finding_less : Finding → Finding → Bool
finding_less a b = ltb (severity_rank a.severity) (severity_rank b.severity)

-- What `run` does after its loop.
unfoldable pub finish : ScanState → ScanState
finish st = log (bytes "success") [] (record st {
  findings = sort_slice finding_less st.findings;
  finished = true;
  status = bytes "done";
  current = [];
  progress = (1, 1);
})

unfoldable pub run : Probe → Input → List Check → ScanState → ScanState
unfolding run_checks finish
run probe in_ defs st = finish (
    run_checks probe in_ 0 (length defs) defs
      (log (bytes "info") [] (record st { status = bytes "running" })))

-- The state of a job when it is queued.
unfoldable pub queued : Text → Input → Text → List Text → List Check → ScanState
queued id in_ mode cats defs = record {
  id = id;
  server_id = in_.server_id;
  status = bytes "queued";
  mode = mode;
  categories = cats;
  targets = in_.targets;
  progress = (0, 1);
  current = [];
  total = length defs;
  completed = 0;
  finished = false;
  checks = map not_run defs;
  findings = [];
  logs = [];
}
