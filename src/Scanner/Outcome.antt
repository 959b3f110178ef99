-- ===== src/Scanner/Outcome.antt =====
-- What a scan says of each check.
use mathlib.Core.List.{append-nil, append_assoc}
use pulse_frix.Prelude.{
  ℕ, ◌+◌, ◌≡◌, ◌∙◌, refl, sym, ap, false, ◌&&◌, List, [], ◌∷◌, ◌++◌, Text, bytes, length, map,
  text_eq, nat_eq, ◌==◌, ltb, if◌then◌else◌, arith, All, All-append, both, same_text_refl,
  Bool-cases, inl, inr,
}
use pulse_frix.Store.Sorting.{sort_slice}
use pulse_frix.Scanner.{
  Check, Finding, ScanState, Input, Probe, not_run, log, update_check, set_check_error,
  finished_check, finish_check, advance, run_one, run_check, run_checks, finish, run, queued, emit,
  finding_less,
}

-- The entry of a check after the scan: skipped, or by the number of its findings.
abbrev pub outcome : Probe → Input → Check → Check
outcome probe in_ d =
    let p = probe d in_ in
    if d.kind == bytes "active" && length in_.targets == 0
    then finished_check (bytes "skipped") 0 p.duration_ms (bytes "no public targets") (not_run d)
    else finished_check (if ltb 0 (length p.emitted) then bytes "issues" else bytes "pass")
        (length p.emitted) p.duration_ms [] (not_run d)

abbrev Differs : Text → Check → Type 0
Differs id c = (c.id == id) ≡ false

-- No identifier stands twice.
abbrev pub HasDistinctIds : List Check → Type 0
HasDistinctIds [] = Unit
HasDistinctIds (d ∷ ds) = All (λ e. Differs e.id d) ds × HasDistinctIds ds

-- The entry that is changed is the one of the identifier.
update_check_at :
    (id : Text) (f : Check → Check) (pre : List Check) (c : Check) (rest : List Check)
    → All (Differs id) pre
    → c.id ≡ id
    → update_check id f (pre ++ c ∷ rest) ≡ pre ++ f c ∷ rest
unfolding update_check
update_check_at id f [] c rest apart same = rw (update_check, same, same_text_refl id) refl
update_check_at id f (e ∷ pre) c rest (other, apart) same =
    rw (update_check, other) (ap (λ cs. e ∷ cs) (update_check_at id f pre c rest apart same))

-- After one check, whatever it emits and whether it panics.
run_check-checks :
    (probe : Probe) (in_ : Input) (i total : ℕ) (d : Check) (pre rest : List Check) (st : ScanState)
    → All (Differs d.id) pre
    → st.checks ≡ pre ++ not_run d ∷ rest
    → (run_check probe in_ i total d st).checks ≡ pre ++ outcome probe in_ d ∷ rest
unfolding run_check run_one advance finish_check set_check_error log
run_check-checks probe in_ i total d pre rest st apart e =
    let p = probe d in_ in
    let n = length p.emitted in
    let status = if ltb 0 n then bytes "issues" else bytes "pass" in
    let broken : Check → Check = λ c. record c { status = bytes "error" } in
    let skip = finished_check (bytes "skipped") 0 p.duration_ms (bytes "no public targets") in
    let close = finished_check status n p.duration_ms [] in
    let at = λ (f : Check → Check). update_check_at d.id f pre (not_run d) rest apart refl in
    let skipped : update_check d.id skip st.checks ≡ pre ++ skip (not_run d) ∷ rest =
      ap (update_check d.id skip) e ∙ at skip in
    let closed : update_check d.id close st.checks ≡ pre ++ close (not_run d) ∷ rest =
      ap (update_check d.id close) e ∙ at close in
    let reopened : update_check d.id close (update_check d.id broken st.checks)
        ≡ pre ++ close (not_run d) ∷ rest =
      ap (λ cs. update_check d.id close (update_check d.id broken cs)) e
      ∙ (ap (update_check d.id close) (at broken)
          ∙ update_check_at d.id close pre (broken (not_run d)) rest apart refl) in
    elim (Bool-cases (d.kind == bytes "active" && length in_.targets == 0)) [
      | inl a ↦ rw a skipped
      | inr a ↦ elim (Bool-cases p.panicked) [
        | inl b ↦ rw (a, b) reopened
        | inr b ↦ rw (a, b) closed
      ]
    ]

-- The findings that a check adds to the scan.
abbrev pub found_by : Probe → Input → Check → List Finding
found_by probe in_ d =
    if d.kind == bytes "active" && length in_.targets == 0
    then []
    else map (emit d) (probe d in_).emitted

abbrev pub found_by_all : Probe → Input → List Check → List Finding
found_by_all probe in_ [] = []
found_by_all probe in_ (d ∷ ds) = found_by probe in_ d ++ found_by_all probe in_ ds

-- After one check, the findings of the scan.
run_check-findings :
    (probe : Probe) (in_ : Input) (i total : ℕ) (d : Check) (st : ScanState)
    → (run_check probe in_ i total d st).findings ≡ st.findings ++ found_by probe in_ d
unfolding run_check run_one advance finish_check set_check_error log
run_check-findings probe in_ i total d st =
    elim (Bool-cases (d.kind == bytes "active" && length in_.targets == 0)) [
      | inl a ↦ rw a (sym (append-nil st.findings))
      | inr a ↦ elim (Bool-cases (probe d in_).panicked) [
        | inl b ↦ rw (a, b) refl
        | inr b ↦ rw (a, b) refl
      ]
    ]

run_check-completed :
    (probe : Probe) (in_ : Input) (i total : ℕ) (d : Check) (st : ScanState)
    → (run_check probe in_ i total d st).completed ≡ i + 1
unfolding run_check advance
run_check-completed probe in_ i total d st =
    both (λ (s : ScanState). s.completed ≡ i + 1)
      (d.kind == bytes "active" && length in_.targets == 0) (λ _. refl) (λ _. refl)

outcome-id : (probe : Probe) (in_ : Input) (d : Check) → (outcome probe in_ d).id ≡ d.id
outcome-id probe in_ d =
    both (λ (c : Check). c.id ≡ d.id) (d.kind == bytes "active" && length in_.targets == 0)
      (λ _. refl) (λ _. refl)

-- An entry that is filled in keeps apart from the later checks.
apart_later :
    (probe : Probe) (in_ : Input) (d : Check) (pre ds : List Check)
    → All (λ e. All (Differs e.id) pre) ds
    → All (λ e. Differs e.id d) ds
    → All (λ e. All (Differs e.id) (pre ++ outcome probe in_ d ∷ [])) ds
apart_later probe in_ d pre [] before here = tt
apart_later probe in_ d pre (e ∷ ds) (before, befores) (here, heres) = (
  All-append (Differs e.id) pre (outcome probe in_ d ∷ []) before
      (ap (λ i. i == e.id) (outcome-id probe in_ d) ∙ here, tt),
  apart_later probe in_ d pre ds befores heres,
)

none_before : (ds : List Check) → All (λ e. All (Differs e.id) []) ds
none_before [] = tt
none_before (d ∷ ds) = (tt, none_before ds)

run_checks-checks :
    (probe : Probe) (in_ : Input) (i total : ℕ) (ds pre : List Check) (st : ScanState)
    → HasDistinctIds ds
    → All (λ e. All (Differs e.id) pre) ds
    → st.checks ≡ pre ++ map not_run ds
    → (run_checks probe in_ i total ds st).checks ≡ pre ++ map (outcome probe in_) ds
unfolding run_checks
run_checks-checks probe in_ i total [] pre st distinct apart e = e
run_checks-checks probe in_ i total (d ∷ ds) pre st (here, distinct) (apart, aparts) e =
    let o = outcome probe in_ d in
    run_checks-checks probe in_ (i + 1) total ds (pre ++ o ∷ []) (run_check probe in_ i total d st)
      distinct (apart_later probe in_ d pre ds aparts here)
      (run_check-checks probe in_ i total d pre (map not_run ds) st apart e
        ∙ sym (append_assoc pre (o ∷ []) (map not_run ds)))
    ∙ append_assoc pre (o ∷ []) (map (outcome probe in_) ds)

run_checks-findings :
    (probe : Probe) (in_ : Input) (i total : ℕ) (ds : List Check) (st : ScanState)
    → (run_checks probe in_ i total ds st).findings ≡ st.findings ++ found_by_all probe in_ ds
unfolding run_checks
run_checks-findings probe in_ i total [] st = sym (append-nil st.findings)
run_checks-findings probe in_ i total (d ∷ ds) st =
    run_checks-findings probe in_ (i + 1) total ds (run_check probe in_ i total d st)
    ∙ (ap (λ fs. fs ++ found_by_all probe in_ ds) (run_check-findings probe in_ i total d st)
        ∙ append_assoc st.findings (found_by probe in_ d) (found_by_all probe in_ ds))

run_checks-completed :
    (probe : Probe) (in_ : Input) (i total : ℕ) (ds : List Check) (st : ScanState)
    → st.completed ≡ i
    → (run_checks probe in_ i total ds st).completed ≡ i + length ds
unfolding run_checks
run_checks-completed probe in_ i total [] st e = rw e (omega arith)
run_checks-completed probe in_ i total (d ∷ ds) st e =
    run_checks-completed probe in_ (i + 1) total ds (run_check probe in_ i total d st)
      (run_check-completed probe in_ i total d st)
    ∙ omega arith

-- A scan of checks with distinct identifiers ends as done with every check completed. The entry of
-- each is its outcome, whether it panicked or not, and the findings are those of all checks, sorted
-- by severity.
pub run_is :
    (probe : Probe) (in_ : Input) (id mode : Text) (cats : List Text) (defs : List Check)
    → HasDistinctIds defs
    → let st = run probe in_ defs (queued id in_ mode cats defs) in
      (st.status ≡ bytes "done")
      × (st.completed ≡ length defs)
      × (st.checks ≡ map (outcome probe in_) defs)
      × (st.findings ≡ sort_slice finding_less (found_by_all probe in_ defs))
unfolding run finish queued log
run_is probe in_ id mode cats defs distinct =
    let st =
      log (bytes "info") [] (record (queued id in_ mode cats defs) { status = bytes "running" }) in
    (
      refl,
      run_checks-completed probe in_ 0 (length defs) defs st refl ∙ omega arith,
      run_checks-checks probe in_ 0 (length defs) defs [] st distinct (none_before defs) refl,
      ap (sort_slice finding_less) (run_checks-findings probe in_ 0 (length defs) defs st),
    )
