-- ===== src/Scanner/Jobs/Latest.antt =====
-- The latest scan of a server survives the pruning of old jobs.
use pulse_frix.Prelude.{
  ◌≤◌, ◌≡◌, ◌∙◌, refl, sym, true, none, some, List, [], ◌∷◌, ◌++◌, Text, length, text_eq, ◌==◌, ltb,
  if◌then◌else◌, arith, same_text_iff, same_text_refl, Bool-cases, Option-cases, if_true, if_false,
  inl, inr,
}
use pulse_frix.Dict.{Dict, get, put, remove, values}
use pulse_frix.Dict.Laws.{get-put, get-remove}
use pulse_frix.Scanner.{ScanState}
use pulse_frix.Scanner.Jobs.{Manager, max_jobs, is_latest, prune, keep_job, latest_scan}

-- Every latest scan has its job.
abbrev pub HasLatestJobs : Manager → Type 0
HasLatestJobs m =
    (server id : Text)
    → get m.latest server ≡ some id
    → (st : ScanState) × (get m.jobs id ≡ some st)

get-is_latest :
    (latest : Dict Text) (server id : Text)
    → get latest server ≡ some id
    → is_latest latest id ≡ true
unfolding get values
get-is_latest [] server id h = cc h
get-is_latest ((s, i) ∷ latest) server id h =
    ground (arith, get-is_latest latest server id, same_text_refl id)

remove-other :
    (latest : Dict Text) (jobs : Dict ScanState) (old id : Text)
    → is_latest latest id ≡ true
    → get (if is_latest latest old then jobs else remove jobs old) id ≡ get jobs id
remove-other latest jobs old id kept = ground (arith, get-remove jobs old id, same_text_iff old id)

prune-get :
    (latest : Dict Text) (order : List Text) (jobs : Dict ScanState) (id : Text)
    → is_latest latest id ≡ true
    → get (prune latest order jobs).1 id ≡ get jobs id
unfolding prune
prune-get latest [] jobs id kept = refl
prune-get latest (old ∷ order) jobs id kept =
    let jobs' = if is_latest latest old then jobs else remove jobs old in
    elim (Bool-cases (ltb max_jobs (length (old ∷ order)))) [
      | inl a ↦ rw a (prune-get latest order jobs' id kept ∙ remove-other latest jobs old id kept)
      | inr a ↦ rw a refl
    ]

prune-length :
    (latest : Dict Text) (order : List Text) (jobs : Dict ScanState)
    → length (prune latest order jobs).0 ≤ max_jobs
unfolding prune
prune-length latest [] jobs = omega arith
prune-length latest (old ∷ order) jobs = elim (Bool-cases (ltb max_jobs (length (old ∷ order)))) [
  | inl a ↦
      rw a (prune-length latest order (if is_latest latest old then jobs else remove jobs old))
  | inr a ↦ rw a (ground (arith, a))
]

keep_job-jobs :
    (id server : Text) (st : ScanState) (m : Manager) (s i : Text)
    → get (keep_job id server st m).latest s ≡ some i
    → get (keep_job id server st m).jobs i ≡ (if id == i then some st else get m.jobs i)
unfolding keep_job
keep_job-jobs id server st m s i h =
    let latest = put m.latest server id in
    prune-get latest (m.order ++ id ∷ []) (put m.jobs id st) i (get-is_latest latest s i h)
    ∙ get-put m.jobs id st i

keep_job-latest :
    (id server : Text) (st : ScanState) (m : Manager) (s : Text)
    → get (keep_job id server st m).latest s ≡ (if server == s then some id else get m.latest s)
unfolding keep_job
keep_job-latest id server st m s = get-put m.latest server id s

pub keep_job-HasLatestJobs :
    (id server : Text) (st : ScanState) (m : Manager)
    → HasLatestJobs m
    → HasLatestJobs (keep_job id server st m)
keep_job-HasLatestJobs id server st m held s i h =
    let jobs = keep_job-jobs id server st m s i h in
    let latest = keep_job-latest id server st m s in
    elim (Bool-cases (id == i)) [
      | inl a ↦ (st, jobs ∙ if_true (id == i) (some st) (get m.jobs i) a)
      | inr a ↦
          let (old, e) = held s i (ground (arith, latest, h, a, same_text_iff id i)) in
          (old, (jobs ∙ if_false (id == i) (some st) (get m.jobs i) a) ∙ e)
    ]

latest_scan-some :
    (m : Manager) (s i : Text) → get m.latest s ≡ some i → latest_scan m s ≡ get m.jobs i
unfolding latest_scan
latest_scan-some m s i h = rw (latest_scan, h) refl

latest_scan-none : (m : Manager) (s : Text) → get m.latest s ≡ none → latest_scan m s ≡ none
unfolding latest_scan
latest_scan-none m s h = rw (latest_scan, h) refl

keep_job-order :
    (id server : Text) (st : ScanState) (m : Manager)
    → length (keep_job id server st m).order ≤ max_jobs
unfolding keep_job
keep_job-order id server st m =
    prune-length (put m.latest server id) (m.order ++ id ∷ []) (put m.jobs id st)

keep_job-latest_scan_at :
    (id server : Text) (st : ScanState) (m : Manager)
    → HasLatestJobs m
    → get m.jobs id ≡ none
    → (s : Text)
    → latest_scan (keep_job id server st m) s ≡ (if server == s then some st else latest_scan m s)
keep_job-latest_scan_at id server st m held fresh s =
    let m' = keep_job id server st m in
    let latest = keep_job-latest id server st m s in
    elim (Bool-cases (server == s)) [
      | inl a ↦
          let e = latest ∙ if_true (server == s) (some id) (get m.latest s) a in
          rw a (
            latest_scan-some m' s id e
            ∙ (keep_job-jobs id server st m s id e
                ∙ if_true (id == id) (some st) (get m.jobs id) (same_text_refl id)))
      | inr a ↦
          let e = latest ∙ if_false (server == s) (some id) (get m.latest s) a in
          rw a (elim (Option-cases (get m.latest s)) [
            | inl n ↦ latest_scan-none m' s (e ∙ n) ∙ sym (latest_scan-none m s n)
            | inr (i, o) ↦
                let (old, h) = held s i o in
                latest_scan-some m' s i (e ∙ o)
                ∙ (keep_job-jobs id server st m s i (e ∙ o)
                    ∙ (if_false (id == i) (some st) (get m.jobs i)
                          (ground (arith, fresh, h, same_text_iff id i))
                        ∙ sym (latest_scan-some m s i o)))
          ])
    ]

-- Where every latest scan has its job, a job under a new identifier becomes the latest scan of its
-- server, every other server keeps the one that it had, and at most forty jobs are in the order of
-- pruning.
pub keep_job-latest_scan :
    (id server : Text) (st : ScanState) (m : Manager)
    → HasLatestJobs m
    → get m.jobs id ≡ none
    → HasLatestJobs (keep_job id server st m)
      × (length (keep_job id server st m).order ≤ max_jobs)
      × ((s : Text)
          → latest_scan (keep_job id server st m) s
            ≡ (if server == s then some st else latest_scan m s))
keep_job-latest_scan id server st m held fresh = (
  keep_job-HasLatestJobs id server st m held,
  keep_job-order id server st m,
  keep_job-latest_scan_at id server st m held fresh,
)
