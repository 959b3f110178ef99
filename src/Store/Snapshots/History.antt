-- ===== src/Store/Snapshots/History.antt =====
-- The history of metrics against one that forgets nothing.
use mathlib.Core.List.{append-nil, append_assoc}
use pulse_frix.Prelude.{
  ℕ, zero, suc, ◌+◌, ◌-◌, ◌≤◌, ◌≡◌, refl, List, [], ◌∷◌, ◌++◌, arith, Text, length, length-append,
  length-drop, drop, ltb, select, not, same_text_refl, text_eq, leb, Bool-cases, inl, inr,
}
use pulse_frix.Dict.Laws.{get-put}
use pulse_frix.Store.{Memory, MetricSample, key}
use pulse_frix.Store.Snapshots.{
  keep_last, history, append_metric_sample, query_metric_history, max_points,
}

module _ {ℓ} {A : Type ℓ} where
  -- Dropping what is over the bound, in one step.
  keep_last-drop : (n : ℕ) (h : List A) → keep_last n h ≡ drop (length h - n) h
  unfolding keep_last
  keep_last-drop n h = elim (Bool-cases (ltb n (length h))) [
    | inl over ↦ rw over
    | inr fits ↦ let e : length h - n ≡ 0 = ground arith in rw (fits, e)
  ]

  drop-append_left : (k : ℕ) (xs ys : List A) → k ≤ length xs → drop k (xs ++ ys) ≡ drop k xs ++ ys
  drop-append_left zero xs ys h = refl
  drop-append_left (suc k) [] ys h = absurd (omega arith)
  drop-append_left (suc k) (x ∷ xs) ys h = drop-append_left k xs ys (omega arith)

  drop-drop : (j k n : ℕ) (xs : List A) → k + j ≡ n → drop j (drop k xs) ≡ drop n xs
  drop-drop j zero n xs e = let e' : j ≡ n = omega arith in rw e'
  drop-drop zero (suc k) zero [] e = refl
  drop-drop (suc j) (suc k) zero [] e = refl
  drop-drop zero (suc k) (suc n) [] e = refl
  drop-drop (suc j) (suc k) (suc n) [] e = refl
  drop-drop j (suc k) zero (x ∷ xs) e = absurd (omega arith)
  drop-drop j (suc k) (suc n) (x ∷ xs) e = drop-drop j k n xs (omega arith)

  length-keep_last-le : (n : ℕ) (h : List A) → length (keep_last n h) ≤ n
  length-keep_last-le n h = rw (keep_last-drop n h) (omega (arith, length-drop (length h - n) h))

  -- What was forgotten earlier would be forgotten now.
  keep_last-append :
      (n : ℕ) (h ys : List A) → keep_last n (keep_last n h ++ ys) ≡ keep_last n (h ++ ys)
  keep_last-append n h ys =
      let d = length h - n in
      rw
        (
          keep_last-drop n h,
          ← drop-append_left d h ys (omega arith),
          keep_last-drop n (drop d (h ++ ys)),
          keep_last-drop n (h ++ ys),
        )
        (drop-drop _ d _ (h ++ ys) (omega (arith, length-append h ys, length-drop d (h ++ ys))))

select-not-ltb :
    (since : ℕ) (h : List MetricSample)
    → select (λ s. not (ltb s.ts since)) h ≡ select (λ s. leb since s.ts) h
select-not-ltb since [] = refl
select-not-ltb since (s ∷ h) = ground (arith, select-not-ltb since h)

-- Samples that arrive one after the other.
pub append_all : Memory → Text → Text → List MetricSample → Memory
append_all m org_id server_id [] = m
append_all m org_id server_id (s ∷ samples) =
    append_all (append_metric_sample m org_id server_id s.ts s.sample).1 org_id server_id samples

module _ (org_id server_id : Text) where
  history-append_metric_sample :
      (m : Memory) (s : MetricSample)
      → history (append_metric_sample m org_id server_id s.ts s.sample).1 org_id server_id
        ≡ keep_last max_points (history m org_id server_id ++ s ∷ [])
  unfolding append_metric_sample history
  history-append_metric_sample m s = rw (
    get-put m.metric_hist (key org_id server_id) _ (key org_id server_id),
    same_text_refl (key org_id server_id),
    history,
  )

  history-append_all :
      (m : Memory) (samples : List MetricSample)
      → length (history m org_id server_id) ≤ max_points
      → history (append_all m org_id server_id samples) org_id server_id
        ≡ keep_last max_points (history m org_id server_id ++ samples)
  unfolding append_all
  history-append_all m [] h =
      let e : length (history m org_id server_id) - max_points ≡ 0 = omega arith in
      rw (append-nil (history m org_id server_id), keep_last-drop, e)
  history-append_all m (s ∷ samples) h =
      let m' = (append_metric_sample m org_id server_id s.ts s.sample).1 in
      let kept = history-append_metric_sample m s in
      rw (
        history-append_all m' samples
            (rw kept (length-keep_last-le max_points (history m org_id server_id ++ s ∷ []))),
        kept,
        keep_last-append,
        append_assoc,
      )

  -- After any run of samples on a history within the bound, `QueryMetricHistory` returns, in order
  -- of arrival, those of the last 10000 samples of the whole run that are not older than `since`.
  pub query-append_all :
      (m : Memory) (samples : List MetricSample) (since : ℕ)
      → length (history m org_id server_id) ≤ 10000
      → let whole = history m org_id server_id ++ samples in
        query_metric_history (append_all m org_id server_id samples) org_id server_id since
        ≡ select (λ s. leb since s.ts) (drop (length whole - 10000) whole)
  unfolding query_metric_history
  query-append_all m samples since h =
      rw (history-append_all m samples h, keep_last-drop) (select-not-ltb since _)
