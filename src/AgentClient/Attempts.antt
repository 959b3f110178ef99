-- ===== src/AgentClient/Attempts.antt =====
-- The attempts of a send: what each of them met, how many there are, and how long the waits take.
use pulse_frix.Prelude.{
  ℕ, zero, suc, ◌+◌, ◌*◌, ◌≤◌, ◌<◌, ◌^◌, ◌≡◌, refl, ◌⊎◌, inl, inr, true, false, ◌&&◌, Option, none,
  some, List, [], ◌∷◌, Text, arith, Bool-cases, Option-cases, leb, ltb, leb→le, if◌then◌else◌,
}
use pulse_frix.Duration.{second}
use pulse_frix.AgentClient.{
  Outside, Client, Answer, signed, sign_request, classify, ingest_path, do_signed, attempts, send,
  Sent, SendFailure, gave_up, context_done, is_unauthorized, no_answer, backoff, next_waits,
}

-- An answer of the control plane that is a success.
abbrev pub IsAccepting : Option Answer → Type 0
IsAccepting answer = (r : Answer) × (answer ≡ some r) × (r.status < 300)

classify-IsAccepting :
    (o : Outside) (answer : Option Answer)
    → (classify o answer ≡ none → IsAccepting answer)
      × (IsAccepting answer → classify o answer ≡ none)
unfolding classify
classify-IsAccepting o none =
    (λ e. absurd (ground (arith, e)), λ (r, e, low). absurd (ground (arith, e)))
classify-IsAccepting o (some r) = (
  λ e. (r, refl, ground (arith, e)),
  λ (s, e, low).
      let same : r ≡ s = ground (arith, e) in
      let below : r.status < 300 = rw same low in ground (arith, below),
)

-- The attempts start at the dealing `start`.
module _ (o : Outside) (c : Client) (payload : Text) (start : ℕ) where
  -- The answer to the attempt at `k`.
  abbrev pub answered : ℕ → Option Answer
  answered k =
      o.answer k
        (signed ingest_path (sign_request o c.signer c.agent_id ingest_path payload k) payload)

  abbrev pub try : ℕ → Option SendFailure
  try k = do_signed o c ingest_path payload k

  -- The attempt at `k` failed in a way that another attempt may change.
  abbrev pub IsRetried : ℕ → Type 0
  IsRetried k =
      (f : SendFailure) × (try k ≡ some f)
      × (is_unauthorized f ≡ false)
      × (¬ IsAccepting (answered k))

  -- The last dealing `j`, and what the send returns for it. The first attempt is not cancelled.
  abbrev pub EndsAt : ℕ → Option SendFailure → Type 0
  EndsAt j failure =
      ((failure ≡ none) × IsAccepting (answered j))
      ⊎ ((f : SendFailure) × (failure ≡ some f) × (try j ≡ some f) × (is_unauthorized f ≡ true))
      ⊎ ((failure ≡ some context_done) × (o.cancelled j ≡ true) × (start < j))

  -- Attempts from `k` on, at most `left` of them: all but the last are retried; the last ends the
  -- send, or is the last one allowed.
  abbrev pub IsRun : ℕ → ℕ → SendFailure → Sent → Type 0
  IsRun k left last r =
      ((j : ℕ) × (r.steps ≡ suc j)
        × (k ≤ j)
        × (j < k + left)
        × ((i : ℕ) → k ≤ i → i < j → IsRetried i)
        × EndsAt j r.failure)
      ⊎ ((f : SendFailure) × (r.failure ≡ some (gave_up f))
          × (r.steps ≡ k + left)
          × ((i : ℕ) → k ≤ i → i < k + left → IsRetried i)
          × (((left ≡ 0) × (f ≡ last)) ⊎ ((i : ℕ) × (k + left ≡ suc i) × (try i ≡ some f))))

  failed_try : (k : ℕ) (f : SendFailure) → try k ≡ some f → ¬ IsAccepting (answered k)
  unfolding do_signed
  failed_try k f e accepted =
      let fine = (classify-IsAccepting o (answered k)).1 accepted in ground (arith, e, fine)

  accepted_try : (k : ℕ) → try k ≡ none → IsAccepting (answered k)
  unfolding do_signed
  accepted_try k e = (classify-IsAccepting o (answered k)).0 e

  from_next :
      (k : ℕ) (f : SendFailure)
      → try k ≡ some f
      → is_unauthorized f ≡ false
      → (to : ℕ) → ((i : ℕ) → k + 1 ≤ i → i < to → IsRetried i)
      → (i : ℕ) → k ≤ i
      → i < to
      → IsRetried i
  from_next k f e ok to later i from below = elim (Bool-cases (leb (k + 1) i)) [
    | inl after ↦ later i (leb→le (k + 1) i after) below
    | inr here ↦
        let same : i ≡ k = ground (arith, here, from) in rw same (f, e, ok, failed_try k f e)
  ]

  IsRun-next :
      (k left : ℕ) (f last : SendFailure) (r : Sent)
      → try k ≡ some f
      → is_unauthorized f ≡ false
      → IsRun (k + 1) left f r
      → IsRun k (suc left) last r
  IsRun-next k left f last r e ok (inl (j, steps, from, to, retried, ends)) =
      inl (j, steps, omega (arith, from), omega (arith, to), from_next k f e ok j retried, ends)
  IsRun-next k left f last r e ok (inr (g, failed, steps, retried, final)) = inr (
    g,
    failed,
    omega (arith, steps),
    from_next k f e ok (k + suc left) (λ i from below. retried i from (omega (arith, below))),
    inr (elim final [
      | inl (none_left, same) ↦ (k, omega (arith, none_left), rw same e)
      | inr (i, last_one, found) ↦ (i, omega (arith, last_one), found)
    ]),
  )

  none_between : (k j : ℕ) → j ≡ k → (i : ℕ) → k ≤ i → i < j → IsRetried i
  none_between k j e i from below = absurd (omega (arith, e, from, below))

  ends_here :
      (k left : ℕ) (last : SendFailure) (failure : Option SendFailure) (waits : List ℕ)
      → EndsAt k failure
      → IsRun k (suc left) last (record { failure = failure; steps = k + 1; waits = waits })
  ends_here k left last failure waits ends =
      inl (k, omega arith, omega arith, omega arith, none_between k k refl, ends)

  attempts-IsRun :
      (left attempt : ℕ) (last : SendFailure) (k : ℕ) (waits : List ℕ)
      → k ≡ start + attempt
      → IsRun k left last (attempts left attempt o c payload last k waits)
  unfolding attempts
  attempts-IsRun zero attempt last k waits at = inr (
    last,
    refl,
    omega arith,
    λ i from below. absurd (omega (arith, from, below)),
    inl (refl, refl),
  )
  attempts-IsRun (suc left) attempt last k waits at =
      let w = next_waits o attempt k waits in
      elim (Bool-cases (ltb 0 attempt && o.cancelled k)) [
        | inl stop ↦
            let cancelled : o.cancelled k ≡ true = ground (arith, stop) in
            let later : 0 < attempt = ground (arith, stop) in
            rw stop (
              ends_here k left last (some context_done) w
                (inr (inr (refl, cancelled, omega (arith, at, later)))))
        | inr going ↦ elim (Option-cases (try k)) [
          | inl e ↦ rw (going, e) (ends_here k left last none w (inl (refl, accepted_try k e)))
          | inr (f, e) ↦ elim (Bool-cases (is_unauthorized f)) [
            | inl refused ↦
                rw (going, e, refused)
                  (ends_here k left last (some f) w (inr (inl (f, refl, e, refused))))
            | inr ok ↦
                rw (going, e, ok)
                  (IsRun-next k left f last (attempts left (attempt + 1) o c payload f (k + 1) w) e
                    ok (attempts-IsRun left (attempt + 1) f (k + 1) w (omega (arith, at))))
          ]
        ]
      ]

-- The message of a send.
abbrev pub envelope_of : Outside → Client → Text → Text → ℕ → Text
envelope_of o c msg_type body k =
    o.encode_envelope
      (record { msg_type = msg_type; agent_id = c.agent_id; timestamp = o.clock k; body = body })

pub sum : List ℕ → ℕ
sum [] = 0
sum (n ∷ ns) = n + sum ns

abbrev milli : ℕ
milli = 1000000

wait_before : ℕ → ℕ
wait_before attempt = if ltb 0 attempt then (2 ^ attempt * 250 + 255) * milli else 0

-- The most that the waits before attempts from `attempt` on may take.
budget : ℕ → ℕ → ℕ
budget zero attempt = 0
budget (suc left) attempt = wait_before attempt + budget left (attempt + 1)

-- A byte of jitter.
abbrev pub IsJittered : Outside → Type 0
IsJittered o = (k : ℕ) → o.jitter k < 256

backoff-le :
    (o : Outside) (attempt k : ℕ)
    → IsJittered o
    → (backoff o attempt k ≤ (2 ^ attempt * 250 + 255) * milli)
      × (backoff o attempt k ≤ 30 * second)
unfolding backoff
backoff-le o attempt k j = let below = j k in (ground (arith, below), ground (arith, below))

next_waits-le :
    (o : Outside) (attempt k : ℕ) (waits : List ℕ)
    → IsJittered o
    → sum (next_waits o attempt k waits) ≤ sum waits + wait_before attempt
unfolding next_waits sum wait_before
next_waits-le o attempt k waits j =
    let (below, _) = backoff-le o attempt k j in ground (arith, below)

attempts-waits :
    (o : Outside) (c : Client) (payload : Text) (left attempt : ℕ) (last : SendFailure) (k : ℕ)
    (waits : List ℕ)
    → IsJittered o
    → sum (attempts left attempt o c payload last k waits).waits ≤ sum waits + budget left attempt
unfolding attempts budget
attempts-waits o c payload zero attempt last k waits j = omega arith
attempts-waits o c payload (suc left) attempt last k waits j =
    let w = next_waits o attempt k waits in
    let first = next_waits-le o attempt k waits j in
    let rest : (f : SendFailure)
        → sum (attempts left (attempt + 1) o c payload f (k + 1) w).waits
          ≤ sum w + budget left (attempt + 1) =
      λ f. attempts-waits o c payload left (attempt + 1) f (k + 1) w j in
    elim (Bool-cases (ltb 0 attempt && o.cancelled k)) [
      | inl stop ↦ rw stop (omega (arith, first))
      | inr going ↦ elim (Option-cases (do_signed o c ingest_path payload k)) [
        | inl e ↦ rw (going, e) (omega (arith, first))
        | inr (f, e) ↦ elim (Bool-cases (is_unauthorized f)) [
          | inl refused ↦ rw (going, e, refused) (omega (arith, first))
          | inr ok ↦ rw (going, e, ok) (let more = rest f in omega (arith, first, more))
        ]
      ]
    ]

-- A send makes one request to five. All but the last have no answer below 300, and fail, but not because
-- the credential is refused. It succeeds at an answer below 300, and stops at once there, at an answer
-- that refuses the credential, or at a cancelled wait, which comes after the first request; else it
-- gives up after five with the last failure.
pub send-IsRun :
    (o : Outside) (c : Client) (msg_type body : Text) (k : ℕ)
    → IsRun o c
        (envelope_of o c msg_type body k)
        (k + 1)
        (k + 1)
        5
        no_answer
        (send o c msg_type body k)
unfolding send
send-IsRun o c msg_type body k =
    attempts-IsRun o c (envelope_of o c msg_type body k) (k + 1) 5 0 no_answer (k + 1) []
      (omega arith)

-- The waits of a send take at most 8.52 seconds together, as a byte of jitter is below 256.
pub send-waits :
    (o : Outside) (c : Client) (msg_type body : Text) (k : ℕ)
    → IsJittered o
    → sum (send o c msg_type body k).waits ≤ 8520 * milli
unfolding send budget sum wait_before
send-waits o c msg_type body k j =
    let h = attempts-waits o c (envelope_of o c msg_type body k) 5 0 no_answer (k + 1) [] j in
    omega (arith, h)
