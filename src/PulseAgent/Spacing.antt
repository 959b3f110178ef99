-- ===== src/PulseAgent/Spacing.antt =====
-- How often a running agent tries to get a credential back.
use pulse_frix.Prelude.{
  ℕ, ◌+◌, ◌*◌, ◌≡◌, ◌≤◌, ◌<◌, both, refl, ◌∙◌, true, not, ◌&&◌, List, [], ◌∷◌, Text, ◌⊎◌, inl, inr,
  arith, Bool, Bool-cases, Option, none, some, leb, Option-cases, nat_eq, if◌then◌else◌,
}
use pulse_frix.AgentClient.{Outside, SendFailure, is_unauthorized, send}
use pulse_frix.AgentClient.Attempts.{send-IsRun}
use pulse_frix.PulseAgent.{
  Enrollment, ready, due, adopt, Attempted, Shipped, attempt, repair, ship, on_credential_tick,
  credential_retry_every,
}
use pulse_frix.PulseAgent.Credential.{Outcome, issued, failed, denied, attempt-Outcome, postponed}

-- The clock does not go back.
abbrev pub IsClock : Outside → Type 0
IsClock o = (i j : ℕ) → i ≤ j → o.clock i ≤ o.clock j

-- From `k` to `k'` there are `n` attempts: none, or one, at a time at which it is due, and the next one
-- is due a minute later or more.
abbrev IsSpaced : Outside → ℕ → Enrollment → ℕ → Enrollment → ℕ → Type 0
IsSpaced o n e k e' k' =
    (k ≤ k')
    × (((n ≡ 0) × (e'.identity ≡ e.identity) × (e'.next_attempt ≡ e.next_attempt))
        ⊎ ((n ≡ 1)
            × (j : ℕ) × (k ≤ j)
            × (j ≤ k')
            × (e.next_attempt ≤ o.clock j)
            × (o.clock j + credential_retry_every ≤ e'.next_attempt)))

Outcome-postpones :
    (o : Outside) (e : Enrollment) (k : ℕ) (a : Attempted) (least : ℕ)
    → Outcome o e k a
    → IsClock o
    → least ≤ e.next_attempt
    → least ≤ o.clock k + credential_retry_every
    → (k < a.steps) × (least ≤ a.state.next_attempt)
unfolding adopt
Outcome-postpones o e k a least (issued resp n h) clock le le' = (h, le)
Outcome-postpones o e k a least (failed n h) clock le le' = (h, le)
Outcome-postpones o e k a least (denied j n h h') clock le le' =
    let later = clock k j (omega (arith, h)) in (omega (arith, h, h'), omega (arith, later, le'))

-- An attempt after a reading `k` of the clock at which it is due.
attempt-IsSpaced :
    (o : Outside) (e : Enrollment) (k : ℕ)
    → IsClock o
    → e.next_attempt ≤ o.clock k
    → IsSpaced o 1 e k (attempt o e (k + 1)).state (attempt o e (k + 1)).steps
attempt-IsSpaced o e k clock now =
    let later = clock k (k + 1) (omega arith) in
    let a = attempt o e (k + 1) in
    let (after, postpones) =
      Outcome-postpones o (postponed e (o.clock (k + 1) + credential_retry_every)) (k + 1) a
        (o.clock k + credential_retry_every) (attempt-Outcome o e (k + 1)) clock
        (omega (arith, later)) (omega (arith, later)) in
    (omega (arith, after), inr (refl, k, omega arith, omega (arith, after), now, postpones))

send-later :
    (o : Outside) (e : Enrollment) (msg_type body : Text) (k : ℕ)
    → k < (send o e.client msg_type body k).steps
send-later o e msg_type body k = elim (send-IsRun o e.client msg_type body k) [
  | inl (j, steps, from, _, _, _) ↦ omega (arith, steps, from)
  | inr (f, _, steps, _, _) ↦ omega (arith, steps)
]

-- More dealings after it change nothing.
IsSpaced-later :
    (o : Outside) (n : ℕ) (e : Enrollment) (k : ℕ) (e' : Enrollment) (k' k'' : ℕ)
    → k' ≤ k''
    → IsSpaced o n e k e' k'
    → IsSpaced o n e k e' k''
IsSpaced-later o n e k e' k' k'' le (from, inl same) = (omega (arith, from, le), inl same)
IsSpaced-later o n e k e' k' k'' le (from, inr (one, j, a, b, now, next)) =
    (omega (arith, from, le), inr (one, j, a, omega (arith, b, le), now, next))

repair-IsSpaced :
    (o : Outside) (e : Enrollment) (f : SendFailure) (msg_type body : Text) (k : ℕ)
    → IsClock o
    → let s = repair o e f msg_type body k in
      IsSpaced o (if due e (o.clock k) then 1 else 0) e k s.state s.steps
unfolding repair due
repair-IsSpaced o e f msg_type body k clock =
    let a = attempt o e (k + 1) in
    elim (Bool-cases (leb e.next_attempt (o.clock k))) [
      | inr early ↦ rw early (omega arith, inl (refl, refl, refl))
      | inl now ↦
          let spaced = attempt-IsSpaced o e k clock (ground (arith, now)) in
          rw now (
            both (λ (s : Shipped). IsSpaced o 1 e k s.state s.steps) (not a.ok) (λ _. spaced)
              (λ _.
                let later = send-later o a.state msg_type body a.steps in
                IsSpaced-later o 1 e k a.state a.steps _ (omega (arith, later)) spaced))
    ]

IsSpaced-earlier :
    (o : Outside) (n : ℕ) (e : Enrollment) (k k' : ℕ) (e' : Enrollment) (k'' : ℕ)
    → k ≤ k'
    → IsSpaced o n e k' e' k''
    → IsSpaced o n e k e' k''
IsSpaced-earlier o n e k k' e' k'' le (from, inl same) = (omega (arith, from, le), inl same)
IsSpaced-earlier o n e k k' e' k'' le (from, inr (one, j, a, b, now, next)) =
    (omega (arith, from, le), inr (one, j, omega (arith, a, le), b, now, next))

-- The attempts for a credential during a message: one, if the send is refused for the credential and
-- an attempt is due when the answer is in.
pub tries_after : Option SendFailure → Bool → ℕ
tries_after none is_due = 0
tries_after (some f) is_due = if is_unauthorized f then (if is_due then 1 else 0) else 0

abbrev pub message_tries : Outside → Enrollment → Text → Text → ℕ → ℕ
message_tries o e msg_type body k =
    let first = send o e.client msg_type body k in
    tries_after first.failure (due e (o.clock first.steps))

-- At a tick there is one, if there is no credential and an attempt is due.
abbrev pub tick_tries : Outside → Enrollment → ℕ → ℕ
tick_tries o e k = if not (ready e) && due e (o.clock k) then 1 else 0

ship-IsSpaced :
    (o : Outside) (e : Enrollment) (msg_type body : Text) (k : ℕ)
    → IsClock o
    → let s = ship o e msg_type body k in
      IsSpaced o (message_tries o e msg_type body k) e k s.state s.steps
unfolding ship tries_after due
ship-IsSpaced o e msg_type body k clock =
    let n = (send o e.client msg_type body k).steps in
    let later = send-later o e msg_type body k in
    elim (Option-cases (send o e.client msg_type body k).failure) [
      | inl ok ↦ rw (ok, ship, tries_after) (omega (arith, later), inl (refl, refl, refl))
      | inr (f, failing) ↦ elim (Bool-cases (is_unauthorized f)) [
        | inl refused ↦
            let lost = record e { rejected = true } in
            let r = repair o lost f msg_type body n in
            rw (failing, ship, tries_after, refused)
              (IsSpaced-earlier o _ e k n r.state r.steps (omega (arith, later))
                (repair-IsSpaced o lost f msg_type body n clock))
        | inr other ↦
            rw (failing, ship, tries_after, other) (omega (arith, later), inl (refl, refl, refl))
      ]
    ]

is_due_le : (e : Enrollment) (now : ℕ) → due e now ≡ true → e.next_attempt ≤ now
unfolding due
is_due_le e now h = ground (arith, h)

on_credential_tick-IsSpaced :
    (o : Outside) (e : Enrollment) (k : ℕ)
    → IsClock o
    → let s = on_credential_tick o e k in IsSpaced o (tick_tries o e k) e k s.0 s.1
unfolding on_credential_tick
on_credential_tick-IsSpaced o e k clock = elim (Bool-cases (not (ready e) && due e (o.clock k))) [
  | inl now ↦
      rw (now, on_credential_tick)
        (attempt-IsSpaced o e k clock (is_due_le e (o.clock k) (ground (arith, now))))
  | inr not_now ↦ rw (not_now, on_credential_tick) (omega arith, inl (refl, refl, refl))
]

-- What happens to a running agent's credential: a tick of its timer, or a message.
pub data CredentialEvent : Type 0 where
  tick : CredentialEvent
  message : Text → Text → CredentialEvent

abbrev pub on_event : Outside → Enrollment × ℕ → CredentialEvent → Enrollment × ℕ
on_event o (e, k) tick = on_credential_tick o e k
on_event o (e, k) (message msg_type body) = let s = ship o e msg_type body k in (s.state, s.steps)

unfoldable pub run : Outside → Enrollment × ℕ → List CredentialEvent → Enrollment × ℕ
run o s [] = s
run o s (ev ∷ events) = run o (on_event o s ev) events

pub tries : Outside → Enrollment × ℕ → CredentialEvent → ℕ
tries o (e, k) tick = tick_tries o e k
tries o (e, k) (message msg_type body) = message_tries o e msg_type body k

-- The attempts for a credential in a run.
pub attempts_made : Outside → Enrollment × ℕ → List CredentialEvent → ℕ
attempts_made o s [] = 0
attempts_made o s (ev ∷ events) = tries o s ev + attempts_made o (on_event o s ev) events

on_event-IsSpaced :
    (o : Outside) (e : Enrollment) (k : ℕ) (ev : CredentialEvent)
    → IsClock o
    → let s = on_event o (e, k) ev in IsSpaced o (tries o (e, k) ev) e k s.0 s.1
unfolding tries
on_event-IsSpaced o e k tick clock = on_credential_tick-IsSpaced o e k clock
on_event-IsSpaced o e k (message msg_type body) clock = ship-IsSpaced o e msg_type body k clock

run-later :
    (o : Outside) (s : Enrollment × ℕ) (events : List CredentialEvent)
    → IsClock o
    → s.1 ≤ (run o s events).1
unfolding run
run-later o s [] clock = omega arith
run-later o s (ev ∷ events) clock =
    let (first, _) = on_event-IsSpaced o s.0 s.1 ev clock in
    let rest = run-later o (on_event o s ev) events clock in omega (arith, first, rest)

spaced_step :
    (next next' c c' t end : ℕ)
    → c ≤ 1 + c'
    → next ≤ t
    → t + credential_retry_every ≤ next'
    → t ≤ end
    → (c' ≡ 0) ⊎ (next' + c' * credential_retry_every ≤ end + credential_retry_every)
    → next + c * credential_retry_every ≤ end + credential_retry_every
spaced_step next next' c c' t end le now later before (inl zero_more) =
    omega (arith, le, now, before, zero_more)
spaced_step next next' c c' t end le now later before (inr more) =
    omega (arith, le, now, later, more)

still_step :
    (next next' c c' end : ℕ)
    → next' ≡ next
    → c ≡ c'
    → (c' ≡ 0) ⊎ (next' + c' * credential_retry_every ≤ end + credential_retry_every)
    → (c ≡ 0) ⊎ (next + c * credential_retry_every ≤ end + credential_retry_every)
still_step next next' c c' end same same_count (inl zero_more) = inl (same_count ∙ zero_more)
still_step next next' c c' end same same_count (inr more) =
    inr (omega (arith, same, same_count, more))

run-attempts :
    (o : Outside) (s : Enrollment × ℕ) (events : List CredentialEvent)
    → IsClock o
    → (attempts_made o s events ≡ 0)
      ⊎ (s.0.next_attempt + attempts_made o s events * credential_retry_every
          ≤ o.clock (run o s events).1 + credential_retry_every)
unfolding run attempts_made
run-attempts o s [] clock = inl refl
run-attempts o s (ev ∷ events) clock =
    let s' = on_event o s ev in
    let rest = run-attempts o s' events clock in
    let (_, moved) = on_event-IsSpaced o s.0 s.1 ev clock in
    let later = run-later o s' events clock in
    elim moved [
      | inl (zero_here, _, same) ↦
          still_step s.0.next_attempt s'.0.next_attempt (attempts_made o s (ev ∷ events))
            (attempts_made o s' events) (o.clock (run o s' events).1) same
            (omega (arith, zero_here)) rest
      | inr (one_here, j, _, early, now, next) ↦ inr (
          spaced_step s.0.next_attempt s'.0.next_attempt (attempts_made o s (ev ∷ events))
            (attempts_made o s' events) (o.clock j) (o.clock (run o s' events).1)
            (omega (arith, one_here)) now next
            (clock j (run o s' events).1 (omega (arith, early, later))) rest)
    ]

-- Where the count of an event is 0, no attempt is seen in the state.
untried :
    (o : Outside) (e : Enrollment) (k : ℕ) (ev : CredentialEvent)
    → IsClock o
    → tries o (e, k) ev ≡ 0
    → let e' = (on_event o (e, k) ev).0 in
      (e'.identity ≡ e.identity) × (e'.next_attempt ≡ e.next_attempt)
untried o e k ev clock none_made = elim ((on_event-IsSpaced o e k ev clock).1) [
  | inl (_, identity, next) ↦ (identity, next)
  | inr (one, _, _, _, _, _) ↦ absurd (omega (arith, one, none_made))
]

-- A run of an agent from a state in which the next attempt is due at some time: if it makes `n`
-- attempts for a credential, at ticks and after messages that are refused, n above 0, then it ends n - 1
-- minutes after that time or later. The clock does not go back. And an
-- event that counts no attempt leaves the identity and the time of the next attempt as they are.
pub run-IsSpaced :
    (o : Outside) (s : Enrollment × ℕ) (events : List CredentialEvent)
    → IsClock o
    → ((attempts_made o s events ≡ 0)
        ⊎ (s.0.next_attempt + attempts_made o s events * credential_retry_every
            ≤ o.clock (run o s events).1 + credential_retry_every))
      × ((e : Enrollment) (k : ℕ) (ev : CredentialEvent)
          → tries o (e, k) ev ≡ 0
          → let e' = (on_event o (e, k) ev).0 in
            (e'.identity ≡ e.identity) × (e'.next_attempt ≡ e.next_attempt))
run-IsSpaced o s events clock =
    (run-attempts o s events clock, λ e k ev none_made. untried o e k ev clock none_made)
