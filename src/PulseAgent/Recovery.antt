-- ===== src/PulseAgent/Recovery.antt =====
-- An agent that lost its credential gets one back.
use pulse_frix.Prelude.{
  ℕ, zero, suc, ◌+◌, ◌≡◌, ◌≤◌, ◌<◌, ◌∙◌, refl, ap, sym, true, false, not, ◌&&◌, List, [], ◌∷◌,
  arith, leb, Bool-cases, inl, inr, if_true, if_false,
}
use pulse_frix.AgentClient.{Outside, rebind, EnrollResponse, enrolled, reenroll}
use pulse_frix.PulseAgent.{
  Enrollment, ready, due, adopt, attempt, on_credential_tick, reenroll_request,
}
use pulse_frix.PulseAgent.Credential.{attempt-issued}
use pulse_frix.PulseAgent.Spacing.{CredentialEvent, tick, run}

abbrev pub ticks : ℕ → List CredentialEvent
ticks zero = []
ticks (suc n) = tick ∷ ticks n

-- The control plane answers the agent's re-enrollment, whenever it comes, with an identity.
abbrev pub IsAnswered : Outside → Enrollment → Type 0
IsAnswered o e =
    (k : ℕ)
    → (resp : EnrollResponse) × (reenroll o e.client.signer (reenroll_request e) k ≡ enrolled resp)

-- The agent has a credential, and its client signs for its identity.
abbrev pub IsRecovered : Enrollment → Type 0
IsRecovered e = (ready e ≡ true) × (e.client.agent_id ≡ e.identity.agent_id)

-- A tick leaves an agent with a credential as it is, and one that has to wait.
tick_idle :
    (o : Outside) (e : Enrollment) (k : ℕ)
    → (not (ready e) && due e (o.clock k)) ≡ false
    → on_credential_tick o e k ≡ (e, k + 1)
unfolding on_credential_tick
tick_idle o e k idle = if_false (not (ready e) && due e (o.clock k)) _ _ idle

tick_tries :
    (o : Outside) (e : Enrollment) (k : ℕ)
    → (not (ready e) && due e (o.clock k)) ≡ true
    → e.identity.enrolled ≡ true
    → IsAnswered o e
    → IsRecovered (on_credential_tick o e k).0
unfolding on_credential_tick ready adopt rebind
tick_tries o e k now known answers =
    let (resp, answered) = answers (k + 1 + 1) in
    let taken =
      if_true (not (ready e) && due e (o.clock k))
        ((attempt o e (k + 1)).state, (attempt o e (k + 1)).steps) (e, k + 1) now in
    let issued = ap (λ a. a.state) (attempt-issued o e (k + 1) resp known answered) in
    let same = ap (λ (s : Enrollment × ℕ). s.0) taken ∙ issued in rw same (refl, refl)

-- A tick that changes nothing may be left out.
idle_run :
    (o : Outside) (n : ℕ) (e : Enrollment) (k : ℕ)
    → (not (ready e) && due e (o.clock k)) ≡ false
    → IsRecovered (run o (e, k + 1) (ticks n)).0
    → IsRecovered (run o (e, k) (ticks (suc n))).0
unfolding run
idle_run o n e k idle (fine, bound) =
    let same : (run o (e, k) (ticks (suc n))).0 ≡ (run o (e, k + 1) (ticks n)).0 =
      ap (λ s. (run o s (ticks n)).0) (tick_idle o e k idle) in
    (
      ap ready same ∙ fine,
      ap (λ x. x.client.agent_id) same ∙ (bound ∙ sym (ap (λ x. x.identity.agent_id) same)),
    )

-- With a credential the ticks change nothing.
stays_recovered :
    (o : Outside) (n : ℕ) (e : Enrollment) (k : ℕ)
    → IsRecovered e
    → IsRecovered (run o (e, k) (ticks n)).0
unfolding run
stays_recovered o zero e k fine = fine
stays_recovered o (suc n) e k fine =
    let idle : (not (ready e) && due e (o.clock k)) ≡ false = let r = fine.0 in ground (arith, r) in
    idle_run o n e k idle (stays_recovered o n e (k + 1) fine)

-- The step of a tick, for what holds of the rest.
tick_then :
    (o : Outside) (n : ℕ) (e : Enrollment) (k : ℕ)
    → e.identity.enrolled ≡ true
    → e.client.agent_id ≡ e.identity.agent_id
    → IsAnswered o e
    → ((not (ready e) && due e (o.clock k)) ≡ false
        → ready e ≡ false
        → IsRecovered (run o (e, k + 1) (ticks n)).0)
    → IsRecovered (run o (e, k) (ticks (suc n))).0
unfolding run
tick_then o n e k known bound answers later =
    elim (Bool-cases (not (ready e) && due e (o.clock k))) [
      | inl goes ↦
          let s = on_credential_tick o e k in
          stays_recovered o n s.0 s.1 (tick_tries o e k goes known answers)
      | inr idle ↦ elim (Bool-cases (ready e)) [
        | inl fine ↦ stays_recovered o (suc n) e k (fine, bound)
        | inr lost ↦ idle_run o n e k idle (later idle lost)
      ]
    ]

-- An agent that has been enrolled once, whose client signs for its identity, and whose re-enrollment
-- the control plane answers whenever it comes: if an attempt is due at one of n ticks of the credential
-- timer that come one after another, then after the n ticks the agent has a credential and its client
-- signs for its identity, however many ticks came before that one.
pub ticks_recover :
    (o : Outside) (n i : ℕ) (e : Enrollment) (k : ℕ)
    → e.identity.enrolled ≡ true
    → e.client.agent_id ≡ e.identity.agent_id
    → IsAnswered o e
    → i < n
    → e.next_attempt ≤ o.clock (k + i)
    → IsRecovered (run o (e, k) (ticks n)).0
unfolding due
ticks_recover o zero i e k known bound answers below now = absurd (omega (arith, below))
ticks_recover o (suc n) zero e k known bound answers below now =
    tick_then o n e k known bound answers (λ idle lost.
      let is_due : leb e.next_attempt (o.clock k) ≡ true = ground (arith, now) in
      absurd (ground (arith, idle, lost, is_due)))
ticks_recover o (suc n) (suc i) e k known bound answers below now =
    let shift : k + suc i ≡ k + 1 + i = omega arith in
    tick_then o n e k known bound answers (λ idle lost.
      ticks_recover o n i e (k + 1) known bound answers (omega (arith, below)) (rw⁻¹ shift now))
