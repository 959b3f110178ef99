-- ===== src/PulseAgent/Credential.antt =====
-- What an attempt for a credential comes to, and the recovery of a message that is refused.
use pulse_frix.Prelude.{
  ℕ, ◌+◌, ◌≡◌, ◌<◌, both, if_true, refl, ap, ◌∙◌, true, false, not, [], Text, inl, inr, arith,
  Option-cases, Bool-cases, text_eq, ◌==◌,
}
use pulse_frix.AgentClient.{
  Outside, rebind, SendFailure, is_unauthorized, send, EnrollResponse, Enrolled, enrolled,
  enroll_failed, reenroll_unsupported, reenroll_unauthorized, reenroll,
}
use pulse_frix.PulseAgent.{
  Enrollment, ready, due, adopt, Attempted, Shipped, enroll_as, enroll_with_token, recover_as,
  recover, attempt, repair, ship, reenroll_request, credential_retry_every,
  credential_refused_retry_every,
}

abbrev pub postponed : Enrollment → ℕ → Enrollment
postponed e until = record e { next_attempt = until }

abbrev pub refused : Enrollment → ℕ → Enrollment
refused e until = record e { next_attempt = until; refused_logged = true }

-- An attempt adopts what the control plane issues, fails, or is refused at a later dealing `j`.
pub data Outcome (o : Outside) (e : Enrollment) (k : ℕ) : Attempted → Type 0 where
  issued :
      (resp : EnrollResponse) (n : ℕ)
      → k < n
      → Outcome o e k (record { ok = true; state = adopt e resp; steps = n })
  failed : (n : ℕ) → k < n → Outcome o e k (record { ok = false; state = e; steps = n })
  denied :
      (j n : ℕ)
      → k < j
      → j < n
      → Outcome o e k (record {
        ok = false;
        state = refused e (o.clock j + credential_refused_retry_every);
        steps = n;
      })

enroll_as-Outcome :
    (o : Outside) (e : Enrollment) (r : Enrolled) (k n : ℕ)
    → k < n
    → Outcome o e k (enroll_as e r n)
unfolding enroll_as
enroll_as-Outcome o e (enrolled resp) k n h = issued resp n h
enroll_as-Outcome o e enroll_failed k n h = failed n h
enroll_as-Outcome o e reenroll_unsupported k n h = failed n h
enroll_as-Outcome o e (reenroll_unauthorized m) k n h = failed n h

enroll_with_token-Outcome :
    (o : Outside) (e : Enrollment) (k n : ℕ) → k < n → Outcome o e k (enroll_with_token o e n)
unfolding enroll_with_token
enroll_with_token-Outcome o e k n h = elim (Bool-cases (e.enrollment_token == [])) [
  | inl nothing ↦ rw nothing (failed n h)
  | inr some_token ↦ rw some_token (enroll_as-Outcome o e _ k (n + 1) (omega (arith, h)))
]

recover_as-Outcome :
    (o : Outside) (e : Enrollment) (r : Enrolled) (k n : ℕ)
    → k < n
    → Outcome o e k (recover_as o e r n)
unfolding recover_as
recover_as-Outcome o e (enrolled resp) k n h = issued resp n h
recover_as-Outcome o e enroll_failed k n h = failed n h
recover_as-Outcome o e reenroll_unsupported k n h = enroll_with_token-Outcome o e k n h
recover_as-Outcome o e (reenroll_unauthorized m) k n h = denied n (n + 1) h (omega arith)

pub attempt-Outcome :
    (o : Outside) (e : Enrollment) (k : ℕ)
    → Outcome o (postponed e (o.clock k + credential_retry_every)) k (attempt o e k)
unfolding attempt recover
attempt-Outcome o e k =
    let e' = postponed e (o.clock k + credential_retry_every) in
    both (Outcome o e' k) e.identity.enrolled
      (λ known.
        recover_as-Outcome o e' (reenroll o e.client.signer (reenroll_request e') (k + 1)) k
          (k + 1 + 1) (omega arith))
      (λ new. enroll_with_token-Outcome o e' k (k + 1) (omega arith))

-- The client signs as the agent that the identity names.
abbrev pub IsBound : Enrollment → Type 0
IsBound e = e.client.agent_id ≡ e.identity.agent_id

-- The key and the token stay, and the client stays bound to the identity.
abbrev pub IsKept : Enrollment → Enrollment → Type 0
IsKept e e' =
    (e'.client.signer ≡ e.client.signer)
    × (e'.identity.public_key ≡ e.identity.public_key)
    × (e'.identity.installation_id ≡ e.identity.installation_id)
    × (e'.enrollment_token ≡ e.enrollment_token)
    × (IsBound e → IsBound e')

IsKept-trans : (a b c : Enrollment) → IsKept a b → IsKept b c → IsKept a c
IsKept-trans a b c (s, p, i, t, bound) (s', p', i', t', bound') =
    (s' ∙ s, p' ∙ p, i' ∙ i, t' ∙ t, λ h. bound' (bound h))

Outcome-IsKept :
    (o : Outside) (e : Enrollment) (k : ℕ) (a : Attempted) → Outcome o e k a → IsKept e a.state
unfolding adopt rebind
Outcome-IsKept o e k a (issued resp n h) = (refl, refl, refl, refl, λ _. refl)
Outcome-IsKept o e k a (failed n h) = (refl, refl, refl, refl, λ b. b)
Outcome-IsKept o e k a (denied j n h h') = (refl, refl, refl, refl, λ b. b)

-- With a credential at the end of an attempt, the agent is ready.
Outcome-ready :
    (o : Outside) (e : Enrollment) (k : ℕ) (a : Attempted)
    → Outcome o e k a
    → a.ok ≡ true
    → ready a.state ≡ true
unfolding ready adopt
Outcome-ready o e k a (issued resp n h) ok = refl
Outcome-ready o e k a (failed n h) ok = absurd (ground (arith, ok))
Outcome-ready o e k a (denied j n h h') ok = absurd (ground (arith, ok))

attempt-IsKept : (o : Outside) (e : Enrollment) (k : ℕ) → IsKept e (attempt o e k).state
attempt-IsKept o e k =
    Outcome-IsKept o (postponed e (o.clock k + credential_retry_every)) k _ (attempt-Outcome o e k)

abbrev rejecting : Enrollment → Enrollment
rejecting e = record e { rejected = true }

repair-IsKept :
    (o : Outside) (e : Enrollment) (f : SendFailure) (msg_type body : Text) (k : ℕ)
    → IsKept e (repair o e f msg_type body k).state
unfolding repair
repair-IsKept o e f msg_type body k =
    let kept = attempt-IsKept o e (k + 1) in
    both (λ (s : Shipped). IsKept e s.state) (not (due e (o.clock k)))
      (λ _. (refl, refl, refl, refl, λ b. b))
      (λ _.
        both (λ (s : Shipped). IsKept e s.state) (not (attempt o e (k + 1)).ok) (λ _. kept)
          (λ _. kept))

-- A send leaves the key, the installation and the token as they are, and the client bound to the
-- identity if it was, whatever the control plane answers and however often the credential changes.
ship-IsKept :
    (o : Outside) (e : Enrollment) (msg_type body : Text) (k : ℕ)
    → IsKept e (ship o e msg_type body k).state
unfolding ship
ship-IsKept o e msg_type body k = elim (Option-cases (send o e.client msg_type body k).failure) [
  | inl ok ↦ rw (ok, ship) (refl, refl, refl, refl, λ b. b)
  | inr (f, e') ↦
      rw (e', ship)
        (both (λ (s : Shipped). IsKept e s.state) (is_unauthorized f)
          (λ _. repair-IsKept o (rejecting e) f msg_type body _)
          (λ _. (refl, refl, refl, refl, λ b. b)))
]

-- An attempt that the control plane answers with a new identity.
pub attempt-issued :
    (o : Outside) (e : Enrollment) (k : ℕ) (resp : EnrollResponse)
    → e.identity.enrolled ≡ true
    → reenroll o e.client.signer (reenroll_request e) (k + 1) ≡ enrolled resp
    → attempt o e k ≡ record {
      ok = true;
      state = adopt (postponed e (o.clock k + credential_retry_every)) resp;
      steps = k + 1 + 1;
    }
unfolding attempt recover recover_as
attempt-issued o e k resp known answered =
    if_true e.identity.enrolled _ _ known
    ∙ ap (λ r. recover_as o (postponed e (o.clock k + credential_retry_every)) r (k + 1 + 1))
        answered
