-- ===== src/Store/Journal/Newest.antt =====
-- What `ListEvents` and `ListAudit` return.
use mathlib.Core.List.{append-nil, append_assoc}
use pulse_frix.Prelude.{
  ℕ, zero, suc, ◌+◌, ◌≡◌, sym, Bool, List, [], ◌∷◌, ◌++◌, reverse, arith, Text, text_eq, ◌==◌,
  length, length-append, take, select, Bool-cases, inl, inr,
}
use pulse_frix.Store.{Memory}
use pulse_frix.Store.Journal.{collect, list_events, list_audit}

module _ {ℓ} {A : Type ℓ} (p : A → Bool) where
  -- The loop appends the first matches that still fit.
  collect-take :
      (limit n : ℕ) (xs out : List A)
      → length out + n ≡ limit
      → collect p limit xs out ≡ out ++ take n (select p xs)
  unfolding collect
  collect-take limit zero [] out e = sym (append-nil out)
  collect-take limit (suc n) [] out e = sym (append-nil out)
  collect-take limit zero (x ∷ xs) out e = ground (arith, append-nil out)
  collect-take limit (suc n) (x ∷ xs) out e = elim (Bool-cases (p x)) [
    | inl hit ↦ ground (
      arith,
      collect-take limit n xs (out ++ x ∷ []) (omega (arith, length-append out (x ∷ []))),
      append_assoc out (x ∷ []) (take n (select p xs)),
    )
    | inr miss ↦ ground (arith, collect-take limit (suc n) xs out e)
  ]

-- `ListEvents` returns the newest events of the organization, newest first, and as many of them as
-- the limit admits; `ListAudit` does so with the audit entries.
pub journal_newest_first :
    (m : Memory) (org_id : Text) (limit : ℕ)
    → (list_events m org_id limit
        ≡ take limit (select (λ e. e.org_id == org_id) (reverse m.events)))
      × (list_audit m org_id limit
          ≡ take limit (select (λ e. e.org_id == org_id) (reverse m.audit)))
unfolding list_events list_audit
journal_newest_first m org_id limit = (
  collect-take _ limit limit (reverse m.events) [] (omega arith),
  collect-take _ limit limit (reverse m.audit) [] (omega arith),
)
