-- ===== src/Store/Journal.antt =====
-- memory.go, the append-only lists of events and audit entries.
pub mod Newest
use pulse_frix.Prelude.{
  ℕ, Bool, List, [], ◌∷◌, ◌++◌, reverse, Text, text_eq, ◌==◌, length, ltb, if◌then◌else◌,
}
use pulse_frix.Model.{Event, AuditEntry}
use pulse_frix.Store.{Memory, ok, Done}

unfoldable pub append_event : Memory → Event → Text → Done × Memory
append_event m e new_id = (
  ok tt,
  record m { events = m.events ++ record e { id = if e.id == [] then new_id else e.id } ∷ [] },
)

-- `for i := len(l) - 1; i >= 0 && len(out) < limit; i--`, over what is left of the reversed list.
unfoldable pub collect {ℓ} : {A : Type ℓ} → (A → Bool) → ℕ → List A → List A → List A
collect p limit [] out = out
collect p limit (x ∷ xs) out =
    let rest = collect p limit xs (if p x then out ++ x ∷ [] else out) in
    if ltb (length out) limit then rest else out

unfoldable pub list_events : Memory → Text → ℕ → List Event
list_events m org_id limit = collect (λ e. e.org_id == org_id) limit (reverse m.events) []

unfoldable pub append_audit : Memory → AuditEntry → Text → Done × Memory
append_audit m e new_id = (
  ok tt,
  record m { audit = m.audit ++ record e { id = if e.id == [] then new_id else e.id } ∷ [] },
)

unfoldable pub list_audit : Memory → Text → ℕ → List AuditEntry
list_audit m org_id limit = collect (λ e. e.org_id == org_id) limit (reverse m.audit) []
