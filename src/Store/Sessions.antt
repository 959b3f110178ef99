-- ===== src/Store/Sessions.antt =====
-- memory.go, the sessions. `now` is the clock that `GetSession` reads.
pub mod Revocation
use pulse_frix.Prelude.{ℕ, none, some, Text, text_eq, ◌==◌, ltb, if◌then◌else◌}
use pulse_frix.Dict
use pulse_frix.Model.{Session}
use pulse_frix.Store.{Memory, Result, ok, err, Done, not_found}

unfoldable pub create_session : Memory → Session → Done × Memory
create_session m s = (ok tt, record m { sessions = Dict.put m.sessions s.id s })

unfoldable pub get_session : Memory → Text → ℕ → Result Session
get_session m id now = elim (Dict.get m.sessions id) [
  | none ↦ err not_found
  | some s ↦ if ltb s.expires_at now then err not_found else ok s
]

unfoldable pub delete_session : Memory → Text → Done × Memory
delete_session m id = (ok tt, record m { sessions = Dict.remove m.sessions id })

unfoldable pub delete_sessions_for_user : Memory → Text → Done × Memory
delete_sessions_for_user m user_id =
    (ok tt, record m { sessions = Dict.remove_where (λ s. s.user_id == user_id) m.sessions })
