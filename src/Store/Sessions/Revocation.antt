-- ===== src/Store/Sessions/Revocation.antt =====
-- Which sessions survive `DeleteSessionsForUser`.
use pulse_frix.Prelude.{ℕ, ◌≡◌, Text, text_eq, ◌==◌, if◌then◌else◌, arith}
use pulse_frix.Dict.{HasUniqueKeys}
use pulse_frix.Dict.Laws.{get-remove_where}
use pulse_frix.Model.{Session}
use pulse_frix.Store.{Memory, Result, ok, err, not_found}
use pulse_frix.Store.Sessions.{get_session, delete_sessions_for_user}

abbrev pub without_user : Text → Result Session → Result Session
without_user user_id (ok s) = if s.user_id == user_id then err not_found else ok s
without_user user_id (err e) = err e

-- After `DeleteSessionsForUser`, at any time: an identifier that gave a session of that user gives
-- none, and every other identifier gives what it gave before. The map of sessions has one entry for
-- each key.
pub get_session-delete_sessions_for_user :
    (m : Memory) (user_id id : Text) (now : ℕ)
    → HasUniqueKeys m.sessions
    → get_session (delete_sessions_for_user m user_id).1 id now
      ≡ without_user user_id (get_session m id now)
unfolding get_session delete_sessions_for_user
get_session-delete_sessions_for_user m user_id id now u =
    ground (arith, get-remove_where (λ s. s.user_id == user_id) m.sessions id u)
