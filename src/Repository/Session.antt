-- ===== src/Repository/Session.antt =====
-- internal/repository/session_repository.go: the sessions table.
pub mod Revocation
use auth_login_load_balancin.Prelude.{ℕ, String, ◌==◌, ◌&&◌, List, [], ◌∷◌}
use auth_login_load_balancin.Prelude.Exec.{Exec, pure, raise, lift, ◌>>=◌}
use auth_login_load_balancin.Errors.{no_rows}
use auth_login_load_balancin.Model.{Session}
use auth_login_load_balancin.Platform.{Platform, World, on_db}

module _ {S D O : Type 0} (p : Platform S D O) where
  abbrev pub first_session : List Session → Exec (World S D O) Session
  first_session [] = raise no_rows
  first_session (s ∷ ss) = pure s

  -- INSERT INTO sessions … RETURNING …
  unfoldable pub create : Session → Exec (World S D O) Session
  create session = on_db (p.postgres.insert_session session)

  -- SELECT … FROM sessions WHERE user_id = $1 ORDER BY created_at DESC
  unfoldable pub list_by_user_id : String → Exec (World S D O) (List Session)
  list_by_user_id user_id =
      on_db (p.postgres.select_sessions_newest_first (λ s. s.user_id == user_id))

  -- UPDATE sessions SET last_used_at = $1 WHERE id = $2, with a valid sql.NullTime.
  unfoldable pub update_last_used_at : String → ℕ → Exec (World S D O) (Unit {0})
  update_last_used_at session_id last_used_at = on_db (
      p.postgres.update_sessions (λ s. s.id == session_id)
        (λ s. record s { last_used_at = last_used_at }))

  -- UPDATE sessions SET status = $1 WHERE id = $2
  unfoldable pub update_status : String → String → Exec (World S D O) (Unit {0})
  update_status session_id status =
      on_db
        (p.postgres.update_sessions (λ s. s.id == session_id) (λ s. record s { status = status }))

  -- UPDATE sessions SET status = 'REVOKED' WHERE user_id = $1 AND status = 'ACTIVE'
  unfoldable pub revoke_all_by_user_id : String → Exec (World S D O) (Unit {0})
  revoke_all_by_user_id user_id = on_db (
      p.postgres.update_sessions (λ s. s.user_id == user_id && s.status == "ACTIVE")
        (λ s. record s { status = "REVOKED" }))

  -- SELECT … FROM sessions WHERE id = $1. The id comes from the path of a request, in any notation
  -- of a UUID that the server reads. The ids of the statements above come from a row of a table, a
  -- record or an access token, which hold the canonical texts of uuid.NewString: for these, equality
  -- of UUIDs is equality of texts.
  unfoldable pub find_by_id : String → Exec (World S D O) Session
  find_by_id session_id = do
    id ← lift (p.postgres.uuid_in session_id)
    rows ← on_db (p.postgres.select_sessions (λ s. s.id == id))
    first_session rows
