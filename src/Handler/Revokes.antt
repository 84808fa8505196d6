-- ===== src/Handler/Revokes.antt =====
-- handleLogoutAll and handleSessionByID, where they answer with success.
use auth_login_load_balancin.Prelude.{
  ◌≤◌, String, ◌≡◌, ◌≢◌, none, some, arith, inl, inr, ◌==◌, Bool-cases,
}
use auth_login_load_balancin.Prelude.Int.{negsuc}
use auth_login_load_balancin.Errors.{Error}
use auth_login_load_balancin.Go.Strings.{trim_space}
use auth_login_load_balancin.Go.Strings.Trim.{trim_space_idem}
use auth_login_load_balancin.Go.Strings.Split.{trim_prefix}
use auth_login_load_balancin.Model.{AuthIdentity}
use auth_login_load_balancin.Platform.{Platform, World}
use auth_login_load_balancin.Platform.Laws.{Views, Laws}
use auth_login_load_balancin.Repository.RefreshToken.Index.{IsIndexed}
use auth_login_load_balancin.Service.Revoked.{LoggedOut}
use auth_login_load_balancin.Service.Auth.Logout.Everywhere.{logout_all-LoggedOut}
use auth_login_load_balancin.Service.Auth.Logout.OneSession.{
  SessionRevoked, revoke_session-SessionRevoked,
}
use auth_login_load_balancin.Http.{Request, Reply}
use auth_login_load_balancin.Http.Library.{Web}
use auth_login_load_balancin.Handler.{HandlerConfig, refresh_token_cookie}
use auth_login_load_balancin.Handler.Tokens.{
  revoke_session_status, revoke_session_of, handle_logout_all, handle_session_by_id,
}
use auth_login_load_balancin.Handler.Response.{write_json}
use auth_login_load_balancin.Handler.Success.{
  ok_lt, only-eq, with_identity-eq, attend-eq-ok, write_error-status-ne,
}
use auth_login_load_balancin.Handler.Cookies.{Sets, cleared-Sets, cleared-world}

revoke_session_status-ge : (e : Error) → 400 ≤ revoke_session_status e
unfolding revoke_session_status
revoke_session_status-ge Error.invalid_refresh_token = omega arith
revoke_session_status-ge _ = omega arith

module _ {S D O : Type 0} (p : Platform S D O) (v : Views S D O) (l : Laws p v)
    (web : Web (World S D O)) (h : HandlerConfig) where
  -- If every record is in the sets of its user and session, and the identity that the middleware has
  -- found, if any, has a user id that is not blank, then a logout from all devices that is answered
  -- with 200, on a response that had no status yet, has logged this user out everywhere: every token that had a record of the user is dead
  -- and no session of the user is ACTIVE. The response clears the cookie.
  pub handle_logout_all-LoggedOut :
      (r : Request) (a : Reply (World S D O))
      → IsIndexed p v a.world
      → ((i : AuthIdentity) → r.auth_identity ≡ some i → trim_space i.user_id ≢ "")
      → a.writer.status ≡ 0
      → (handle_logout_all p web h r a).writer.status ≡ 200
      → (i : AuthIdentity) × (r.auth_identity ≡ some i)
        × LoggedOut p v (trim_space i.user_id) a.world (handle_logout_all p web h r a).world
        × Sets web
            (refresh_token_cookie p.lib h.config "" (negsuc 0) none)
            (handle_logout_all p web h r a)
  unfolding handle_logout_all
  handle_logout_all-LoggedOut r a indexed named fresh h200 =
      let same = only-eq web 200 ok_lt "POST" _ r a fresh h200 in
      let at = rw same at h200 in
      let (i, found, goes) = with_identity-eq web 200 ok_lt r _ r.auth_identity a fresh at in
      let (x, t, runs, ends) =
        attend-eq-ok web 200 ok_lt _ _ _ a
          (λ e b fresh. write_error-status-ne web 200 ok_lt r 500 _ _ b (omega arith) fresh) fresh
          (rw goes at at) in
      (
        i,
        found,
        rw same (
            rw goes (
              rw ends (
                rw (cleared-world p web h.config 200 _ (record a { world = t })) (
                  logout_all-LoggedOut p v l h.auth_service i.user_id _ a.world indexed
                    (named i found) runs)))),
        rw same (rw goes (rw ends (cleared-Sets p web h.config 200 _ (record a { world = t })))),
      )

  revoke_session_of-SessionRevoked :
      (r : Request) (user_id session_id : String) (a : Reply (World S D O))
      → IsIndexed p v a.world
      → a.writer.status ≡ 0
      → (revoke_session_of p web h r user_id session_id a).writer.status ≡ 200
      → SessionRevoked p v
          (trim_space user_id)
          (trim_space session_id)
          a.world
          (revoke_session_of p web h r user_id session_id a).world
  unfolding revoke_session_of write_json
  revoke_session_of-SessionRevoked r user_id session_id a indexed fresh h200 =
      elim (Bool-cases (session_id == "")) [
        | inl blank ↦
            absurd (
              write_error-status-ne web 200 ok_lt r 400 _ _ a (omega arith) fresh
                (rw blank at h200))
        | inr filled ↦
            let (x, t, runs, ends) =
              attend-eq-ok web 200 ok_lt _ _ _ a
                (λ e b fresh.
                  write_error-status-ne web 200 ok_lt r (revoke_session_status e) _ _ b
                    (revoke_session_status-ge e) fresh)
                fresh (rw filled at h200) in
            rw filled (
              rw ends (
                revoke_session-SessionRevoked p v l h.auth_service user_id session_id a.world
                  indexed runs))
      ]

  -- If every record is in the sets of its user and session, then a DELETE of a session that is
  -- answered with 200, on a response that had no status yet, was asked for by the user of a session whose
  -- id the database reads in the path after the prefix; the session is now REVOKED, and every token that had a record of it is dead.
  pub handle_session_by_id-SessionRevoked :
      (r : Request) (a : Reply (World S D O))
      → IsIndexed p v a.world
      → a.writer.status ≡ 0
      → (handle_session_by_id p web h r a).writer.status ≡ 200
      → (i : AuthIdentity) × (r.auth_identity ≡ some i)
        × SessionRevoked p v
            (trim_space i.user_id)
            (trim_space (trim_prefix r.path "/auth/sessions/"))
            a.world
            (handle_session_by_id p web h r a).world
  unfolding handle_session_by_id
  handle_session_by_id-SessionRevoked r a indexed fresh h200 =
      let same = only-eq web 200 ok_lt "DELETE" _ r a fresh h200 in
      let at = rw same at h200 in
      let (i, found, goes) = with_identity-eq web 200 ok_lt r _ r.auth_identity a fresh at in
      let done =
        revoke_session_of-SessionRevoked r i.user_id
          (trim_space (trim_prefix r.path "/auth/sessions/")) a indexed fresh (rw goes at at) in
      (
        i,
        found,
        rw same (rw goes (rw (trim_space_idem (trim_prefix r.path "/auth/sessions/")) at done)),
      )
