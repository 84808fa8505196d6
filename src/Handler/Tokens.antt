-- ===== src/Handler/Tokens.antt =====
-- handleRefresh, handleLogout, handleLogoutAll, handleSessions and handleSessionByID of
-- internal/handler/handler.go.
use auth_login_load_balancin.Prelude.{ℕ, String, ◌==◌, Option, none, some, if◌then◌else◌}
use auth_login_load_balancin.Errors.{
  Error, error_text, invalid_refresh_token, refresh_token_reuse_detected,
}
use auth_login_load_balancin.Go.Strings.{trim_space}
use auth_login_load_balancin.Go.Strings.Split.{trim_prefix}
use auth_login_load_balancin.Platform.{Platform, World}
use auth_login_load_balancin.Service.Auth.Refresh as RefreshService
use auth_login_load_balancin.Service.Auth.Logout as LogoutService
use auth_login_load_balancin.Http.{Request, Reply, Handler, attend}
use auth_login_load_balancin.Http.Library.{
  Web, refresh_body, logout_body, sessions_body, session_delete_body,
}
use auth_login_load_balancin.Middleware.{get_auth_identity}
use auth_login_load_balancin.Handler.{
  HandlerConfig, request_metadata, set_refresh_token_cookie, clear_refresh_token_cookie,
  read_refresh_token_cookie,
}
use auth_login_load_balancin.Handler.Response.{
  write_json, write_error, only, with_identity, respond,
}

-- The statuses of the errors of RefreshAccessToken and RevokeSession.
unfoldable pub refresh_status : Error → ℕ
refresh_status invalid_refresh_token = 401
refresh_status refresh_token_reuse_detected = 401
refresh_status _ = 500

unfoldable pub revoke_session_status : Error → ℕ
revoke_session_status invalid_refresh_token = 401
revoke_session_status _ = 500

-- What handleLogout makes of the cookie.
abbrev pub or_blank : Option String → String
or_blank none = ""
or_blank (some value) = value

module _ {S D O : Type 0} (p : Platform S D O) (web : Web (World S D O)) (h : HandlerConfig) where
  abbrev pub refresh_with : Request → Option String → Reply (World S D O) → Reply (World S D O)
  refresh_with r none =
      write_error web r 401 "invalid_refresh_cookie" "missing or invalid refresh token cookie"
  refresh_with r (some refresh_token) =
      attend
        (RefreshService.refresh_access_token p h.auth_service refresh_token
          (request_metadata h.config r))
        (respond web
          (λ response a.
            write_json web 200 (refresh_body response)
              (set_refresh_token_cookie p web h.config response.refresh_token a))
          (λ e. write_error web r (refresh_status e) "refresh_failed" (error_text e)))

  unfoldable pub handle_refresh : Handler (World S D O)
  handle_refresh = only web "POST" (λ r. refresh_with r (read_refresh_token_cookie r))

  unfoldable pub handle_logout : Handler (World S D O)
  handle_logout = only web "POST" (λ r.
      attend
        (LogoutService.logout p h.auth_service (or_blank (read_refresh_token_cookie r))
          (request_metadata h.config r))
        (respond web
          (λ response a.
            write_json web 200 (logout_body response) (clear_refresh_token_cookie p web h.config a))
          (λ e. write_error web r 500 "logout_failed" "failed to logout")))

  unfoldable pub handle_logout_all : Handler (World S D O)
  handle_logout_all = only web "POST" (λ r.
      with_identity web r
        (λ identity.
          attend
            (LogoutService.logout_all p h.auth_service identity.user_id
              (request_metadata h.config r))
            (respond web
              (λ response a.
                write_json web 200 (logout_body response)
                  (clear_refresh_token_cookie p web h.config a))
              (λ e. write_error web r 500 "logout_all_failed" "failed to logout from all devices")))
        (get_auth_identity r))

  unfoldable pub handle_sessions : Handler (World S D O)
  handle_sessions = only web "GET" (λ r.
      with_identity web r
        (λ identity. attend (LogoutService.list_sessions p h.auth_service identity.user_id) (
          respond web (λ response. write_json web 200 (sessions_body response))
            (λ e. write_error web r 500 "list_sessions_failed" "failed to list sessions")))
        (get_auth_identity r))

  -- handleSessionByID, with the identity.
  unfoldable pub revoke_session_of :
      Request → String → String → Reply (World S D O) → Reply (World S D O)
  revoke_session_of r user_id session_id =
      if session_id == ""
      then write_error web r 400 "session_id_required" "session id is required"
      else attend (LogoutService.revoke_session p h.auth_service user_id session_id) (
          respond web (λ response. write_json web 200 (session_delete_body response))
            (λ e.
              write_error web r (revoke_session_status e) "revoke_session_failed" (error_text e)))

  unfoldable pub handle_session_by_id : Handler (World S D O)
  handle_session_by_id = only web "DELETE" (λ r.
      with_identity web r
        (λ identity.
          revoke_session_of r identity.user_id (trim_space (trim_prefix r.path "/auth/sessions/")))
        (get_auth_identity r))
