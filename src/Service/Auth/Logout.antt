-- ===== src/Service/Auth/Logout.antt =====
-- Logout, LogoutAll, ListSessions and RevokeSession of internal/service/auth_service.go.
pub mod Spending
pub mod Everywhere
pub mod OneSession
pub mod OneToken
use auth_login_load_balancin.Prelude.{String, ◌==◌, [], ◌∷◌, Option, none, some, if◌then◌else◌}
use auth_login_load_balancin.Prelude.Exec.{Exec, pure, raise, catch, ◌>>=◌, ◌>>◌}
use auth_login_load_balancin.Errors.{invalid_refresh_token, is_refresh_token_not_found}
use auth_login_load_balancin.Go.Strings.{trim_space}
use auth_login_load_balancin.Model.{
  RefreshToken, zero_refresh_token, RequestMetadata, LogoutResponse, SessionsResponse,
  SessionDeleteResponse,
}
use auth_login_load_balancin.Platform.{Platform, World}
use auth_login_load_balancin.Repository.Session
use auth_login_load_balancin.Repository.RefreshToken as RefreshTokenRepository
use auth_login_load_balancin.Service.Auth.{AuthConfig, log_auth_event}

abbrev pub logged_out : LogoutResponse
logged_out = record { message = "logout successful" }

abbrev pub logged_out_all : LogoutResponse
logged_out_all = record { message = "logout from all devices successful" }

-- nil, or a pointer to the user's id.
abbrev pub user_id_of : String → Option String
user_id_of user_id = if user_id == "" then none else some user_id

module _ {S D O : Type 0} (p : Platform S D O) (c : AuthConfig) where
  -- A token that is not found counts as the zero token.
  unfoldable pub find_or_zero : String → Exec (World S D O) RefreshToken
  find_or_zero value =
      catch (RefreshTokenRepository.find_by_token p value)
        (λ e. if is_refresh_token_not_found e then pure zero_refresh_token else raise e)

  unfoldable pub revoke_if_found : String → Exec (World S D O) (Unit {0})
  revoke_if_found value =
      catch (RefreshTokenRepository.revoke_by_token p value)
        (λ e. if is_refresh_token_not_found e then pure tt else raise e)

  unfoldable pub logout : String → RequestMetadata → Exec (World S D O) LogoutResponse
  logout value metadata =
      let value = trim_space value in
      if value == ""
      then (do
        log_auth_event p c none "logout" metadata
            (("message", "logout requested without refresh token") ∷ [])
        pure logged_out)
      else (do
        token ← find_or_zero value
        revoke_if_found value
        (if token.session_id == ""
            then pure tt
            else Session.update_status p token.session_id "REVOKED")
        log_auth_event p c (user_id_of token.user_id) "logout" metadata
            (("session_id", token.session_id) ∷ [])
        pure logged_out)

  unfoldable pub logout_all : String → RequestMetadata → Exec (World S D O) LogoutResponse
  logout_all user_id metadata =
      let user_id = trim_space user_id in
      if user_id == ""
      then (do
        log_auth_event p c none "logout_all" metadata
            (("message", "logout all requested without user id") ∷ [])
        pure logged_out_all)
      else (do
        RefreshTokenRepository.revoke_all_by_user p user_id
        Session.revoke_all_by_user_id p user_id
        log_auth_event p c (some user_id) "logout_all" metadata []
        pure logged_out_all)

  unfoldable pub list_sessions : String → Exec (World S D O) SessionsResponse
  list_sessions user_id = do
    sessions ← Session.list_by_user_id p (trim_space user_id)
    pure (record { sessions = sessions })

  unfoldable pub revoke_session :
      (user_id session_id : String) → Exec (World S D O) SessionDeleteResponse
  revoke_session user_id session_id = do
    session ← Session.find_by_id p (trim_space session_id)
    if session.user_id == trim_space user_id
        then (do
          RefreshTokenRepository.revoke_all_by_session p session.id
          Session.update_status p session.id "REVOKED"
          pure (record { message = "session revoked successfully" }))
        else raise invalid_refresh_token
