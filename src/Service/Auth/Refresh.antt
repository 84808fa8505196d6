-- ===== src/Service/Auth/Refresh.antt =====
-- RefreshAccessToken of internal/service/auth_service.go: rotation of refresh tokens, and the
-- detection of a token that is used twice.
pub mod Spending
pub mod Issue
pub mod Lookup
pub mod Reuse
pub mod Rotation
pub mod Dead
use auth_login_load_balancin.Prelude.{
  String, Bool, true, ◌==◌, [], ◌∷◌, none, some, if◌then◌else◌, ltb,
}
use auth_login_load_balancin.Prelude.Exec.{Exec, pure, raise, catch, ◌>>=◌, ◌>>◌}
use auth_login_load_balancin.Errors.{
  Error, invalid_refresh_token, refresh_token_reuse_detected, error_text, is_no_rows,
  is_refresh_token_not_found,
}
use auth_login_load_balancin.Go.Strings.{trim_space}
use auth_login_load_balancin.Model.{
  RefreshToken, RequestMetadata, RefreshTokenResponse, User as Account,
}
use auth_login_load_balancin.Prelude.Int.{ℤ}
use auth_login_load_balancin.Platform.{Platform, World}
use auth_login_load_balancin.Repository.Clock.{current_time}
use auth_login_load_balancin.Repository.User
use auth_login_load_balancin.Repository.Session
use auth_login_load_balancin.Repository.RefreshToken as RefreshTokenRepository
use auth_login_load_balancin.Service.Token
use auth_login_load_balancin.Service.Auth.{AuthConfig, log_auth_event}

module _ {S D O : Type 0} (p : Platform S D O) (c : AuthConfig) where
  -- The handler of FindByToken.
  abbrev pub unknown_token : RequestMetadata → Error → Exec (World S D O) RefreshToken
  unknown_token metadata e =
      if is_refresh_token_not_found e
      then (do
        log_auth_event p c none "refresh_failure" metadata
            (("reason", error_text invalid_refresh_token) ∷ [])
        raise invalid_refresh_token)
      else raise e

  -- The token has been used before: everything of its user is revoked.
  unfoldable pub reuse : RefreshToken → RequestMetadata → Exec (World S D O) RefreshTokenResponse
  reuse token metadata = do
    RefreshTokenRepository.revoke_all_by_user p token.user_id
    Session.revoke_all_by_user_id p token.user_id
    log_auth_event p c (some token.user_id) "token_reuse_detected" metadata
        (("session_id", token.session_id) ∷ [])
    raise refresh_token_reuse_detected

  -- refreshToken.Status != "ACTIVE" || time.Now().UTC().After(refreshToken.ExpiresAt)
  unfoldable pub is_spent : RefreshToken → Exec (World S D O) Bool
  is_spent token =
      if token.status == "ACTIVE"
      then (do now ← current_time p; pure (ltb token.expires_at now))
      else pure true

  -- The new token, which takes the place of `token` in its session.
  unfoldable pub issue :
      RefreshToken
      → Account
      → String × ℤ
      → RequestMetadata
      → Exec (World S D O) RefreshTokenResponse
  issue token user access metadata = do
    fresh ← Token.generate_refresh_token p c.tokens user.id
    RefreshTokenRepository.create p (record fresh { session_id = token.session_id })
    now ← current_time p
    Session.update_last_used_at p token.session_id now
    log_auth_event p c (some user.id) "refresh_success" metadata
        (("session_id", token.session_id) ∷ [])
    pure (record {
      message = "tokens refreshed successfully";
      access_token = access.0;
      refresh_token = fresh.token;
      token_type = "Bearer";
      expires_in = access.1;
    })

  -- From the check of the token on: the old token becomes USED, a new one is issued.
  unfoldable pub rotate : RefreshToken → RequestMetadata → Exec (World S D O) RefreshTokenResponse
  rotate token metadata = do
    user ←
        catch (User.find_by_id p token.user_id)
          (λ e. if is_no_rows e then raise invalid_refresh_token else raise e)
    access ← Token.generate_access_token p c.tokens user.id user.email
    catch (RefreshTokenRepository.update_status p token.token "USED")
        (λ e. if is_refresh_token_not_found e then raise invalid_refresh_token else raise e)
    issue token user access metadata

  unfoldable pub refresh_found :
      RefreshToken → RequestMetadata → Exec (World S D O) RefreshTokenResponse
  refresh_found token metadata = if token.status == "USED" then reuse token metadata else (do
    spent ← is_spent token
    if spent
        then (do
          log_auth_event p c (some token.user_id) "refresh_failure" metadata
              (("session_id", token.session_id) ∷ ("reason", error_text invalid_refresh_token) ∷ [])
          raise invalid_refresh_token)
        else rotate token metadata)

  unfoldable pub refresh_access_token :
      String → RequestMetadata → Exec (World S D O) RefreshTokenResponse
  refresh_access_token value metadata =
      let value = trim_space value in
      if value == ""
      then (do
        log_auth_event p c none "refresh_failure" metadata
            (("reason", error_text invalid_refresh_token) ∷ [])
        raise invalid_refresh_token)
      else (do
        token ← catch (RefreshTokenRepository.find_by_token p value) (unknown_token metadata)
        refresh_found token metadata)
