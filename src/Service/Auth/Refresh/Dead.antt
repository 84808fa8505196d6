-- ===== src/Service/Auth/Refresh/Dead.antt =====
-- A token that is dead buys nothing.
use auth_login_load_balancin.Prelude.{String, ◌≡◌, ◌≢◌, some, inl, inr, false, arith}
use auth_login_load_balancin.Prelude.Exec.{ok}
use auth_login_load_balancin.Model.{RequestMetadata, RefreshTokenResponse, LogoutResponse}
use auth_login_load_balancin.Go.Strings.{trim_space}
use auth_login_load_balancin.Platform.{Platform, World, RefreshTokenRecord}
use auth_login_load_balancin.Platform.Laws.{Views, Laws}
use auth_login_load_balancin.Repository.RefreshToken.{is_revocable}
use auth_login_load_balancin.Repository.RefreshToken.View.{record_at}
use auth_login_load_balancin.Repository.RefreshToken.Index.{IsIndexed}
use auth_login_load_balancin.Repository.RefreshToken.Revocation.{IsDead}
use auth_login_load_balancin.Service.Auth.{AuthConfig}
use auth_login_load_balancin.Service.Auth.Logout.{logout_all}
use auth_login_load_balancin.Service.Auth.Logout.Everywhere.{logout_all-LoggedOut}
use auth_login_load_balancin.Service.Auth.Refresh.{refresh_access_token}
use auth_login_load_balancin.Service.Auth.Refresh.Rotation.{refresh_access_token-Rotated}

module _ {S D O : Type 0} (p : Platform S D O) (v : Views S D O) (l : Laws p v)
    (c : AuthConfig) where
  active-ne-dead : {status : String} → status ≡ "ACTIVE" → is_revocable status ≡ false → ⊥
  active-ne-dead active dead = cc (rw active at dead)

  -- No RefreshAccessToken succeeds with a token that is dead: one with no record, a record that is
  -- neither ACTIVE nor USED, or a record that has expired.
  pub refresh_access_token-IsDead :
      (value : String) (m : RequestMetadata) (w t : World S D O) (r : RefreshTokenResponse)
      → IsDead p v w (trim_space value)
      → ¬ (refresh_access_token p c value m w ≡ (ok r, t))
  refresh_access_token-IsDead value m w t r dead h =
      let e = refresh_access_token-Rotated p v l c value m w h in
      elim (dead e.old e.found) [
        | inl spent ↦ active-ne-dead e.was_active spent
        | inr expired ↦ let live = e.was_live in absurd (omega (arith, live, expired))
      ]

  -- If every record is in the sets of its user and session, then after a LogoutAll for a user id that
  -- is not blank, if it reports success, no RefreshAccessToken succeeds with a token that had a record
  -- of the user before.
  pub logout_all-refresh_access_token :
      (user_id value : String) (m n : RequestMetadata) (w t u : World S D O)
      (found : RefreshTokenRecord) (out : LogoutResponse) (r : RefreshTokenResponse)
      → IsIndexed p v w
      → trim_space user_id ≢ ""
      → record_at p v w (trim_space value) ≡ some found
      → found.user_id ≡ trim_space user_id
      → logout_all p c user_id m w ≡ (ok out, t)
      → ¬ (refresh_access_token p c value n t ≡ (ok r, u))
  logout_all-refresh_access_token user_id value m n w t u found out r indexed filled at mine leaves
        h =
      let outside = logout_all-LoggedOut p v l c user_id m w indexed filled leaves in
      refresh_access_token-IsDead value n t u r (outside.tokens (trim_space value) found at mine) h
