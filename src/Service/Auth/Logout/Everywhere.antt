-- ===== src/Service/Auth/Logout/Everywhere.antt =====
-- LogoutAll: after it, no token of the user can be refreshed and no session of the user is ACTIVE.
use auth_login_load_balancin.Prelude.{String, ◌≡◌, ◌≢◌, ==-eq-false_of_ne}
use auth_login_load_balancin.Prelude.Exec.{ok, ran, >>=-eq-ok, pure-eq-ok}
use auth_login_load_balancin.Prelude.Exec.Keeps.{Keeps-after}
use auth_login_load_balancin.Go.Strings.{trim_space}
use auth_login_load_balancin.Model.{RequestMetadata, LogoutResponse}
use auth_login_load_balancin.Platform.{Platform, World}
use auth_login_load_balancin.Platform.Laws.{Views, Laws}
use auth_login_load_balancin.Repository.RefreshToken.Index.{IsIndexed}
use auth_login_load_balancin.Service.Auth.{AuthConfig}
use auth_login_load_balancin.Service.Quiet.{log_auth_event-Quiet}
use auth_login_load_balancin.Service.Revoked.{LoggedOut, Quiet-LoggedOut, revoked_LoggedOut}
use auth_login_load_balancin.Service.Auth.Logout.{logout_all}

-- If every record is in the sets of its user and session, then a LogoutAll for a user id that is not blank, if it reports success, has logged the user out
-- everywhere: every token that had a record of the user is dead, and no session of the user is
-- ACTIVE.
pub logout_all-LoggedOut :
    {S D O : Type 0} (p : Platform S D O) (v : Views S D O) (l : Laws p v) (c : AuthConfig)
    (user_id : String) (m : RequestMetadata) (w : World S D O) {r : LogoutResponse}
    {t : World S D O}
    → IsIndexed p v w
    → trim_space user_id ≢ ""
    → logout_all p c user_id m w ≡ (ok r, t)
    → LoggedOut p v (trim_space user_id) w t
unfolding logout_all
logout_all-LoggedOut p v l c user_id m w indexed filled h =
    elim (>>=-eq-ok _ _ w (rw (==-eq-false_of_ne _ _ filled) at h)) [
      | ran _ t₁ revokes h₁ ↦ elim (>>=-eq-ok _ _ t₁ h₁) [
        | ran _ t₂ ends h₂ ↦ elim (>>=-eq-ok _ _ t₂ h₂) [
          | ran _ t₃ logs h₃ ↦
              let (_, same) = pure-eq-ok _ t₃ h₃ in
              rw (← same) (
                Quiet-LoggedOut p v (revoked_LoggedOut p v l _ w t₁ indexed revokes ends)
                  (Keeps-after (log_auth_event-Quiet p v l c _ _ m _) t₂ logs))
        ]
      ]
    ]
