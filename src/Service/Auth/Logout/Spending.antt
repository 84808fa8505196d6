-- ===== src/Service/Auth/Logout/Spending.antt =====
-- Logout, LogoutAll, ListSessions and RevokeSession, as calls that leave a spent token spent.
use auth_login_load_balancin.Prelude.{String, List, Option}
use auth_login_load_balancin.Prelude.Exec.{◌>>◌, pure}
use auth_login_load_balancin.Prelude.Exec.Keeps.{
  IsPreorder, Keeps, Keeps-pure, Keeps-raise, Keeps-lift, Keeps-bind, Keeps-catch, Keeps-if,
}
use auth_login_load_balancin.Model.{RequestMetadata}
use auth_login_load_balancin.Platform.{Platform}
use auth_login_load_balancin.Platform.Laws.{Views, Laws}
use auth_login_load_balancin.Repository.RefreshToken as RefreshTokenRepository
use auth_login_load_balancin.Repository.Session
use auth_login_load_balancin.Service.Auth.{AuthConfig, log_auth_event}
use auth_login_load_balancin.Service.Auth.Logout.{
  find_or_zero, revoke_if_found, logout, logout_all, list_sessions, revoke_session,
}
use auth_login_load_balancin.Service.Spent.{NeverAgain, Spends, on_db-Spends}
use auth_login_load_balancin.Service.Spent.Kept.{
  update_status-Spends, revoke_all_by_user-Spends, revoke_all_by_session-Spends,
}
use auth_login_load_balancin.Service.Spent.Issued.{find_session_by_id-Spends}
use auth_login_load_balancin.Service.Auth.Spending.{
  revoked_ne, Spends-order, log-Spends, find-Spends, restate-Spends, end_all-Spends,
}

module _ {S D O : Type 0} (p : Platform S D O) (v : Views S D O) (l : Laws p v) (k : String)
    (gone : O → Type 0) (never : NeverAgain p v k gone) (c : AuthConfig) where
  order : IsPreorder (Spends p v k gone)
  order = Spends-order p v l k gone never c

  ruleset spent_rules = (Keeps-pure, Keeps-raise, Keeps-lift, Keeps-bind, Keeps-catch, Keeps-if)

  find_or_zero-Spends : (value : String) → Keeps (Spends p v k gone) (find_or_zero p c value)
  unfolding find_or_zero
  find_or_zero-Spends value =
      Keeps-catch order _ _ ((find-Spends p v l k gone never c) value)
        (λ e. Keeps-if _ _ _ (Keeps-pure order _) (Keeps-raise order e))

  revoke_if_found-Spends : (value : String) → Keeps (Spends p v k gone) (revoke_if_found p c value)
  unfolding revoke_if_found RefreshTokenRepository.revoke_by_token
  revoke_if_found-Spends value =
      Keeps-catch order _ _
        (update_status-Spends p v l k gone never value "REVOKED" (revoked_ne p v l k gone never c))
        (λ e. Keeps-if _ _ _ (Keeps-pure order _) (Keeps-raise order e))

  -- An answer that is logged.
  answered-Spends :
      {A : Type 0} (user_id : Option String) (event : String) (m : RequestMetadata)
      (extra : List (String × String)) (a : A)
      → Keeps (Spends p v k gone) (log_auth_event p c user_id event m extra >> pure a)
  answered-Spends user_id event m extra a =
      Keeps-bind order _ _ ((log-Spends p v l k gone never c) user_id event m extra)
        (λ _. Keeps-pure order a)

  pub logout-Spends :
      (value : String) (m : RequestMetadata) → Keeps (Spends p v k gone) (logout p c value m)
  unfolding logout
  logout-Spends value m = Keeps-if _ _ _ (answered-Spends _ _ _ _ _) (
      Keeps-bind order _ _ (find_or_zero-Spends _) (λ token.
        Keeps-bind order _ _ (revoke_if_found-Spends _) (λ _.
          Keeps-bind order _ _
            (Keeps-if _ _ _ (Keeps-pure order tt) ((restate-Spends p v l k gone never c) _ _))
            (λ _. answered-Spends _ _ _ _ _))))

  pub logout_all-Spends :
      (user_id : String) (m : RequestMetadata)
      → Keeps (Spends p v k gone) (logout_all p c user_id m)
  unfolding logout_all
  logout_all-Spends user_id m = Keeps-if _ _ _ (answered-Spends _ _ _ _ _) (
      Keeps-bind order _ _ (revoke_all_by_user-Spends p v l k gone never _) (λ _.
        Keeps-bind order _ _ ((end_all-Spends p v l k gone never c) _)
          (λ _. answered-Spends _ _ _ _ _)))

  pub list_sessions-Spends :
      (user_id : String) → Keeps (Spends p v k gone) (list_sessions p c user_id)
  unfolding list_sessions Session.list_by_user_id
  list_sessions-Spends user_id =
      Keeps-bind order _ _ (on_db-Spends p v l k gone never _) (λ sessions. Keeps-pure order _)

  pub revoke_session-Spends :
      (user_id session_id : String)
      → Keeps (Spends p v k gone) (revoke_session p c user_id session_id)
  unfolding revoke_session
  revoke_session-Spends user_id session_id =
      Keeps-bind order _ _ (find_session_by_id-Spends p v l k gone never _) (λ session.
        Keeps-if _ _ _
          (Keeps-bind order _ _ (revoke_all_by_session-Spends p v l k gone never _) (λ _.
            Keeps-bind order _ _ ((restate-Spends p v l k gone never c) _ _)
              (λ _. Keeps-pure order _)))
          (Keeps-raise order _))
