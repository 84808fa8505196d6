-- ===== src/Service/Auth/Refresh/Spending.antt =====
-- RefreshAccessToken, as a call that leaves a spent token spent.
use auth_login_load_balancin.Prelude.{String}
use auth_login_load_balancin.Prelude.Exec.{Exec, catch}
use auth_login_load_balancin.Prelude.Exec.Keeps.{
  IsPreorder, Keeps, Keeps-pure, Keeps-raise, Keeps-lift, Keeps-bind, Keeps-catch, Keeps-if,
}
use auth_login_load_balancin.Go.Strings.{trim_space}
use auth_login_load_balancin.Model.{User as Account, RefreshToken, RequestMetadata}
use auth_login_load_balancin.Platform.{Platform, World}
use auth_login_load_balancin.Platform.Laws.{Views, Laws}
use auth_login_load_balancin.Prelude.Int.{ℤ}
use auth_login_load_balancin.Repository.Clock.{current_time}
use auth_login_load_balancin.Repository.RefreshToken as RefreshTokenRepository
use auth_login_load_balancin.Service.Auth.{AuthConfig}
use auth_login_load_balancin.Service.Auth.Refresh.{
  unknown_token, reuse, is_spent, issue, rotate, refresh_found, refresh_access_token,
}
use auth_login_load_balancin.Service.Spent.{NeverAgain, Spends}
use auth_login_load_balancin.Service.Spent.Kept.{update_status-Spends, revoke_all_by_user-Spends}
use auth_login_load_balancin.Service.Spent.Issued.{
  find_user_by_id-Spends, generate_access_token-Spends, generate_and_create-Spends,
}
use auth_login_load_balancin.Service.Auth.Spending.{
  Retains, Retains-preorder, Retains-of_Spends, used_ne, Spends-order, log-Spends, refused-Spends,
  time-Spends, find-Spends, touch-Spends, end_all-Spends,
}

module _ {S D O : Type 0} (p : Platform S D O) (v : Views S D O) (l : Laws p v) (k : String)
    (gone : O → Type 0) (never : NeverAgain p v k gone) (c : AuthConfig) where
  order : IsPreorder (Spends p v k gone)
  order = Spends-order p v l k gone never c

  whole : IsPreorder (Retains p v l k gone never c)
  whole = Retains-preorder p v l k gone never c

  retained :
      {A : Type 0} (m : Exec (World S D O) A)
      → Keeps (Spends p v k gone) m
      → Keeps (Retains p v l k gone never c) m
  retained = Retains-of_Spends p v l k gone never c

  timed : Keeps (Spends p v k gone) (current_time p)
  timed = time-Spends p v l k gone never c

  ruleset spent_rules = (Keeps-pure, Keeps-raise, Keeps-lift, Keeps-bind, Keeps-catch, Keeps-if)

  issue-Retains :
      (token : RefreshToken) (user : Account) (access : String × ℤ) (m : RequestMetadata)
      → Keeps (Retains p v l k gone never c) (issue p c token user access m)
  unfolding issue
  issue-Retains token user access m = record {
    at = λ w h.
        generate_and_create-Spends p v l k gone never c.tokens user.id token.session_id _
          (λ fresh. search (
            order,
            spent_rules,
            timed,
            (touch-Spends p v l k gone never c),
            (log-Spends p v l k gone never c),
          ))
          w h.0 h.1;
  }

  rotate-Retains :
      (token : RefreshToken) (m : RequestMetadata)
      → Keeps (Retains p v l k gone never c) (rotate p c token m)
  unfolding rotate
  rotate-Retains token m =
      Keeps-bind whole _ _
        (retained _ (
          Keeps-catch order _ _ (find_user_by_id-Spends p v l k gone never _)
            (λ e. search (order, spent_rules))))
        (λ user.
          Keeps-bind whole _ _
            (retained _ (generate_access_token-Spends p v l k gone never c.tokens _ _))
            (λ access.
              Keeps-bind whole _ _
                (retained _ (
                  Keeps-catch order _ _
                    (update_status-Spends p v l k gone never _ "USED"
                      (used_ne p v l k gone never c))
                    (λ e. search (order, spent_rules))))
                (λ _. issue-Retains token user access m)))

  reuse-Spends :
      (token : RefreshToken) (m : RequestMetadata) → Keeps (Spends p v k gone) (reuse p c token m)
  unfolding reuse
  reuse-Spends token m = search (
    order,
    spent_rules,
    revoke_all_by_user-Spends p v l k gone never,
    (end_all-Spends p v l k gone never c),
    (log-Spends p v l k gone never c),
  )

  is_spent-Spends : (token : RefreshToken) → Keeps (Spends p v k gone) (is_spent p c token)
  unfolding is_spent
  is_spent-Spends token = search (order, spent_rules, timed)

  refresh_found-Retains :
      (token : RefreshToken) (m : RequestMetadata)
      → Keeps (Retains p v l k gone never c) (refresh_found p c token m)
  unfolding refresh_found
  refresh_found-Retains token m = Keeps-if _ _ _ (retained _ (reuse-Spends token m)) (
      Keeps-bind whole _ _ (retained _ (is_spent-Spends token)) (λ spent.
        Keeps-if _ _ _ (retained _ ((refused-Spends p v l k gone never c) _ _ _ _ _))
          (rotate-Retains token m)))

  lookup-Spends :
      (value : String) (m : RequestMetadata)
      → Keeps
          (Spends p v k gone)
          (catch (RefreshTokenRepository.find_by_token p value) (unknown_token p c m))
  lookup-Spends value m =
      Keeps-catch order _ _ ((find-Spends p v l k gone never c) value) (λ e.
        Keeps-if _ _ _ ((refused-Spends p v l k gone never c) _ _ _ _ _) (Keeps-raise order e))

  pub refresh_access_token-Retains :
      (value : String) (m : RequestMetadata)
      → Keeps (Retains p v l k gone never c) (refresh_access_token p c value m)
  unfolding refresh_access_token
  refresh_access_token-Retains value m =
      Keeps-if _ _ _ (retained _ ((refused-Spends p v l k gone never c) _ _ _ _ _)) (
        Keeps-bind whole _ _ (retained _ (lookup-Spends (trim_space value) m))
          (λ token. refresh_found-Retains token m))
