-- ===== src/Service/Auth/Spending.antt =====
-- The methods of the authentication service, as calls that leave a spent token spent.
use auth_login_load_balancin.Prelude.{ℕ, String, ◌≢◌, List, Option}
use auth_login_load_balancin.Prelude.Exec.{Exec, ◌>>◌, raise}
use auth_login_load_balancin.Prelude.Exec.Keeps.{
  IsPreorder, Keeps, Keeps-pure, Keeps-raise, Keeps-lift, Keeps-bind, Keeps-catch, Keeps-if,
}
use auth_login_load_balancin.Errors.{Error}
use auth_login_load_balancin.Model.{User as Account, RequestMetadata}
use auth_login_load_balancin.Platform.{Platform, World, on_os, total_os}
use auth_login_load_balancin.Platform.Laws.{Views, Laws}
use auth_login_load_balancin.Repository.Clock.{current_time}
use auth_login_load_balancin.Repository.RefreshToken as RefreshTokenRepository
use auth_login_load_balancin.Repository.User
use auth_login_load_balancin.Repository.Session
use auth_login_load_balancin.Service.Auth.{
  AuthConfig, log_auth_event, login_failure, login_user, open_session, login, register_user,
  register,
}
use auth_login_load_balancin.Service.Spent.{
  IsSpent, NeverAgain, Spends, Spends-preorder, on_db-Spends, new_uuid-Spends, generate-Spends,
}
use auth_login_load_balancin.Service.Spent.Kept.{current_time-Spends, find_by_token-Spends}
use auth_login_load_balancin.Service.Spent.Issued.{
  find_user_by_email-Spends, log_auth_event-Spends, generate_access_token-Spends,
  generate_and_create-Spends,
}

module _ {S D O : Type 0} (p : Platform S D O) (v : Views S D O) (l : Laws p v) (k : String)
    (gone : O → Type 0) (never : NeverAgain p v k gone) (c : AuthConfig) where
  -- The token is spent, and cannot be given again.
  abbrev pub Holds : World S D O → Type 0
  Holds w = gone w.os × IsSpent p v k w

  abbrev pub Retains : World S D O → World S D O → Type 0
  Retains w t = Holds w → Holds t

  pub Retains-preorder : IsPreorder Retains
  Retains-preorder = record { refl = λ w h. h; trans = λ w t u a b h. b (a h) }

  pub Retains-of_Spends :
      {A : Type 0} (m : Exec (World S D O) A) → Keeps (Spends p v k gone) m → Keeps Retains m
  Retains-of_Spends m kept = record { at = λ w h. ((kept.at w).machine h.0, (kept.at w).token h.1) }

  pub used_ne : ◌≢◌ {A = String} "USED" "ACTIVE"
  used_ne e = cc e

  pub revoked_ne : ◌≢◌ {A = String} "REVOKED" "ACTIVE"
  revoked_ne e = cc e

  ruleset spent_rules = (Keeps-pure, Keeps-raise, Keeps-lift, Keeps-bind, Keeps-catch, Keeps-if)

  pub Spends-order : IsPreorder (Spends p v k gone)
  Spends-order = Spends-preorder p v l k gone never

  pub log-Spends :
      (user_id : Option String) (event : String) (m : RequestMetadata)
      (extra : List (String × String))
      → Keeps (Spends p v k gone) (log_auth_event p c user_id event m extra)
  log-Spends = log_auth_event-Spends p v l k gone never c

  -- A refusal that is logged.
  pub refused-Spends :
      {A : Type 0} (user_id : Option String) (event : String) (m : RequestMetadata)
      (extra : List (String × String)) (e : Error)
      → Keeps (Spends p v k gone) (log_auth_event p c user_id event m extra >> raise {A = A} e)
  refused-Spends user_id event m extra e =
      Keeps-bind Spends-order _ _ (log-Spends user_id event m extra)
        (λ _. Keeps-raise Spends-order e)

  pub time-Spends : Keeps (Spends p v k gone) (current_time p)
  time-Spends = current_time-Spends p v l k gone never

  pub id-Spends : Keeps (Spends p v k gone) (total_os {S = S} {D = D} p.os.new_uuid)
  id-Spends = new_uuid-Spends p v l k gone never

  pub find-Spends :
      (value : String) → Keeps (Spends p v k gone) (RefreshTokenRepository.find_by_token p value)
  find-Spends = find_by_token-Spends p v l k gone never

  pub touch-Spends :
      (id : String) (now : ℕ) → Keeps (Spends p v k gone) (Session.update_last_used_at p id now)
  unfolding Session.update_last_used_at
  touch-Spends id now = on_db-Spends p v l k gone never _

  pub restate-Spends :
      (id status : String) → Keeps (Spends p v k gone) (Session.update_status p id status)
  unfolding Session.update_status
  restate-Spends id status = on_db-Spends p v l k gone never _

  pub end_all-Spends :
      (user : String) → Keeps (Spends p v k gone) (Session.revoke_all_by_user_id p user)
  unfolding Session.revoke_all_by_user_id
  end_all-Spends user = on_db-Spends p v l k gone never _

  failed-Spends :
      (m : RequestMetadata) (user_id : Option String) (email : String) (e : Error)
      → Keeps (Spends p v k gone) (login_failure p c m user_id email e)
  failed-Spends m user_id email e = refused-Spends _ _ _ _ _

  login_user-Spends :
      (email password : String) (m : RequestMetadata)
      → Keeps (Spends p v k gone) (login_user p c email password m)
  unfolding login_user
  login_user-Spends email password m =
      Keeps-bind Spends-order _ _
        (Keeps-catch Spends-order _ _ (find_user_by_email-Spends p v l k gone never email)
          (λ e. Keeps-if _ _ _ (refused-Spends _ _ _ _ _) (Keeps-raise Spends-order e)))
        (λ user.
          Keeps-catch Spends-order _ _
            (Keeps-bind Spends-order _ _ (Keeps-lift Spends-order _)
              (λ _. Keeps-pure Spends-order user))
            (λ e. refused-Spends _ _ _ _ _))

  open_session-Retains :
      (user : Account) (m : RequestMetadata) → Keeps Retains (open_session p c user m)
  unfolding open_session Session.create
  open_session-Retains user m =
      Keeps-bind Retains-preorder _ _ (Retains-of_Spends _ time-Spends) (λ now.
        Keeps-bind Retains-preorder _ _ (Retains-of_Spends _ id-Spends) (λ id.
          Keeps-bind Retains-preorder _ _ (Retains-of_Spends _ (on_db-Spends p v l k gone never _))
            (λ _.
              Keeps-bind Retains-preorder _ _
                (Retains-of_Spends _ (generate_access_token-Spends p v l k gone never c.tokens _ _))
                (λ access. record {
                  at = λ w h.
                      generate_and_create-Spends p v l k gone never c.tokens user.id id _
                        (λ fresh.
                          Keeps-bind Spends-order _ _ (log-Spends _ _ _ _)
                            (λ _. Keeps-pure Spends-order _))
                        w h.0 h.1;
                }))))

  pub login-Retains :
      (email password : String) (m : RequestMetadata) → Keeps Retains (login p c email password m)
  unfolding login
  login-Retains email password m = Keeps-if _ _ _ (Retains-of_Spends _ (refused-Spends _ _ _ _ _)) (
      Keeps-bind Retains-preorder _ _ (Retains-of_Spends _ (login_user-Spends _ _ m))
        (λ user. open_session-Retains user m))

  hash-Spends :
      (password : String)
      → Keeps (Spends p v k gone) (on_os {S = S} {D = D} (p.os.generate_from_password password))
  hash-Spends password = generate-Spends p v l k gone never password

  insert-Spends : (user : Account) → Keeps (Spends p v k gone) (User.create_user p user)
  unfolding User.create_user
  insert-Spends user =
      Keeps-catch Spends-order _ _ (on_db-Spends p v l k gone never _)
        (λ e. search (Spends-order, spent_rules))

  register_user-Spends :
      (email password : String) (m : RequestMetadata)
      → Keeps (Spends p v k gone) (register_user p c email password m)
  unfolding register_user
  register_user-Spends email password m =
      Keeps-bind Spends-order _ _ (hash-Spends password) (λ hash.
        Keeps-bind Spends-order _ _ time-Spends (λ now. Keeps-bind Spends-order _ _ id-Spends (λ id.
          Keeps-bind Spends-order _ _
            (Keeps-catch Spends-order _ _ (insert-Spends _)
              (λ e. Keeps-if _ _ _ (refused-Spends _ _ _ _ _) (Keeps-raise Spends-order e)))
            (λ created.
              Keeps-bind Spends-order _ _ (log-Spends _ _ _ _) (λ _. Keeps-pure Spends-order _)))))

  pub register-Spends :
      (email password : String) (m : RequestMetadata)
      → Keeps (Spends p v k gone) (register p c email password m)
  unfolding register
  register-Spends email password m =
      Keeps-if _ _ _ (refused-Spends _ _ _ _ _) (register_user-Spends _ _ m)
