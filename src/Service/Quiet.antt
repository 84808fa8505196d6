-- ===== src/Service/Quiet.antt =====
-- Audit entries, new tokens and look-ups leave the cache, the users and the sessions alone.
use auth_login_load_balancin.Prelude.{ℕ, String, Option, List, arith, [], ◌∷◌}
use auth_login_load_balancin.Prelude.Exec.Keeps.{
  Keeps, Keeps-pure, Keeps-raise, Keeps-lift, Keeps-bind, Keeps-catch, Keeps-if,
}
use auth_login_load_balancin.Model.{User, Session, RequestMetadata, AuditLog as Entry}
use auth_login_load_balancin.Platform.{Platform, total_os, on_os}
use auth_login_load_balancin.Platform.Laws.{Views, Laws}
use auth_login_load_balancin.Platform.Quiet.{
  Quiet, Quiet-preorder, Quiet-on_os, Quiet-total_os, Quiet-on_db,
}
use auth_login_load_balancin.Repository.Clock.{current_time, time_until}
use auth_login_load_balancin.Repository.AuditLog
use auth_login_load_balancin.Repository.User
use auth_login_load_balancin.Repository.Session
use auth_login_load_balancin.Service.Audit
use auth_login_load_balancin.Service.Token
use auth_login_load_balancin.Service.Token.{TokenConfig}
use auth_login_load_balancin.Service.Auth.{AuthConfig, log_auth_event}

module _ {S D O : Type 0} (p : Platform S D O) (v : Views S D O) (l : Laws p v) where
  pub current_time-Quiet : Keeps (Quiet v) (current_time p)
  unfolding current_time
  current_time-Quiet =
      Quiet-total_os v p.os.now (λ o. omega (arith, l.os.now_after o, l.os.now_before o))

  pub time_until-Quiet : (t : ℕ) → Keeps (Quiet v) (time_until p t)
  unfolding time_until
  time_until-Quiet t =
      Keeps-bind (Quiet-preorder v) _ _ current_time-Quiet (λ now. Keeps-pure (Quiet-preorder v) _)

  pub new_uuid-Quiet : Keeps (Quiet v) (total_os {S = S} {D = D} p.os.new_uuid)
  new_uuid-Quiet = Quiet-total_os v p.os.new_uuid l.os.new_uuid_time

  pub rand_read-Quiet : (n : ℕ) → Keeps (Quiet v) (on_os {S = S} {D = D} (p.os.rand_read n))
  rand_read-Quiet n = Quiet-on_os v (p.os.rand_read n) (l.os.rand_read_time n)

  pub create_audit_log-Quiet : (a : Entry) → Keeps (Quiet v) (AuditLog.create p a)
  unfolding AuditLog.create
  create_audit_log-Quiet a =
      Quiet-on_db v _ (l.postgres.insert_audit_log_users a) (l.postgres.insert_audit_log_sessions a)

  ruleset quiet_rules = (
    Keeps-pure, Keeps-raise, Keeps-lift, Keeps-bind, Keeps-catch, Keeps-if, current_time-Quiet,
    time_until-Quiet, new_uuid-Quiet, rand_read-Quiet, create_audit_log-Quiet,
  )

  pub audit-Quiet :
      (user_id : Option String) (event : String) (m : RequestMetadata)
      (extra : List (String × String))
      → Keeps (Quiet v) (Audit.log_auth_event p user_id event m extra)
  unfolding Audit.log_auth_event
  audit-Quiet user_id event m extra = search (Quiet-preorder v, quiet_rules)

  pub log_auth_event-Quiet :
      (c : AuthConfig) (user_id : Option String) (event : String) (m : RequestMetadata)
      (extra : List (String × String))
      → Keeps (Quiet v) (log_auth_event p c user_id event m extra)
  unfolding log_auth_event
  log_auth_event-Quiet c user_id event m extra = search (Quiet-preorder v, quiet_rules, audit-Quiet)

  pub generate_access_token-Quiet :
      (c : TokenConfig) (user_id email : String)
      → Keeps (Quiet v) (Token.generate_access_token p c user_id email)
  unfolding Token.generate_access_token
  generate_access_token-Quiet c user_id email = search (Quiet-preorder v, quiet_rules)

  pub generate_refresh_token-Quiet :
      (c : TokenConfig) (user_id : String)
      → Keeps (Quiet v) (Token.generate_refresh_token p c user_id)
  unfolding Token.generate_refresh_token
  generate_refresh_token-Quiet c user_id = search (Quiet-preorder v, quiet_rules)

  first_user-Quiet : (us : List User) → Keeps (Quiet v) (User.first_user p us)
  first_user-Quiet [] = Keeps-raise (Quiet-preorder v) _
  first_user-Quiet (u ∷ us) = Keeps-pure (Quiet-preorder v) u

  pub find_user_by_id-Quiet : (id : String) → Keeps (Quiet v) (User.find_by_id p id)
  unfolding User.find_by_id
  find_user_by_id-Quiet id =
      Keeps-bind (Quiet-preorder v) _ _
        (Quiet-on_db v _ (λ d. (l.postgres.select_users_reads _ d).users)
          (λ d. (l.postgres.select_users_reads _ d).sessions))
        first_user-Quiet

  pub find_user_by_email-Quiet : (email : String) → Keeps (Quiet v) (User.find_by_email p email)
  unfolding User.find_by_email
  find_user_by_email-Quiet email =
      Keeps-bind (Quiet-preorder v) _ _
        (Quiet-on_db v _ (λ d. (l.postgres.select_users_reads _ d).users)
          (λ d. (l.postgres.select_users_reads _ d).sessions))
        first_user-Quiet

  first_session-Quiet : (ss : List Session) → Keeps (Quiet v) (Session.first_session p ss)
  first_session-Quiet [] = Keeps-raise (Quiet-preorder v) _
  first_session-Quiet (s ∷ ss) = Keeps-pure (Quiet-preorder v) s

  pub find_session_by_id-Quiet : (id : String) → Keeps (Quiet v) (Session.find_by_id p id)
  unfolding Session.find_by_id
  find_session_by_id-Quiet id =
      Keeps-bind (Quiet-preorder v) _ _ (Keeps-lift (Quiet-preorder v) _) (λ canonical.
        Keeps-bind (Quiet-preorder v) _ _
          (Quiet-on_db v _ (λ d. (l.postgres.select_sessions_reads _ d).users)
            (λ d. (l.postgres.select_sessions_reads _ d).sessions))
          first_session-Quiet)
