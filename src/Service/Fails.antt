-- ===== src/Service/Fails.antt =====
-- The errors of the token service and of the audit log: the former returns foreign errors alone,
-- the latter none.
use auth_login_load_balancin.Prelude.{String, Option, List}
use auth_login_load_balancin.Prelude.Exec.Fails.{
  FailsWith, FailsWith-pure, FailsWith-lift, FailsWith-if, FailsWith-catch, FailsWith-bind,
}
use auth_login_load_balancin.Errors.{IsRepositoryError, IsRepositoryError-of_IsForeign}
use auth_login_load_balancin.Model.{RequestMetadata}
use auth_login_load_balancin.Platform.{Platform}
use auth_login_load_balancin.Platform.Laws.{Views, Laws}
use auth_login_load_balancin.Platform.Reads.{on_os_eq}
use auth_login_load_balancin.Repository.Clock.{current_time}
use auth_login_load_balancin.Repository.Clock.Laws.{current_time-ne-err, time_until-ne-err}
use auth_login_load_balancin.Service.Audit
use auth_login_load_balancin.Service.Token
use auth_login_load_balancin.Service.Token.{TokenConfig}
use auth_login_load_balancin.Service.Auth.{AuthConfig, log_auth_event}

module _ {S D O : Type 0} (p : Platform S D O) where
  audit-Fails :
      (user_id : Option String) (event : String) (m : RequestMetadata)
      (extra : List (String × String))
      → FailsWith (λ _. ⊥) (Audit.log_auth_event p user_id event m extra)
  unfolding Audit.log_auth_event
  audit-Fails user_id event m extra =
      FailsWith-catch (λ _. Unit {0}) _ _ (record { at = λ s e t h. tt }) (λ e _. FailsWith-pure tt)

  -- The audit log of the authentication service returns no error, whatever fails below it.
  pub log_auth_event-Fails :
      (c : AuthConfig) (user_id : Option String) (event : String) (m : RequestMetadata)
      (extra : List (String × String))
      → FailsWith (λ _. ⊥) (log_auth_event p c user_id event m extra)
  unfolding log_auth_event
  log_auth_event-Fails c user_id event m extra =
      FailsWith-if c.audited _ _ (audit-Fails user_id event m extra) (FailsWith-pure tt)

  module _ (v : Views S D O) (l : Laws p v) where
    pub current_time-Fails : FailsWith IsRepositoryError (current_time p)
    current_time-Fails = record { at = λ w e u q. absurd (current_time-ne-err p v l w q) }

    pub generate_access_token-Fails :
        (c : TokenConfig) (user_id email : String)
        → FailsWith IsRepositoryError (Token.generate_access_token p c user_id email)
    unfolding Token.generate_access_token
    generate_access_token-Fails c user_id email = FailsWith-bind _ _ current_time-Fails (λ now.
        FailsWith-bind _ _
          (FailsWith-lift _
            (λ e q. IsRepositoryError-of_IsForeign e (l.json.signed_foreign _ _ e q)))
          (λ signed.
            FailsWith-bind _ _ (record { at = λ w e u q. absurd (time_until-ne-err p v l _ w q) })
              (λ left. FailsWith-pure _)))

    pub generate_refresh_token-Fails :
        (c : TokenConfig) (user_id : String)
        → FailsWith IsRepositoryError (Token.generate_refresh_token p c user_id)
    unfolding Token.generate_refresh_token
    generate_refresh_token-Fails c user_id =
        FailsWith-bind _ _
          (record {
            at = λ w e t q.
                IsRepositoryError-of_IsForeign e
                  ((l.os.rand_read_foreign 32).at _ e _ (on_os_eq _ q).0);
          })
          (λ bytes. FailsWith-bind _ _ current_time-Fails (λ now. FailsWith-pure _))
