-- ===== src/Service/Spent/Issued.antt =====
-- The methods of the other repositories, of the audit and of the token service, as calls that leave
-- a spent token spent; a token that they issue is another one.
use auth_login_load_balancin.Prelude.{ℕ, String, ◌≡◌, ◌≢◌, List, [], ◌∷◌, Option, ap, ◌∙◌}
use auth_login_load_balancin.Prelude.Exec.{
  ok, ran, >>=-eq-ok, >>=-then, pure-eq-ok, Exec, ◌>>=◌, ◌>>◌,
}
use auth_login_load_balancin.Prelude.Exec.Keeps.{
  Keeps, Keeps-pure, Keeps-raise, Keeps-lift, Keeps-bind, Keeps-catch, Keeps-if, Keeps-after,
}
use auth_login_load_balancin.Model.{
  User as Account, Session as Device, RefreshToken, RequestMetadata, AuditLog as Entry,
}
use auth_login_load_balancin.Platform.{Platform, World, on_os, total_os}
use auth_login_load_balancin.Platform.Laws.{Views, Laws}
use auth_login_load_balancin.Platform.Reads.{on_os_eq}
use auth_login_load_balancin.Repository.Clock.{current_time, time_until}
use auth_login_load_balancin.Repository.RefreshToken as RefreshTokenRepository
use auth_login_load_balancin.Repository.AuditLog
use auth_login_load_balancin.Repository.User
use auth_login_load_balancin.Repository.Session
use auth_login_load_balancin.Service.Audit
use auth_login_load_balancin.Service.Token
use auth_login_load_balancin.Service.Token.{TokenConfig}
use auth_login_load_balancin.Service.Auth.{AuthConfig, log_auth_event}
use auth_login_load_balancin.Service.Spent.{
  IsSpent, NeverAgain, Spends, Spends-preorder, on_db-Spends, new_uuid-Spends, rand_read-Spends,
}
use auth_login_load_balancin.Service.Spent.Kept.{
  current_time-Spends, time_until-Spends, create-Spends,
}

module _ {S D O : Type 0} (p : Platform S D O) (v : Views S D O) (l : Laws p v) (k : String)
    (gone : O → Type 0) (never : NeverAgain p v k gone) where
  ruleset issued_rules = (Keeps-pure, Keeps-raise, Keeps-lift, Keeps-bind, Keeps-catch, Keeps-if)

  first_user-Spends : (us : List Account) → Keeps (Spends p v k gone) (User.first_user p us)
  first_user-Spends [] = Keeps-raise (Spends-preorder p v l k gone never) _
  first_user-Spends (u ∷ us) = Keeps-pure (Spends-preorder p v l k gone never) u

  pub find_user_by_id-Spends : (id : String) → Keeps (Spends p v k gone) (User.find_by_id p id)
  unfolding User.find_by_id
  find_user_by_id-Spends id =
      Keeps-bind (Spends-preorder p v l k gone never) _ _ (on_db-Spends p v l k gone never _)
        first_user-Spends

  pub find_user_by_email-Spends :
      (email : String) → Keeps (Spends p v k gone) (User.find_by_email p email)
  unfolding User.find_by_email
  find_user_by_email-Spends email =
      Keeps-bind (Spends-preorder p v l k gone never) _ _ (on_db-Spends p v l k gone never _)
        first_user-Spends

  first_session-Spends : (ss : List Device) → Keeps (Spends p v k gone) (Session.first_session p ss)
  first_session-Spends [] = Keeps-raise (Spends-preorder p v l k gone never) _
  first_session-Spends (s ∷ ss) = Keeps-pure (Spends-preorder p v l k gone never) s

  pub find_session_by_id-Spends :
      (id : String) → Keeps (Spends p v k gone) (Session.find_by_id p id)
  unfolding Session.find_by_id
  find_session_by_id-Spends id =
      Keeps-bind (Spends-preorder p v l k gone never) _ _
        (Keeps-lift (Spends-preorder p v l k gone never) _)
        (λ canonical.
          Keeps-bind (Spends-preorder p v l k gone never) _ _ (on_db-Spends p v l k gone never _)
            first_session-Spends)

  create_audit_log-Spends : (a : Entry) → Keeps (Spends p v k gone) (AuditLog.create p a)
  unfolding AuditLog.create
  create_audit_log-Spends a = on_db-Spends p v l k gone never _

  id-Spends : Keeps (Spends p v k gone) (total_os {S = S} {D = D} p.os.new_uuid)
  id-Spends = new_uuid-Spends p v l k gone never

  clock-Spends : Keeps (Spends p v k gone) (current_time p)
  clock-Spends = current_time-Spends p v l k gone never

  left-Spends : (t : ℕ) → Keeps (Spends p v k gone) (time_until p t)
  left-Spends = time_until-Spends p v l k gone never

  bytes-Spends : (n : ℕ) → Keeps (Spends p v k gone) (on_os {S = S} {D = D} (p.os.rand_read n))
  bytes-Spends = rand_read-Spends p v l k gone never

  audit-Spends :
      (user_id : Option String) (event : String) (m : RequestMetadata)
      (extra : List (String × String))
      → Keeps (Spends p v k gone) (Audit.log_auth_event p user_id event m extra)
  unfolding Audit.log_auth_event
  audit-Spends user_id event m extra = search (
    Spends-preorder p v l k gone never,
    issued_rules,
    clock-Spends,
    id-Spends,
    create_audit_log-Spends,
  )

  pub log_auth_event-Spends :
      (c : AuthConfig) (user_id : Option String) (event : String) (m : RequestMetadata)
      (extra : List (String × String))
      → Keeps (Spends p v k gone) (log_auth_event p c user_id event m extra)
  unfolding log_auth_event
  log_auth_event-Spends c user_id event m extra =
      search (Spends-preorder p v l k gone never, issued_rules, audit-Spends)

  pub generate_access_token-Spends :
      (c : TokenConfig) (user_id email : String)
      → Keeps (Spends p v k gone) (Token.generate_access_token p c user_id email)
  unfolding Token.generate_access_token
  generate_access_token-Spends c user_id email =
      search (Spends-preorder p v l k gone never, issued_rules, clock-Spends, left-Spends)

  pub generate_refresh_token-Spends :
      (c : TokenConfig) (user_id : String)
      → Keeps (Spends p v k gone) (Token.generate_refresh_token p c user_id)
  unfolding Token.generate_refresh_token
  generate_refresh_token-Spends c user_id =
      search (Spends-preorder p v l k gone never, issued_rules, clock-Spends, bytes-Spends)

  -- A new token is another one.
  pub generate_refresh_token-differs :
      (c : TokenConfig) (user_id : String) (w : World S D O) {fresh : RefreshToken}
      {t : World S D O}
      → gone w.os
      → Token.generate_refresh_token p c user_id w ≡ (ok fresh, t)
      → fresh.token ≢ k
  unfolding Token.generate_refresh_token
  generate_refresh_token-differs c user_id w g h = elim (>>=-eq-ok _ _ w h) [
    | ran bytes t₁ reads h₁ ↦ elim (>>=-eq-ok _ _ t₁ h₁) [
      | ran now t₂ timed h₂ ↦
          let (same, _) = pure-eq-ok _ t₂ h₂ in
          λ e.
            never.differs 32 w.os g (on_os_eq _ reads).0
              (ap (λ (x : RefreshToken). x.token) same ∙ e)
    ]
  ]

  -- A new token is stored: what is spent stays so.
  pub generate_and_create-Spends :
      {A : Type 0} (c : TokenConfig) (user_id session_id : String)
      (rest : RefreshToken → Exec (World S D O) A)
      → ((fresh : RefreshToken) → Keeps (Spends p v k gone) (rest fresh))
      → (w : World S D O) → gone w.os
      → IsSpent p v k w
      → let end =
          ((do
            fresh ← Token.generate_refresh_token p c user_id
            RefreshTokenRepository.create p (record fresh { session_id = session_id })
            rest fresh)
            w).1 in
        gone end.os × IsSpent p v k end
  generate_and_create-Spends c user_id session_id rest kept w g spent =
      >>=-then (λ (t : World S D O). gone t.os × IsSpent p v k t) _ _ w
        (λ fresh t h.
          let before = Keeps-after (generate_refresh_token-Spends c user_id) w h in
          let after =
            (Keeps-bind (Spends-preorder p v l k gone never) _ _
                ((create-Spends p v l k gone never) (record fresh { session_id = session_id })
                  (generate_refresh_token-differs c user_id w g h))
                (λ _. kept fresh)).at
              t in
          (after.machine (before.machine g), after.token (before.token spent)))
        (λ e t h.
          let before = Keeps-after (generate_refresh_token-Spends c user_id) w h in
          (before.machine g, before.token spent))
