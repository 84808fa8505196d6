-- ===== src/Repository/Fails.antt =====
-- The errors of the repositories: none is a sentinel of internal/service, on which the handlers
-- decide.
use auth_login_load_balancin.Prelude.{ℕ, String, ◌≡◌, refl, Bool, List, [], ◌∷◌}
use auth_login_load_balancin.Prelude.Int.{ℤ}
use auth_login_load_balancin.Prelude.Exec.{err, Exec}
use auth_login_load_balancin.Prelude.Exec.Fails.{
  FailsWith, Foreign, FailsWith-pure, FailsWith-raise, FailsWith-lift, FailsWith-if,
  FailsWith-catch, FailsWith-bind, FailsWith-for_each,
}
use auth_login_load_balancin.Errors.{Error, IsRepositoryError, IsRepositoryError-of_IsForeign}
use auth_login_load_balancin.Model.{User, Session, RefreshToken}
use auth_login_load_balancin.Platform.{Platform, Command, RefreshTokenRecord, on_cache, on_db}
use auth_login_load_balancin.Platform.Laws.{Views, Laws}
use auth_login_load_balancin.Platform.Reads.{on_cache_eq, on_db_eq}
use auth_login_load_balancin.Repository.Clock.{time_until}
use auth_login_load_balancin.Repository.Clock.Laws.{time_until-ne-err}
use auth_login_load_balancin.Repository.RefreshToken.{
  find_by_token, update_status, create, revoke_listed, revoke_all_by_user, revoke_all_by_session,
}
use auth_login_load_balancin.Repository.User

module _ {S D O : Type 0} {A : Type 0} where
  pub FailsWith-on_cache :
      (m : Exec S A) → Foreign m → FailsWith IsRepositoryError (on_cache {D = D} {O = O} m)
  FailsWith-on_cache m h = record {
    at = λ w e t q. IsRepositoryError-of_IsForeign e (h.at _ e _ (on_cache_eq m q).0);
  }

  pub FailsWith-on_db :
      (m : Exec D A) → Foreign m → FailsWith IsRepositoryError (on_db {S = S} {O = O} m)
  FailsWith-on_db m h = record {
    at = λ w e t q. IsRepositoryError-of_IsForeign e (h.at _ e _ (on_db_eq m q).0);
  }

module _ {S D O : Type 0} (p : Platform S D O) (v : Views S D O) (l : Laws p v) where
  time_until-Fails : (t : ℕ) → FailsWith IsRepositoryError (time_until p t)
  time_until-Fails t = record { at = λ w e u q. absurd (time_until-ne-err p v l t w q) }

  marshal-Fails :
      (r : RefreshTokenRecord) (e : Error) → p.lib.marshal_record r ≡ err e → IsRepositoryError e
  marshal-Fails r e q = IsRepositoryError-of_IsForeign e (l.json.marshal_foreign r e q)

  unmarshal-Fails :
      (x : String) (e : Error) → p.lib.unmarshal_record x ≡ err e → IsRepositoryError e
  unmarshal-Fails x e q = IsRepositoryError-of_IsForeign e (l.json.unmarshal_foreign x e q)

  get-Fails : (k : String) → FailsWith IsRepositoryError (on_cache {D = D} {O = O} (p.redis.get k))
  get-Fails k = FailsWith-on_cache _ (l.redis.get_foreign k)

  set-Fails :
      (k x : String) (d : ℤ)
      → FailsWith IsRepositoryError (on_cache {D = D} {O = O} (p.redis.set k x d))
  set-Fails k x d = FailsWith-on_cache _ (l.redis.set_foreign k x d)

  smembers-Fails :
      (k : String) → FailsWith IsRepositoryError (on_cache {D = D} {O = O} (p.redis.smembers k))
  smembers-Fails k = FailsWith-on_cache _ (l.redis.smembers_foreign k)

  exec-Fails :
      (cs : List Command) → FailsWith IsRepositoryError (on_cache {D = D} {O = O} (p.redis.exec cs))
  exec-Fails cs = FailsWith-on_cache _ (l.redis.exec_foreign cs)

  pub find_by_token-Fails : (token : String) → FailsWith IsRepositoryError (find_by_token p token)
  unfolding find_by_token
  find_by_token-Fails token =
      FailsWith-bind _ _
        (FailsWith-catch IsRepositoryError _ _ (get-Fails _)
          (λ e h. FailsWith-if _ _ _ (FailsWith-raise _ refl) (FailsWith-raise e h)))
        (λ value.
          FailsWith-bind _ _ (FailsWith-lift _ (unmarshal-Fails value)) (λ r. FailsWith-pure _))

  pub update_status-Fails :
      (token status : String) → FailsWith IsRepositoryError (update_status p token status)
  unfolding update_status
  update_status-Fails token status = FailsWith-bind _ _ (find_by_token-Fails token) (λ found.
      FailsWith-bind _ _ (FailsWith-lift _ (marshal-Fails _)) (λ payload.
        FailsWith-bind _ _ (time_until-Fails _)
          (λ ttl. FailsWith-if _ _ _ (FailsWith-raise _ refl) (set-Fails _ _ _))))

  pub create-Fails : (token : RefreshToken) → FailsWith IsRepositoryError (create p token)
  unfolding create
  create-Fails token = FailsWith-bind _ _ (FailsWith-lift _ (marshal-Fails _)) (λ payload.
      FailsWith-bind _ _ (time_until-Fails _)
        (λ ttl. FailsWith-if _ _ _ (FailsWith-raise _ refl) (exec-Fails _)))

  revoke_listed-Fails : (token : String) → FailsWith IsRepositoryError (revoke_listed p token)
  unfolding revoke_listed
  revoke_listed-Fails token =
      FailsWith-catch IsRepositoryError _ _
        (FailsWith-bind _ _ (find_by_token-Fails token)
          (λ found. FailsWith-if _ _ _ (update_status-Fails _ _) (FailsWith-pure _)))
        (λ e h. FailsWith-if _ _ _ (FailsWith-pure _) (FailsWith-raise e h))

  pub revoke_all_by_user-Fails :
      (user : String) → FailsWith IsRepositoryError (revoke_all_by_user p user)
  unfolding revoke_all_by_user
  revoke_all_by_user-Fails user =
      FailsWith-bind _ _ (smembers-Fails _) (λ ts. FailsWith-for_each ts _ revoke_listed-Fails)

  pub revoke_all_by_session-Fails :
      (session : String) → FailsWith IsRepositoryError (revoke_all_by_session p session)
  unfolding revoke_all_by_session
  revoke_all_by_session-Fails session =
      FailsWith-bind _ _ (smembers-Fails _) (λ ts. FailsWith-for_each ts _ revoke_listed-Fails)

  pub update_sessions-Fails :
      (test : Session → Bool) (f : Session → Session)
      → FailsWith IsRepositoryError (on_db {S = S} {O = O} (p.postgres.update_sessions test f))
  update_sessions-Fails test f = FailsWith-on_db _ (l.postgres.update_sessions_foreign test f)

  first_user-Fails : (us : List User) → FailsWith IsRepositoryError (User.first_user p us)
  first_user-Fails [] = FailsWith-raise _ refl
  first_user-Fails (u ∷ us) = FailsWith-pure u

  pub find_user_by_id-Fails : (id : String) → FailsWith IsRepositoryError (User.find_by_id p id)
  unfolding User.find_by_id
  find_user_by_id-Fails id =
      FailsWith-bind _ _ (FailsWith-on_db _ (l.postgres.select_users_foreign _)) first_user-Fails

  pub find_user_by_email-Fails :
      (email : String) → FailsWith IsRepositoryError (User.find_by_email p email)
  unfolding User.find_by_email
  find_user_by_email-Fails email =
      FailsWith-bind _ _ (FailsWith-on_db _ (l.postgres.select_users_foreign _)) first_user-Fails
