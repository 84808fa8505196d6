-- ===== src/Service/Auth/Login.antt =====
-- What a successful Login has checked and stored.
use mathlib.Core.List.{Memᴰ}
use auth_login_load_balancin.Prelude.{
  Bool, true, false, if◌then◌else◌, none, String, ◌≡◌, ◌==◌, ◌||◌, refl, sym, ap, ◌∙◌, some, inl,
  inr, Bool-cases, ◌∷◌,
}
use auth_login_load_balancin.Prelude.Exec.{
  ok, ran, >>=-eq-ok, catch-eq-ok, pure-eq-ok, raise-ne-ok, lift-eq-ok, raise,
}
use auth_login_load_balancin.Prelude.Exec.Keeps.{Keeps-after}
use auth_login_load_balancin.Errors.{Error, invalid_credentials, is_no_rows}
use auth_login_load_balancin.Go.Strings.{trim_space}
use auth_login_load_balancin.Model.{
  User as Account, Session as Device, RequestMetadata, LoginResponse, RefreshToken,
}
use auth_login_load_balancin.Platform.{Platform, World, RefreshTokenRecord}
use auth_login_load_balancin.Platform.Laws.{Views, Laws, StoredSession}
use auth_login_load_balancin.Platform.Reads.{on_db_eq, on_cache_eq}
use auth_login_load_balancin.Prelude.Int.{pos, leb_ℤ}
use auth_login_load_balancin.Repository.Clock.Laws.{time_until-Reads}
use auth_login_load_balancin.Repository.Session as SessionRepository
use auth_login_load_balancin.Repository.RefreshToken as RefreshTokenRepository
use auth_login_load_balancin.Repository.RefreshToken.View.{record_at}
use auth_login_load_balancin.Repository.RefreshToken.Index.{create-eq-ok}
use auth_login_load_balancin.Repository.RefreshToken.{to_record}
use auth_login_load_balancin.Repository.User.{normalized_email}
use auth_login_load_balancin.Repository.User.Found.{find_by_email-eq-ok}
use auth_login_load_balancin.Service.Quiet.{
  log_auth_event-Quiet, generate_access_token-Quiet, generate_refresh_token-Quiet,
}
use auth_login_load_balancin.Service.Revoked.{record_at_of_cache}
use auth_login_load_balancin.Service.Token.Fresh.{generate_refresh_token-eq-ok}
use auth_login_load_balancin.Service.Auth.{
  AuthConfig, login_user, login_failure, open_session, login,
}

module _ {S D O : Type 0} (p : Platform S D O) (v : Views S D O) where
  -- The user has an ACTIVE session, and `token` is ACTIVE, for that user and that session.
  pub record Opened (user_id token : String) (t : World S D O) : Type 0 where
    pub session : Device
    pub stored : Memᴰ session (v.postgres.sessions t.db)
    pub is_active : session.status ≡ "ACTIVE"
    pub of_user : session.user_id ≡ user_id
    pub fresh : RefreshTokenRecord
    pub at : record_at p v t token ≡ some fresh
    pub token_active : fresh.status ≡ "ACTIVE"
    pub token_user : fresh.user_id ≡ user_id
    pub token_session : fresh.session_id ≡ session.id

  -- The account that the credentials belong to.
  pub record Known (email password : String) (w : World S D O) (u : Account) : Type 0 where
    pub stored : Memᴰ u (v.postgres.users w.db)
    pub is_named : u.email ≡ normalized_email p email
    pub checked : p.lib.compare_hash_and_password u.hashed_password password ≡ ok tt

  module _ (l : Laws p v) (c : AuthConfig) where
    -- The handler of FindByEmail never succeeds.
    refused :
        (b : Bool) (email : String) (m : RequestMetadata) (e : Error) (x : World S D O)
        {u : Account} {t : World S D O}
        → (if b then login_failure p c m none email invalid_credentials else raise e) x ≡ (ok u, t)
        → ⊥
    refused true email m e x h = elim (>>=-eq-ok _ _ x h) [
      | ran _ y _ raised ↦ raise-ne-ok _ y raised
    ]
    refused false email m e x h = raise-ne-ok e x h

    login_user-Known :
        (email password : String) (m : RequestMetadata) (w : World S D O) {u : Account}
        {t : World S D O}
        → login_user p c email password m w ≡ (ok u, t)
        → Known email password w u
    unfolding login_user
    login_user-Known email password m w h = elim (>>=-eq-ok _ _ w h) [
      | ran found t₁ finds h₁ ↦ elim (catch-eq-ok _ _ w finds) [
        | inr (e, x, _, rescued) ↦ absurd (refused (is_no_rows e) email m e x rescued)
        | inl selects ↦ elim (catch-eq-ok _ _ t₁ h₁) [
          | inr (e, x, _, rescued) ↦ elim (>>=-eq-ok _ _ x rescued) [
            | ran _ y _ raised ↦ absurd (raise-ne-ok _ y raised)
          ]
          | inl checks ↦ elim (>>=-eq-ok _ _ t₁ checks) [
            | ran _ t₂ compares pures ↦
                let (stored, named) = find_by_email-eq-ok p v l email w selects in
                let (same, _) = pure-eq-ok _ t₂ pures in
                rw (← same) (record {
                  stored = stored;
                  is_named = named;
                  checked = (lift-eq-ok _ t₁ compares).0;
                })
          ]
        ]
      ]
    ]

    create-SameDb :
        (token : RefreshToken) (w : World S D O) {t : World S D O}
        → RefreshTokenRepository.create p token w ≡ (ok tt, t)
        → t.db ≡ w.db
    unfolding RefreshTokenRepository.create
    create-SameDb token w h = elim (>>=-eq-ok _ _ w h) [
      | ran payload t₁ marshals h₁ ↦ elim (>>=-eq-ok _ _ t₁ h₁) [
        | ran ttl t₂ timed h₂ ↦ elim (Bool-cases (leb_ℤ ttl (pos 0))) [
          | inl late ↦ absurd (raise-ne-ok _ t₂ (rw late at h₂))
          | inr live ↦
              let (_, db, _) = on_cache_eq _ (rw live at h₂) in
              let (_, same) = lift-eq-ok _ w marshals in
              db
              ∙ (Keeps-after (time_until-Reads p v l _) t₁ timed).db
              ∙ ap (λ (x : World S D O). x.db) (sym same)
        ]
      ]
    ]

    create_session-eq-ok :
        (s : Device) (w : World S D O) {row : Device} {t : World S D O}
        → SessionRepository.create p s w ≡ (ok row, t)
        → StoredSession s row × (v.postgres.sessions t.db ≡ row ∷ v.postgres.sessions w.db)
    unfolding SessionRepository.create
    create_session-eq-ok s w h =
        let (row_is, rows, _) = l.postgres.insert_session_ok s _ (on_db_eq _ h).0 in (row_is, rows)

    open_session-Opened :
        (user : Account) (m : RequestMetadata) (w : World S D O) {r : LoginResponse}
        {t : World S D O}
        → open_session p c user m w ≡ (ok r, t)
        → Opened user.id r.refresh_token t
    unfolding open_session
    open_session-Opened user m w {r} {t} h = elim (>>=-eq-ok _ _ w h) [
      | ran now t₁ timed h₁ ↦ elim (>>=-eq-ok _ _ t₁ h₁) [
        | ran id t₂ names h₂ ↦ elim (>>=-eq-ok _ _ t₂ h₂) [
          | ran row t₃ inserts h₃ ↦ elim (>>=-eq-ok _ _ t₃ h₃) [
            | ran access t₄ signs h₄ ↦ elim (>>=-eq-ok _ _ t₄ h₄) [
              | ran fresh t₅ generates h₅ ↦ elim (>>=-eq-ok _ _ t₅ h₅) [
                | ran _ t₆ creates h₆ ↦ elim (>>=-eq-ok _ _ t₆ h₆) [
                  | ran _ t₇ logs h₇ ↦
                      let (answers, ends) = pure-eq-ok _ t₇ h₇ in
                      let named : fresh.token ≡ r.refresh_token =
                        ap (λ (x : LoginResponse). x.refresh_token) answers in
                      let (mine, active) =
                        generate_refresh_token-eq-ok p c.tokens user.id t₄ generates in
                      let (row_is, rows) = create_session-eq-ok _ t₂ inserts in
                      let signed = Keeps-after (generate_access_token-Quiet p v l _ _ _) t₃ signs in
                      let generated =
                        Keeps-after (generate_refresh_token-Quiet p v l _ _) t₄ generates in
                      let logged = Keeps-after (log_auth_event-Quiet p v l c _ _ m _) t₆ logs in
                      let sessions : v.postgres.sessions t.db ≡ row ∷ v.postgres.sessions t₂.db =
                        ap (λ (x : World S D O). v.postgres.sessions x.db) (sym ends)
                        ∙ logged.sessions
                        ∙ ap v.postgres.sessions (create-SameDb _ t₅ creates)
                        ∙ generated.sessions
                        ∙ signed.sessions
                        ∙ rows in
                      let after : t.cache ≡ t₆.cache =
                        ap (λ (x : World S D O). x.cache) (sym ends) ∙ logged.cache in
                      let new = record fresh { session_id = id } in
                      let (stored, _, _) = create-eq-ok p v l new t₅ creates in
                      record {
                        session = row;
                        stored = rw sessions (Memᴰ.head refl);
                        is_active = row_is.status;
                        of_user = row_is.user_id;
                        fresh = to_record new;
                        at = rw (← named) (record_at_of_cache p v t₆ t fresh.token after ∙ stored);
                        token_active = active;
                        token_user = mine;
                        token_session = sym row_is.id;
                      }
                ]
              ]
            ]
          ]
        ]
      ]
    ]

    -- A Login that succeeds was given the email of an account and a password that matches its hash;
    -- there is now an ACTIVE session of that account, and the refresh token that was returned is
    -- ACTIVE, for that account and that session.
    pub login-Opened :
        (email password : String) (m : RequestMetadata) (w : World S D O) {r : LoginResponse}
        {t : World S D O}
        → login p c email password m w ≡ (ok r, t)
        → (u : Account) × Known (trim_space email) (trim_space password) w u
          × Opened u.id r.refresh_token t
    unfolding login
    login-Opened email password m w h =
        elim (Bool-cases (trim_space email == "" || trim_space password == "")) [
          | inl blank ↦ elim (>>=-eq-ok _ _ w (rw blank at h)) [
            | ran _ x _ raised ↦ absurd (raise-ne-ok _ x raised)
          ]
          | inr filled ↦ elim (>>=-eq-ok _ _ w (rw filled at h)) [
            | ran u t₁ knows opens ↦
                (u, login_user-Known _ _ m w knows, open_session-Opened u m t₁ opens)
          ]
        ]
