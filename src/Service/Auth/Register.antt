-- ===== src/Service/Auth/Register.antt =====
-- What a successful Register has stored, and how the account's email is spelt.
use mathlib.Core.List.{Memᴰ}
use auth_login_load_balancin.Prelude.{
  false, String, ◌≡◌, ◌≢◌, ◌==◌, ◌||◌, refl, sym, ap, ◌∙◌, inl, inr, Bool-cases, ◌∷◌,
}
use auth_login_load_balancin.Prelude.Exec.{ok, ran, >>=-eq-ok, catch-eq-ok, pure-eq-ok, raise-ne-ok}
use auth_login_load_balancin.Prelude.Exec.Keeps.{Keeps-after}
use auth_login_load_balancin.Errors.{is_duplicate_email}
use auth_login_load_balancin.Go.Strings.{trim_space, to_lower}
use auth_login_load_balancin.Go.Strings.Trim.{
  IsLowerTable, trim_space_idem, to_lower_idem, to_lower-trim_space,
}
use auth_login_load_balancin.Model.{User as Account, RequestMetadata, RegisterResponse}
use auth_login_load_balancin.Platform.{Platform, World}
use auth_login_load_balancin.Platform.Laws.{Views, Laws, StoredUser}
use auth_login_load_balancin.Platform.Reads.{on_db_eq, on_os_eq}
use auth_login_load_balancin.Platform.Quiet.{Quiet-on_os}
use auth_login_load_balancin.Repository.User
use auth_login_load_balancin.Repository.User.{normalized_email, is_unique_violation}
use auth_login_load_balancin.Service.Quiet.{
  current_time-Quiet, new_uuid-Quiet, log_auth_event-Quiet,
}
use auth_login_load_balancin.Service.Auth.{AuthConfig, register_user, register}

-- The email that Register passes on, trimmed and in lower case, and the one that Login passes on,
-- trimmed, are looked up and stored as the given email is, if lower case is stable in Go's tables
-- and makes and removes no space.
pub normalized_twice :
    {S D O : Type 0} (p : Platform S D O) (lower : IsLowerTable p.lib.lower_table) (email : String)
    → (normalized_email p (to_lower p.lib.lower_table (trim_space email))
        ≡ normalized_email p email)
      × (normalized_email p (trim_space email) ≡ normalized_email p email)
normalized_twice p lower email = (
  rw
      (
        ← (to_lower-trim_space lower (trim_space email)),
        to_lower_idem lower (trim_space (trim_space email)),
        trim_space_idem email,
      )
      refl,
  rw (trim_space_idem email) refl,
)

module _ {S D O : Type 0} (p : Platform S D O) (v : Views S D O) where
  -- The new account is in the table, with an email that no account had.
  pub record Registered (email password : String) (r : RegisterResponse) (w t : World S D O)
      : Type 0 where
    pub row : Account
    pub stored : v.postgres.users t.db ≡ row ∷ v.postgres.users w.db
    pub is_named : row.email ≡ normalized_email p email
    pub is_unverified : row.is_email_verified ≡ false
    pub answers : (r.user_id ≡ row.id) × (r.email ≡ row.email)
    pub hashed :
        (end : O) × (p.os.generate_from_password password w.os ≡ (ok row.hashed_password, end))
    pub is_new : (other : Account) → Memᴰ other (v.postgres.users w.db) → other.email ≢ row.email
    pub sessions : v.postgres.sessions t.db ≡ v.postgres.sessions w.db
    pub cache : t.cache ≡ w.cache

  module _ (l : Laws p v) (c : AuthConfig) (lower : IsLowerTable p.lib.lower_table) where
    create_user-eq-ok :
        (user : Account) (w : World S D O) {row : Account} {t : World S D O}
        → User.create_user p user w ≡ (ok row, t)
        → StoredUser (record user { email = normalized_email p user.email }) row
          × (v.postgres.users t.db ≡ row ∷ v.postgres.users w.db)
          × (v.postgres.sessions t.db ≡ v.postgres.sessions w.db)
          × (t.cache ≡ w.cache)
          × ((other : Account)
              → Memᴰ other (v.postgres.users w.db)
              → other.email ≢ normalized_email p user.email)
    unfolding User.create_user
    create_user-eq-ok user w h = elim (catch-eq-ok _ _ w h) [
      | inl inserts ↦
          let (done, cache, _) = on_db_eq _ inserts in
          let (row_is, rows, sessions, new) = l.postgres.insert_user_ok _ _ done in
          (row_is, rows, sessions, cache, new)
      | inr (e, x, _, rescued) ↦ elim (Bool-cases (is_unique_violation e)) [
        | inl taken ↦ absurd (raise-ne-ok _ x (rw taken at rescued))
        | inr other ↦ absurd (raise-ne-ok _ x (rw other at rescued))
      ]
    ]

    register_user-Registered :
        (email password : String) (m : RequestMetadata) (w : World S D O) {r : RegisterResponse}
        {t : World S D O}
        → register_user p c (trim_space email) password m w ≡ (ok r, t)
        → Registered email password r w t
    unfolding register_user
    register_user-Registered email password m w {r} {t} h = elim (>>=-eq-ok _ _ w h) [
      | ran hash t₁ hashes h₁ ↦ elim (>>=-eq-ok _ _ t₁ h₁) [
        | ran now t₂ timed h₂ ↦ elim (>>=-eq-ok _ _ t₂ h₂) [
          | ran id t₃ names h₃ ↦ elim (>>=-eq-ok _ _ t₃ h₃) [
            | ran row t₄ creates h₄ ↦ elim (catch-eq-ok _ _ t₃ creates) [
              | inr (e, x, _, rescued) ↦ elim (Bool-cases (is_duplicate_email e)) [
                | inl taken ↦ elim (>>=-eq-ok _ _ x (rw taken at rescued)) [
                  | ran _ y _ raised ↦ absurd (raise-ne-ok _ y raised)
                ]
                | inr other ↦ absurd (raise-ne-ok _ x (rw other at rescued))
              ]
              | inl inserts ↦ elim (>>=-eq-ok _ _ t₄ h₄) [
                | ran _ t₅ logs h₅ ↦
                    let (answers, ends) = pure-eq-ok _ t₅ h₅ in
                    let (row_is, rows, sessions, cache, new) = create_user-eq-ok _ t₃ inserts in
                    let hashing =
                      Keeps-after
                        (Quiet-on_os v (p.os.generate_from_password password)
                          (l.os.generate_time password))
                        w hashes in
                    let reading = Keeps-after (current_time-Quiet p v l) t₁ timed in
                    let naming = Keeps-after (new_uuid-Quiet p v l) t₂ names in
                    let logged = Keeps-after (log_auth_event-Quiet p v l c _ _ m _) t₄ logs in
                    let back : v.postgres.users t₃.db ≡ v.postgres.users w.db =
                      naming.users ∙ reading.users ∙ hashing.users in
                    let hash_is = row_is.hashed_password in
                    record {
                      row = row;
                      stored =
                          ap (λ (x : World S D O). v.postgres.users x.db) (sym ends)
                          ∙ logged.users
                          ∙ rows
                          ∙ ap (λ us. row ∷ us) back;
                      is_named = row_is.email ∙ (normalized_twice p lower email).0;
                      is_unverified = row_is.is_email_verified;
                      answers = (
                        sym (ap (λ (x : RegisterResponse). x.user_id) answers),
                        sym (ap (λ (x : RegisterResponse). x.email) answers),
                      );
                      hashed = (t₁.os, rw hash_is (on_os_eq _ hashes).0);
                      is_new = λ other at q. new other (rw (← back) at at) (q ∙ row_is.email);
                      sessions =
                          ap (λ (x : World S D O). v.postgres.sessions x.db) (sym ends)
                          ∙ logged.sessions
                          ∙ sessions
                          ∙ naming.sessions
                          ∙ reading.sessions
                          ∙ hashing.sessions;
                      cache =
                          ap (λ (x : World S D O). x.cache) (sym ends)
                          ∙ logged.cache
                          ∙ cache
                          ∙ naming.cache
                          ∙ reading.cache
                          ∙ hashing.cache;
                    }
              ]
            ]
          ]
        ]
      ]
    ]

    -- If lower case is stable in Go's tables and makes and removes no space, then a Register that
    -- succeeds has added one account: its email is the given one, trimmed and in
    -- lower case, and no account had it; its hash is bcrypt's of the trimmed password; sessions and
    -- tokens are untouched.
    pub register-Registered :
        (email password : String) (m : RequestMetadata) (w : World S D O) {r : RegisterResponse}
        {t : World S D O}
        → register p c email password m w ≡ (ok r, t)
        → Registered email (trim_space password) r w t
    unfolding register
    register-Registered email password m w h =
        elim (Bool-cases (trim_space email == "" || trim_space password == "")) [
          | inl blank ↦ elim (>>=-eq-ok _ _ w (rw blank at h)) [
            | ran _ x _ raised ↦ absurd (raise-ne-ok _ x raised)
          ]
          | inr filled ↦ register_user-Registered email (trim_space password) m w (rw filled at h)
        ]
