-- ===== src/Service/Auth/Logout/OneToken.antt =====
-- Logout: the token that it is given is dead, and the token's session is REVOKED.
use auth_login_load_balancin.Prelude.{
  String, ◌≡◌, ◌≢◌, ◌⊎◌, ◌==◌, ◌∙◌, refl, some, none, inl, inr, Bool-cases, ==-eq-false_of_ne,
  eq_iff, if◌then◌else◌,
}
use auth_login_load_balancin.Prelude.Exec.{
  ok, ran, pure, >>=-eq-ok, catch-eq-ok, pure-eq-ok, raise-ne-ok,
}
use auth_login_load_balancin.Prelude.Exec.Keeps.{Keeps-after}
use auth_login_load_balancin.Errors.{is_refresh_token_not_found, refresh_token_not_found_of_is}
use auth_login_load_balancin.Go.Strings.{trim_space}
use auth_login_load_balancin.Model.{RefreshToken, RequestMetadata, LogoutResponse}
use auth_login_load_balancin.Platform.{Platform, World, RefreshTokenRecord}
use auth_login_load_balancin.Platform.Laws.{Views, Laws}
use auth_login_load_balancin.Repository.Session
use auth_login_load_balancin.Repository.Session.Revocation.{HasStatus, update_status-HasStatus}
use auth_login_load_balancin.Repository.RefreshToken.{to_record, revoke_by_token}
use auth_login_load_balancin.Repository.RefreshToken.View.{record_at, find_by_token-record_at}
use auth_login_load_balancin.Repository.RefreshToken.Status.{Restated, update_status-Restated}
use auth_login_load_balancin.Repository.RefreshToken.Outcome.{
  find_by_token_not_found, update_status_not_found,
}
use auth_login_load_balancin.Repository.RefreshToken.Revocation.{IsDead, revoked-IsDead}
use auth_login_load_balancin.Service.Auth.{AuthConfig}
use auth_login_load_balancin.Service.Quiet.{log_auth_event-Quiet}
use auth_login_load_balancin.Service.Revoked.{record_at_of_cache, IsDead-of_cache, Quiet-IsDead}
use auth_login_load_balancin.Service.Auth.Logout.{find_or_zero, revoke_if_found, logout}

module _ {S D O : Type 0} (p : Platform S D O) (v : Views S D O) (l : Laws p v)
    (c : AuthConfig) where
  -- The token was found, or there is no record of it now.
  find_or_zero-eq-ok :
      (value : String) (w : World S D O) {token : RefreshToken} {t : World S D O}
      → find_or_zero p c value w ≡ (ok token, t)
      → (record_at p v w value ≡ some (to_record token)) ⊎ (record_at p v t value ≡ none)
  unfolding find_or_zero
  find_or_zero-eq-ok value w h = elim (catch-eq-ok _ _ w h) [
    | inl finds ↦ inl (find_by_token-record_at p v l value w finds).0
    | inr (e, u, failed, rescued) ↦ elim (Bool-cases (is_refresh_token_not_found e)) [
      | inr other ↦ absurd (raise-ne-ok _ u (rw other at rescued))
      | inl missing ↦
          let (_, same) = pure-eq-ok _ u (rw missing at rescued) in
          inr (
            rw (← same) (
              find_by_token_not_found p v l value w
                (rw (refresh_token_not_found_of_is e missing) at failed)))
    ]
  ]

  stays_missing :
      {value status : String} {w t : World S D O}
      → Restated p v value status w t
      → record_at p v w value ≡ none
      → record_at p v t value ≡ none
  stays_missing {value} h missing = elim (h.records value) [
    | inl (inl same) ↦ same ∙ missing
    | inl (inr gone) ↦ gone
    | inr (_, (r, found, _)) ↦ absurd (cc (found, missing))
  ]

  revoke_if_found-eq-ok :
      (value : String) (w : World S D O) {t : World S D O}
      → revoke_if_found p c value w ≡ (ok tt, t)
      → IsDead p v t value × (record_at p v w value ≡ none → record_at p v t value ≡ none)
  unfolding revoke_if_found revoke_by_token
  revoke_if_found-eq-ok value w {t} h = elim (catch-eq-ok _ _ w h) [
    | inl revokes ↦ (
      revoked-IsDead p v l value w revokes,
      stays_missing (rw revokes at (update_status-Restated p v l value "REVOKED" w)),
    )
    | inr (e, u, failed, rescued) ↦ elim (Bool-cases (is_refresh_token_not_found e)) [
      | inr other ↦ absurd (raise-ne-ok _ u (rw other at rescued))
      | inl missing ↦
          let (_, same) = pure-eq-ok _ u (rw missing at rescued) in
          rw (← same) (
            λ r at. inr (
                update_status_not_found p v l value "REVOKED" w
                  (rw (refresh_token_not_found_of_is e missing) at failed) r at),
            stays_missing (rw failed at (update_status-Restated p v l value "REVOKED" w)),
          )
    ]
  ]

  -- The update of the token's session, if it has one, leaves the cache and the clock alone.
  ends_session-eq-ok :
      (id : String) (w : World S D O) {t : World S D O}
      → (if id == "" then pure tt else Session.update_status p id "REVOKED") w ≡ (ok tt, t)
      → (t.cache ≡ w.cache)
        × (t.os ≡ w.os)
        × (id ≢ "" → HasStatus id "REVOKED" (v.postgres.sessions t.db))
  ends_session-eq-ok id w h = elim (Bool-cases (id == "")) [
    | inl blank ↦
        let (_, same) = pure-eq-ok _ w (rw blank at h) in
        rw (← same) (refl, refl, λ named. absurd (named ((eq_iff id "").0 blank)))
    | inr named ↦
        let (status, cache, os) = update_status-HasStatus p v l id "REVOKED" w (rw named at h) in
        (cache, os, λ _. status)
  ]

  -- After a Logout: the token is dead, and if it had a record that named a session, the session is
  -- REVOKED, or there is no record of the token now.
  pub record LoggedOutOf (token : String) (w t : World S D O) : Type 0 where
    pub is_dead : IsDead p v t token
    pub session :
        (found : RefreshTokenRecord)
        → record_at p v w token ≡ some found
        → found.session_id ≢ ""
        → HasStatus found.session_id "REVOKED" (v.postgres.sessions t.db)
          ⊎ (record_at p v t token ≡ none)

  -- A Logout with a token that is not blank, if it reports success, leaves the token dead, with no
  -- record, one that is neither ACTIVE nor USED, or one that has expired, whether it had a record
  -- before or not; and if the token had a record that names a session, the session is REVOKED, or
  -- there is no record of the token now.
  pub logout-IsDead :
      (value : String) (m : RequestMetadata) (w : World S D O) {r : LogoutResponse}
      {t : World S D O}
      → trim_space value ≢ ""
      → logout p c value m w ≡ (ok r, t)
      → LoggedOutOf (trim_space value) w t
  unfolding logout
  logout-IsDead value m w {r} {t} filled h =
      elim (>>=-eq-ok _ _ w (rw (==-eq-false_of_ne _ _ filled) at h)) [
        | ran token t₁ finds h₁ ↦ elim (>>=-eq-ok _ _ t₁ h₁) [
          | ran _ t₂ revokes h₂ ↦ elim (>>=-eq-ok _ _ t₂ h₂) [
            | ran _ t₃ ends h₃ ↦ elim (>>=-eq-ok _ _ t₃ h₃) [
              | ran _ t₄ logs h₄ ↦
                  let (_, same) = pure-eq-ok _ t₄ h₄ in
                  let (dead, missing) = revoke_if_found-eq-ok (trim_space value) t₁ revokes in
                  let (cache, os, status) = ends_session-eq-ok token.session_id t₂ ends in
                  let logged = Keeps-after (log_auth_event-Quiet p v l c _ _ m _) t₃ logs in
                  let still =
                    record_at_of_cache p v t₂ t₄ (trim_space value) (logged.cache ∙ cache) in
                  let sessions = logged.sessions in
                  rw (← same) (record {
                    is_dead =
                        Quiet-IsDead p v logged (trim_space value)
                          (IsDead-of_cache p v t₂ t₃ (trim_space value) cache os dead);
                    session = λ found at named.
                        elim (find_or_zero-eq-ok (trim_space value) w finds) [
                          | inr gone ↦ inr (still ∙ missing gone)
                          | inl is ↦
                              let id : found.session_id ≡ token.session_id = cc (is, at) in
                              inl (rw (sessions, id) (status (λ q. named (id ∙ q))))
                        ];
                  })
            ]
          ]
        ]
      ]
