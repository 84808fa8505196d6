-- ===== src/Service/Auth/Refresh/Issue.antt =====
-- The token that RefreshAccessToken issues in the place of another, and its record.
use auth_login_load_balancin.Prelude.{
  ℕ, String, ◌≡◌, ◌≢◌, refl, sym, ap, some, inl, inr, ◌∙◌, Option,
}
use auth_login_load_balancin.Prelude.Int.{ℤ}
use auth_login_load_balancin.Prelude.Exec.{ok, ran, >>=-eq-ok, pure-eq-ok}
use auth_login_load_balancin.Prelude.Exec.Keeps.{Keeps-after}
use auth_login_load_balancin.Model.{
  User as Account, RefreshToken, RequestMetadata, RefreshTokenResponse,
}
use auth_login_load_balancin.Platform.{Platform, World, RefreshTokenRecord}
use auth_login_load_balancin.Platform.Laws.{Views, Laws}
use auth_login_load_balancin.Platform.Reads.{on_db_eq}
use auth_login_load_balancin.Repository.Session
use auth_login_load_balancin.Repository.RefreshToken.{to_record}
use auth_login_load_balancin.Repository.RefreshToken.View.{Faded, record_at}
use auth_login_load_balancin.Repository.RefreshToken.Index.{create-eq-ok}
use auth_login_load_balancin.Repository.RefreshToken.Create.{create-Faded}
use auth_login_load_balancin.Service.Token.Fresh.{generate_refresh_token-eq-ok}
use auth_login_load_balancin.Service.Auth.{AuthConfig}
use auth_login_load_balancin.Service.Quiet.{
  current_time-Quiet, log_auth_event-Quiet, generate_refresh_token-Quiet,
}
use auth_login_load_balancin.Service.Revoked.{record_at_of_cache}
use auth_login_load_balancin.Service.Auth.Refresh.{issue}

-- A record that fades, seen through equal views.
Faded-between : {a b c d : Option RefreshTokenRecord} → a ≡ b → Faded b c → d ≡ c → Faded a d
Faded-between e (inl q) k = inl (k ∙ q ∙ sym e)
Faded-between e (inr q) k = inr (k ∙ q)

module _ {S D O : Type 0} (p : Platform S D O) (v : Views S D O) where
  -- Between two states a token of a user's session was issued; other records are as before, or
  -- have expired.
  pub record Issued (user_id session_id token : String) (w t : World S D O) : Type 0 where
    pub fresh : RefreshTokenRecord
    pub stored : record_at p v t token ≡ some fresh
    pub user : fresh.user_id ≡ user_id
    pub session : fresh.session_id ≡ session_id
    pub active : fresh.status ≡ "ACTIVE"
    pub others :
        (other : String) → other ≢ token → Faded (record_at p v w other) (record_at p v t other)

  module _ (l : Laws p v) (c : AuthConfig) where
    -- The end of `issue` leaves the cache alone.
    last_used-cache :
        (id : String) (now : ℕ) (w : World S D O) {t : World S D O}
        → Session.update_last_used_at p id now w ≡ (ok tt, t)
        → t.cache ≡ w.cache
    unfolding Session.update_last_used_at
    last_used-cache id now w h = (on_db_eq _ h).1

    pub issue-Issued :
        (token : RefreshToken) (user : Account) (access : String × ℤ) (m : RequestMetadata)
        (w : World S D O) {r : RefreshTokenResponse} {t : World S D O}
        → issue p c token user access m w ≡ (ok r, t)
        → Issued user.id token.session_id r.refresh_token w t
    unfolding issue
    issue-Issued token user access m w {r} {t} h = elim (>>=-eq-ok _ _ w h) [
      | ran fresh t₁ generates h₁ ↦ elim (>>=-eq-ok _ _ t₁ h₁) [
        | ran _ t₂ creates h₂ ↦ elim (>>=-eq-ok _ _ t₂ h₂) [
          | ran now t₃ timed h₃ ↦ elim (>>=-eq-ok _ _ t₃ h₃) [
            | ran _ t₄ touches h₄ ↦ elim (>>=-eq-ok _ _ t₄ h₄) [
              | ran _ t₅ logs h₅ ↦
                  let (answers, ends) = pure-eq-ok _ t₅ h₅ in
                  let (mine, active) =
                    generate_refresh_token-eq-ok p c.tokens user.id w generates in
                  let before =
                    (Keeps-after (generate_refresh_token-Quiet p v l c.tokens user.id) w
                      generates).cache in
                  let timed_cache = (Keeps-after (current_time-Quiet p v l) t₂ timed).cache in
                  let logs_cache =
                    (Keeps-after (log_auth_event-Quiet p v l c _ _ m _) t₄ logs).cache in
                  let after : t.cache ≡ t₂.cache =
                    ap (λ (x : World S D O). x.cache) (sym ends)
                    ∙ logs_cache
                    ∙ last_used-cache token.session_id now t₃ touches
                    ∙ timed_cache in
                  let named : fresh.token ≡ r.refresh_token =
                    ap (λ (x : RefreshTokenResponse). x.refresh_token) answers in
                  let new = record fresh { session_id = token.session_id } in
                  let (stored, _, _) = create-eq-ok p v l new t₁ creates in
                  record {
                    fresh = to_record new;
                    stored = rw (← named) (record_at_of_cache p v t₂ t fresh.token after ∙ stored);
                    user = mine;
                    session = refl;
                    active = active;
                    others = λ other differ.
                        Faded-between (sym (record_at_of_cache p v w t₁ other before))
                          (create-Faded p v l new other t₁ creates (λ q. differ (q ∙ named)))
                          (record_at_of_cache p v t₂ t other after);
                  }
            ]
          ]
        ]
      ]
    ]
