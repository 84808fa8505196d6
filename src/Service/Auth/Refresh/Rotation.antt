-- ===== src/Service/Auth/Refresh/Rotation.antt =====
-- What a successful RefreshAccessToken has done.
use auth_login_load_balancin.Prelude.{
  false, true, ◌<◌, String, ◌≡◌, ◌≢◌, ◌==◌, sym, ap, some, inl, inr, Bool-cases, eq_iff, arith, ◌∙◌,
  Option, ◌≤◌, if◌then◌else◌,
}
use auth_login_load_balancin.Prelude.Exec.{
  ok, ran, >>=-eq-ok, catch-eq-ok, pure-eq-ok, raise-ne-ok, catch, raise,
}
use auth_login_load_balancin.Prelude.Exec.Keeps.{Keeps-after, Keeps-bind, Keeps-pure}
use auth_login_load_balancin.Errors.{invalid_refresh_token, is_no_rows, is_refresh_token_not_found}
use auth_login_load_balancin.Go.Strings.{trim_space}
use auth_login_load_balancin.Model.{
  User as Account, RefreshToken, RequestMetadata, RefreshTokenResponse,
}
use auth_login_load_balancin.Platform.{Platform, World, RefreshTokenRecord}
use auth_login_load_balancin.Platform.Laws.{Views, Laws}
use auth_login_load_balancin.Platform.Quiet.{Quiet, Quiet-preorder}
use auth_login_load_balancin.Repository.User
use auth_login_load_balancin.Repository.RefreshToken as RefreshTokenRepository
use auth_login_load_balancin.Repository.User.Found.{find_by_id-eq-ok}
use auth_login_load_balancin.Repository.RefreshToken.{to_record}
use auth_login_load_balancin.Repository.RefreshToken.View.{Faded, record_at, Reads-record_at}
use auth_login_load_balancin.Repository.RefreshToken.Outcome.{update_status-eq-ok}
use auth_login_load_balancin.Service.Auth.{AuthConfig}
use auth_login_load_balancin.Service.Quiet.{
  current_time-Quiet, generate_access_token-Quiet, find_user_by_id-Quiet,
}
use auth_login_load_balancin.Service.Revoked.{record_at_of_cache}
use auth_login_load_balancin.Service.Auth.Refresh.{
  rotate, is_spent, reuse, refresh_found, refresh_access_token,
}
use auth_login_load_balancin.Service.Auth.Refresh.Lookup.{lookup_found}
use auth_login_load_balancin.Service.Auth.Refresh.Issue.{Issued, issue-Issued}

module _ {S D O : Type 0} (p : Platform S D O) (v : Views S D O) where
  -- Between two states `old`, the record of the token `value`, has been exchanged for the record of
  -- the token `new`: the old one was ACTIVE and had not expired, and is now USED (or has expired);
  -- the new one is ACTIVE and belongs to the same user and session.
  pub record Rotated (value new : String) (w t : World S D O) : Type 0 where
    pub old : RefreshTokenRecord
    pub found : record_at p v w value ≡ some old
    pub was_active : old.status ≡ "ACTIVE"
    pub was_live : v.time w.os < old.expires_at
    pub fresh : RefreshTokenRecord
    pub stored : record_at p v t new ≡ some fresh
    pub is_active : fresh.status ≡ "ACTIVE"
    pub same_user : fresh.user_id ≡ old.user_id
    pub same_session : fresh.session_id ≡ old.session_id
    pub spent : value ≢ new → Faded (some (record old { status = "USED" })) (record_at p v t value)

  module _ (l : Laws p v) (c : AuthConfig) where
    -- The user that the token's record names.
    owner-eq-ok :
        (id : String) (w : World S D O) {user : Account} {t : World S D O}
        → catch
            (User.find_by_id p id)
            (λ e. if is_no_rows e then raise invalid_refresh_token else raise e)
            w
          ≡ (ok user, t)
        → (user.id ≡ id) × (t.cache ≡ w.cache) × (v.time w.os ≤ v.time t.os)
    owner-eq-ok id w h = elim (catch-eq-ok _ _ w h) [
      | inl finds ↦
          let quiet = Keeps-after (find_user_by_id-Quiet p v l id) w finds in
          ((find_by_id-eq-ok p v l id w finds).1, quiet.cache, quiet.clock)
      | inr (e, u, _, rescued) ↦ elim (Bool-cases (is_no_rows e)) [
        | inl own ↦ absurd (raise-ne-ok _ u (rw own at rescued))
        | inr foreign ↦ absurd (raise-ne-ok _ u (rw foreign at rescued))
      ]
    ]

    -- The handler of UpdateStatus always raises.
    marks-eq-ok :
        (token status : String) (w : World S D O) {t : World S D O}
        → catch
            (RefreshTokenRepository.update_status p token status)
            (λ e. if is_refresh_token_not_found e then raise invalid_refresh_token else raise e)
            w
          ≡ (ok tt, t)
        → RefreshTokenRepository.update_status p token status w ≡ (ok tt, t)
    marks-eq-ok token status w h = elim (catch-eq-ok _ _ w h) [
      | inl marks ↦ marks
      | inr (e, u, _, rescued) ↦ elim (Bool-cases (is_refresh_token_not_found e)) [
        | inl own ↦ absurd (raise-ne-ok _ u (rw own at rescued))
        | inr foreign ↦ absurd (raise-ne-ok _ u (rw foreign at rescued))
      ]
    ]

    -- What RefreshAccessToken does with a token that it has found.
    abbrev Exchanged : RefreshToken → String → World S D O → World S D O → Type 0
    Exchanged token new w t =
        (v.time w.os < token.expires_at)
        × (u : World S D O) × Issued p v token.user_id token.session_id new u t
        × (record_at p v u token.token ≡ some (record (to_record token) { status = "USED" }))

    still :
        {a b : Option RefreshTokenRecord} {old r : RefreshTokenRecord}
        → a ≡ some old
        → a ≡ b
        → Faded (some r) b
        → r ≡ old
    still e q (inl k) = cc
    still e q (inr k) = absurd (cc (e, q, k))

    rotate-eq-ok :
        (token : RefreshToken) (m : RequestMetadata) (w : World S D O) {r : RefreshTokenResponse}
        {t : World S D O}
        → Faded (some (to_record token)) (record_at p v w token.token)
        → rotate p c token m w ≡ (ok r, t)
        → Exchanged token r.refresh_token w t
    unfolding rotate
    rotate-eq-ok token m w {r} {t} at h = elim (>>=-eq-ok _ _ w h) [
      | ran user t₁ finds h₁ ↦ elim (>>=-eq-ok _ _ t₁ h₁) [
        | ran access t₂ signs h₂ ↦ elim (>>=-eq-ok _ _ t₂ h₂) [
          | ran _ t₃ marks h₃ ↦
              let (mine, cache₁, clock₁) = owner-eq-ok token.user_id w finds in
              let quiet =
                Keeps-after (generate_access_token-Quiet p v l c.tokens user.id user.email) t₁
                  signs in
              let (old, old_at, used_at, live) =
                update_status-eq-ok p v l token.token "USED" t₂ (marks-eq-ok _ _ t₂ marks) in
              let same : to_record token ≡ old =
                still old_at (record_at_of_cache p v w t₂ token.token (quiet.cache ∙ cache₁)) at in
              let ends : old.expires_at ≡ token.expires_at =
                ap (λ (x : RefreshTokenRecord). x.expires_at) (sym same) in
              let clock = quiet.clock in
              (
                omega (arith, clock₁, clock, live, ends),
                t₃,
                rw mine at (issue-Issued p v l c token user access m t₃ h₃),
                rw (← same) at used_at,
              )
        ]
      ]
    ]

    is_spent-eq-ok :
        (token : RefreshToken) (w : World S D O) {t : World S D O}
        → is_spent p c token w ≡ (ok false, t)
        → (token.status ≡ "ACTIVE") × Quiet v w t
    unfolding is_spent
    is_spent-eq-ok token w h = elim (Bool-cases (token.status == "ACTIVE")) [
      | inl active ↦ (
        (eq_iff _ _).0 active,
        Keeps-after
            (Keeps-bind (Quiet-preorder v) _ _ (current_time-Quiet p v l)
              (λ now. Keeps-pure (Quiet-preorder v) _))
            w (rw active at h),
      )
      | inr other ↦ absurd (cc ((pure-eq-ok _ w (rw other at h)).0))
    ]

    reuse-ne-ok :
        (token : RefreshToken) (m : RequestMetadata) (w : World S D O) {r : RefreshTokenResponse}
        {t : World S D O}
        → reuse p c token m w ≡ (ok r, t)
        → ⊥
    unfolding reuse
    reuse-ne-ok token m w h = elim (>>=-eq-ok _ _ w h) [
      | ran _ t₁ _ h₁ ↦ elim (>>=-eq-ok _ _ t₁ h₁) [
        | ran _ t₂ _ h₂ ↦ elim (>>=-eq-ok _ _ t₂ h₂) [ ran _ t₃ _ h₃ ↦ raise-ne-ok _ t₃ h₃ ]
      ]
    ]

    refresh_found-Exchanged :
        (token : RefreshToken) (m : RequestMetadata) (w : World S D O) {r : RefreshTokenResponse}
        {t : World S D O}
        → Faded (some (to_record token)) (record_at p v w token.token)
        → refresh_found p c token m w ≡ (ok r, t)
        → (token.status ≡ "ACTIVE") × Exchanged token r.refresh_token w t
    unfolding refresh_found
    refresh_found-Exchanged token m w {r} {t} at h = elim (Bool-cases (token.status == "USED")) [
      | inl used ↦ absurd (reuse-ne-ok token m w (rw used at h))
      | inr other ↦ elim (>>=-eq-ok _ _ w (rw other at h)) [
        | ran true t₁ checks h₁ ↦ elim (>>=-eq-ok _ _ t₁ h₁) [
          | ran _ x _ raised ↦ absurd (raise-ne-ok _ x raised)
        ]
        | ran false t₁ checks h₁ ↦
            let (active, quiet) = is_spent-eq-ok token w checks in
            let same = record_at_of_cache p v w t₁ token.token quiet.cache in
            let exchanged = rotate-eq-ok token m t₁ (rw (← same) at at) h₁ in
            let (live, u, issued, marked) = exchanged in
            let clock = quiet.clock in (active, (omega (arith, clock, live), u, issued, marked))
      ]
    ]

    -- A RefreshAccessToken that succeeds has exchanged the token that it was given for the one that
    -- it returns: the old one was ACTIVE and had not expired, and is now USED (or has expired), the
    -- new one is ACTIVE and belongs to the same user and session.
    pub refresh_access_token-Rotated :
        (value : String) (m : RequestMetadata) (w : World S D O) {r : RefreshTokenResponse}
        {t : World S D O}
        → refresh_access_token p c value m w ≡ (ok r, t)
        → Rotated (trim_space value) r.refresh_token w t
    unfolding refresh_access_token
    refresh_access_token-Rotated value m w {r} {t} h = elim (Bool-cases (trim_space value == "")) [
      | inl blank ↦ elim (>>=-eq-ok _ _ w (rw blank at h)) [
        | ran _ x _ raised ↦ absurd (raise-ne-ok _ x raised)
      ]
      | inr filled ↦ elim (>>=-eq-ok _ _ w (rw filled at h)) [
        | ran token t₁ finds h₁ ↦
            let (at, named, reads) = lookup_found p v l c (trim_space value) m w finds in
            let after = rw at at (Reads-record_at p v w t₁ (trim_space value) reads) in
            let (active, exchanged) =
              refresh_found-Exchanged token m t₁ (rw (← named) at after) h₁ in
            let (live, u, issued, marked) = exchanged in
            let clock = reads.clock in
            record {
              old = to_record token;
              found = at;
              was_active = active;
              was_live = omega (arith, clock, live);
              fresh = issued.fresh;
              stored = issued.stored;
              is_active = issued.active;
              same_user = issued.user;
              same_session = issued.session;
              spent = λ differ.
                  rw named at
                    (rw marked at (issued.others token.token (λ q. differ (cc (q, named)))));
            }
      ]
    ]
