-- ===== src/Service/Auth/Refresh/Reuse.antt =====
-- A refresh token that is used a second time.
use auth_login_load_balancin.Prelude.{
  ℕ, String, ◌≡◌, ◌≢◌, refl, Option, List, none, ◌==◌, some, inl, inr, Bool-cases, eq_iff,
  if◌then◌else◌, [], ◌∷◌,
}
use auth_login_load_balancin.Prelude.Exec.{Exec, err, >>=-eq-err, raise, catch, ◌>>=◌, ◌>>◌}
use auth_login_load_balancin.Prelude.Exec.Keeps.{Keeps-after, Keeps-bind, Keeps-raise}
use auth_login_load_balancin.Prelude.Exec.Fails.{
  FailsWith, FailsWith-pure, FailsWith-raise, FailsWith-if, FailsWith-catch, FailsWith-bind,
}
use auth_login_load_balancin.Errors.{
  Error, refresh_token_reuse_detected, invalid_refresh_token, error_text, IsRepositoryError,
}
use auth_login_load_balancin.Model.{User, RefreshToken, RequestMetadata}
use auth_login_load_balancin.Prelude.Int.{ℤ}
use auth_login_load_balancin.Platform.{Platform, World, RefreshTokenRecord}
use auth_login_load_balancin.Platform.Laws.{Views, Laws}
use auth_login_load_balancin.Platform.Quiet.{Quiet-preorder}
use auth_login_load_balancin.Repository.Fails.{
  revoke_all_by_user-Fails, update_sessions-Fails, find_user_by_id-Fails, update_status-Fails,
  create-Fails, find_by_token-Fails,
}
use auth_login_load_balancin.Service.Fails.{
  current_time-Fails, generate_access_token-Fails, generate_refresh_token-Fails,
  log_auth_event-Fails,
}
use auth_login_load_balancin.Repository.Session
use auth_login_load_balancin.Repository.RefreshToken.Index.{IsIndexed, Reads-IsIndexed}
use auth_login_load_balancin.Repository.RefreshToken.{find_by_token, to_record}
use auth_login_load_balancin.Repository.RefreshToken.View.{record_at}
use auth_login_load_balancin.Go.Strings.{trim_space}
use auth_login_load_balancin.Service.Auth.Refresh.Lookup.{lookup_found}
use auth_login_load_balancin.Service.Auth.{AuthConfig, log_auth_event}
use auth_login_load_balancin.Service.Quiet.{log_auth_event-Quiet}
use auth_login_load_balancin.Service.Revoked.{
  LoggedOut, Quiet-LoggedOut, Reads-LoggedOut, revoked_LoggedOut,
}
use auth_login_load_balancin.Service.Auth.Refresh.{
  reuse, issue, rotate, refresh_found, refresh_access_token, is_spent, unknown_token,
}

-- Any error but the report of a reuse.
abbrev NotReuse : Error → Type 0
NotReuse e = e ≢ refresh_token_reuse_detected

module _ {S D O : Type 0} (p : Platform S D O) (v : Views S D O) (l : Laws p v)
    (c : AuthConfig) where
  revoke_sessions-Fails :
      (user : String) → FailsWith IsRepositoryError (Session.revoke_all_by_user_id p user)
  unfolding Session.revoke_all_by_user_id
  revoke_sessions-Fails user = update_sessions-Fails p v l _ _

  -- The report of a reuse is made only after everything of the token's user has been revoked.
  pub reuse-LoggedOut :
      (token : RefreshToken) (m : RequestMetadata) (w : World S D O) {t : World S D O}
      → IsIndexed p v w
      → reuse p c token m w ≡ (err refresh_token_reuse_detected, t)
      → LoggedOut p v token.user_id w t
  unfolding reuse
  reuse-LoggedOut token m w indexed h = elim (>>=-eq-err _ _ w h) [
    | inl failed ↦ absurd (cc ((revoke_all_by_user-Fails p v l token.user_id).at w _ _ failed))
    | inr (_, t₁, revokes, h₁) ↦ elim (>>=-eq-err _ _ t₁ h₁) [
      | inl failed ↦ absurd (cc ((revoke_sessions-Fails token.user_id).at t₁ _ _ failed))
      | inr (_, t₂, ends, h₂) ↦
          Quiet-LoggedOut p v (revoked_LoggedOut p v l _ w t₁ indexed revokes ends) (
            Keeps-after
              (Keeps-bind (Quiet-preorder v) _ _ (log_auth_event-Quiet p v l c _ _ m _)
                (λ _. Keeps-raise (Quiet-preorder v) _))
              t₂ h₂)
    ]
  ]

  NotReuse-of_IsRepositoryError :
      {A : Type 0} {x : Exec (World S D O) A} → FailsWith IsRepositoryError x → FailsWith NotReuse x
  NotReuse-of_IsRepositoryError k = record { at = λ s e t h q. cc (k.at s e t h, q) }

  no_error : {A : Type 0} {x : Exec (World S D O) A} → FailsWith (λ _. ⊥) x → FailsWith NotReuse x
  no_error k = record { at = λ s e t h. absurd (k.at s e t h) }

  update_last_used_at-Fails :
      (id : String) (now : ℕ) → FailsWith IsRepositoryError (Session.update_last_used_at p id now)
  unfolding Session.update_last_used_at
  update_last_used_at-Fails id now = update_sessions-Fails p v l _ _

  issue-Fails :
      (token : RefreshToken) (user : User) (access : String × ℤ) (m : RequestMetadata)
      → FailsWith NotReuse (issue p c token user access m)
  unfolding issue
  issue-Fails token user access m =
      FailsWith-bind _ _ (NotReuse-of_IsRepositoryError (generate_refresh_token-Fails p v l _ _))
        (λ fresh. FailsWith-bind _ _ (NotReuse-of_IsRepositoryError (create-Fails p v l _)) (λ _.
          FailsWith-bind _ _ (NotReuse-of_IsRepositoryError (current_time-Fails p v l)) (λ now.
            FailsWith-bind _ _ (NotReuse-of_IsRepositoryError (update_last_used_at-Fails _ _)) (λ _.
              FailsWith-bind _ _ (no_error (log_auth_event-Fails p c _ _ m _))
                (λ _. FailsWith-pure _)))))

  rotate-Fails :
      (token : RefreshToken) (m : RequestMetadata) → FailsWith NotReuse (rotate p c token m)
  unfolding rotate
  rotate-Fails token m =
      FailsWith-bind _ _
        (FailsWith-catch IsRepositoryError _ _ (find_user_by_id-Fails p v l _)
          (λ e h. FailsWith-if _ _ _ (FailsWith-raise _ (λ q. cc)) (FailsWith-raise e (λ q. cc))))
        (λ user.
          FailsWith-bind _ _
            (NotReuse-of_IsRepositoryError (generate_access_token-Fails p v l _ _ _))
            (λ access.
              FailsWith-bind _ _
                (FailsWith-catch IsRepositoryError _ _ (update_status-Fails p v l _ _) (λ e h.
                  FailsWith-if _ _ _ (FailsWith-raise _ (λ q. cc)) (FailsWith-raise e (λ q. cc))))
                (λ _. issue-Fails token user access m)))

  refused-Fails :
      {A : Type 0} (user_id : Option String) (event : String) (m : RequestMetadata)
      (extra : List (String × String))
      → FailsWith NotReuse
          (log_auth_event p c user_id event m extra >> raise {A = A} invalid_refresh_token)
  refused-Fails user_id event m extra =
      FailsWith-bind _ _ (no_error (log_auth_event-Fails p c _ _ m _))
        (λ _. FailsWith-raise _ (λ q. cc))

  lookup-Fails :
      (value : String) (m : RequestMetadata)
      → FailsWith NotReuse (catch (find_by_token p value) (unknown_token p c m))
  lookup-Fails value m =
      FailsWith-catch IsRepositoryError _ _ (find_by_token-Fails p v l value)
        (λ e h. FailsWith-if _ _ _ (refused-Fails _ _ m _) (FailsWith-raise e (λ q. cc)))

  is_spent-Fails : (token : RefreshToken) → FailsWith NotReuse (is_spent p c token)
  unfolding is_spent
  is_spent-Fails token =
      FailsWith-if (token.status == "ACTIVE") _ _
        (FailsWith-bind _ _ (NotReuse-of_IsRepositoryError (current_time-Fails p v l))
          (λ now. FailsWith-pure _))
        (FailsWith-pure _)

  rest-Fails :
      (token : RefreshToken) (m : RequestMetadata)
      → FailsWith NotReuse (do
        spent ← is_spent p c token
        if spent
            then (log_auth_event p c (some token.user_id) "refresh_failure" m (
                  ("session_id", token.session_id)
                  ∷ ("reason", error_text invalid_refresh_token)
                  ∷ [])
                >> raise invalid_refresh_token)
            else rotate p c token m)
  rest-Fails token m =
      FailsWith-bind _ _ (is_spent-Fails token)
        (λ spent. FailsWith-if spent _ _ (refused-Fails _ _ m _) (rotate-Fails token m))

  -- From the check of the token on.
  refresh_found-LoggedOut :
      (token : RefreshToken) (m : RequestMetadata) (w : World S D O) {t : World S D O}
      → IsIndexed p v w
      → refresh_found p c token m w ≡ (err refresh_token_reuse_detected, t)
      → (token.status ≡ "USED") × LoggedOut p v token.user_id w t
  unfolding refresh_found
  refresh_found-LoggedOut token m w indexed h = elim (Bool-cases (token.status == "USED")) [
    | inl used ↦ ((eq_iff _ _).0 used, reuse-LoggedOut token m w indexed (rw used at h))
    | inr other ↦ absurd ((rest-Fails token m).at w _ _ (rw other at h) refl)
  ]

  -- If every record is in the sets of its user and session, then a RefreshAccessToken that reports a
  -- reuse has been given a token whose record was USED, and has
  -- logged its user out everywhere: every token with a record of that user is dead, and no session of
  -- that user is ACTIVE.
  pub refresh_access_token_reuse :
      (value : String) (m : RequestMetadata) (w : World S D O) {t : World S D O}
      → IsIndexed p v w
      → refresh_access_token p c value m w ≡ (err refresh_token_reuse_detected, t)
      → (r : RefreshTokenRecord) × (record_at p v w (trim_space value) ≡ some r)
        × (r.status ≡ "USED")
        × LoggedOut p v r.user_id w t
  unfolding refresh_access_token
  refresh_access_token_reuse value m w indexed h = elim (Bool-cases (trim_space value == "")) [
    | inl blank ↦ absurd ((refused-Fails none "refresh_failure" m _).at w _ _ (rw blank at h) refl)
    | inr filled ↦ elim (>>=-eq-err _ _ w (rw filled at h)) [
      | inl lost ↦ absurd ((lookup-Fails (trim_space value) m).at w _ _ lost refl)
      | inr (token, t₁, finds, h₁) ↦
          let (at, _, reads) = lookup_found p v l c (trim_space value) m w finds in
          let (used, out) =
            refresh_found-LoggedOut token m t₁ (Reads-IsIndexed p v l indexed reads) h₁ in
          (to_record token, at, used, Reads-LoggedOut p v reads out)
    ]
  ]
