-- ===== src/Repository/RefreshToken/Index.antt =====
-- Create, and the sets that list the tokens of a user and of a session.
use auth_login_load_balancin.Prelude.{
  ◌≤◌, ◌<◌, String, ◌≡◌, refl, some, arith, inl, inr, Bool-cases, if◌then◌else◌, List, [], ◌∷◌,
  eq_refl,
}
use auth_login_load_balancin.Prelude.Exec.{
  Result, ok, raise, ran, lift, >>=-eq-ok, >>=-then, lift-eq-ok, raise-ne-ok,
}
use auth_login_load_balancin.Prelude.Exec.Keeps.{Keeps-after, Keeps-lift, Keeps-raise}
use auth_login_load_balancin.Prelude.Int.{ℤ, pos, leb_ℤ}
use auth_login_load_balancin.Errors.{refresh_token_not_found}
use auth_login_load_balancin.Go.Time.{sub-pos_iff}
use auth_login_load_balancin.Model.{RefreshToken}
use auth_login_load_balancin.Platform.{
  Platform, World, Command, RefreshTokenRecord, on_cache, set, sadd,
}
use auth_login_load_balancin.Platform.Laws.{Views, Laws}
use auth_login_load_balancin.Platform.Reads.{Reads, Reads-preorder, on_cache_eq}
use auth_login_load_balancin.Repository.Clock.{time_until}
use auth_login_load_balancin.Repository.Clock.Laws.{time_until-eq-ok, time_until-Reads}
use auth_login_load_balancin.Repository.RefreshToken.{
  redis_refresh_token_key, redis_user_refresh_tokens_key, redis_session_refresh_tokens_key,
  to_record, create, update_status, revoke_all_by_user, revoke_all_by_session,
}
use auth_login_load_balancin.Repository.RefreshToken.View.{record_at, Reads-record_at}
use auth_login_load_balancin.Repository.RefreshToken.Status.{
  Applied-set-Wrote, update_status-Restated,
}
use auth_login_load_balancin.Repository.RefreshToken.Revocation.{
  IsDead, revoke_all_by_user-IsDead, revoke_all_by_session-IsDead,
}

-- The commands that Create queues.
abbrev pub create_commands : RefreshToken → String → ℤ → List Command
create_commands token payload ttl =
    set (redis_refresh_token_key token.token) payload ttl
    ∷ sadd (redis_user_refresh_tokens_key token.user_id) token.token
    ∷ sadd (redis_session_refresh_tokens_key token.session_id) token.token
    ∷ []

module _ {S D O : Type 0} (p : Platform S D O) (v : Views S D O) where
  abbrev pub IsListed : S → String → RefreshTokenRecord → Type 0
  IsListed s token r =
      v.redis.member s (redis_user_refresh_tokens_key r.user_id) token
      × v.redis.member s (redis_session_refresh_tokens_key r.session_id) token

  -- Every token that has a record is in the sets of the record's user and session.
  abbrev pub IsIndexed : World S D O → Type 0
  IsIndexed w =
      (token : String) (r : RefreshTokenRecord)
      → record_at p v w token ≡ some r
      → IsListed w.cache token r

  IsListed-kept :
      (s t : S) {x : String}
      → ((k m : String) → v.redis.member s k m → v.redis.member t k m)
      → (r : RefreshTokenRecord) → IsListed s x r
      → IsListed t x r
  IsListed-kept s t kept r m = (kept _ _ m.0, kept _ _ m.1)

  module _ (l : Laws p v) where
    -- A Create that reports success has stored the token's record and put the token in the sets of
    -- its user and session, and had been called before the token expired.
    pub create-eq-ok :
        (token : RefreshToken) (w : World S D O) {t : World S D O}
        → create p token w ≡ (ok tt, t)
        → (record_at p v t token.token ≡ some (to_record token))
          × IsListed t.cache token.token (to_record token)
          × (v.time w.os < token.expires_at)
    unfolding create record_at
    create-eq-ok token w h = elim (>>=-eq-ok _ _ w h) [
      | ran payload t₁ marshals h₁ ↦ elim (>>=-eq-ok _ _ t₁ h₁) [
        | ran ttl t₂ timed h₂ ↦ elim (Bool-cases (leb_ℤ ttl (pos 0))) [
          | inl late ↦ absurd (raise-ne-ok _ t₂ (rw late at h₂))
          | inr live ↦
              let (made, same) = lift-eq-ok _ w marshals in
              let (now, ttl_is, after, _) = time_until-eq-ok p v l _ t₁ timed in
              let (written, _, _) = on_cache_eq _ (rw live at h₂) in
              let (applied, present) =
                l.redis.exec_ok (create_commands token payload ttl) _ written in
              let early : now < token.expires_at = (sub-pos_iff _ _).0 (rw ttl_is at live) in
              let from : v.time w.os ≤ now = rw (← same) at after in
              (
                rw
                    (
                      present (redis_refresh_token_key token.token) payload (rw eq_refl refl),
                      l.json.roundtrip _ made,
                    )
                    refl,
                (applied.added _ _ (inl (refl, refl)), applied.added _ _ (inr (inl (refl, refl)))),
                omega arith,
              )
        ]
      ]
    ]

    -- If every record is in the sets of its user and session before an UpdateStatus, then so it is
    -- after it, whether the UpdateStatus reports success or an error.
    pub update_status-IsIndexed :
        (token status : String) (w : World S D O)
        → IsIndexed w
        → IsIndexed (update_status p token status w).1
    update_status-IsIndexed token status w h x r at =
        let e = update_status-Restated p v l token status w in
        elim (e.records x) [
          | inl (inl same) ↦ IsListed-kept _ _ e.kept r (h x r (cc (same, at)))
          | inl (inr gone) ↦ absurd (cc (gone, at))
          | inr (same, (old, found, now)) ↦
              let users : r.user_id ≡ old.user_id = cc (at, now) in
              let sessions : r.session_id ≡ old.session_id = cc (at, now) in
              rw (users, sessions) (IsListed-kept _ _ e.kept old (h x old (rw same found)))
        ]

    pub Reads-IsIndexed : {w t : World S D O} → IsIndexed w → Reads v w t → IsIndexed t
    Reads-IsIndexed {w} {t} h reads x r at = elim (Reads-record_at p v w t x reads) [
      | inl same ↦ IsListed-kept _ _ reads.cache.kept r (h x r (cc (same, at)))
      | inr gone ↦ absurd (cc (gone, at))
    ]

    -- The transaction of Create, on every outcome.
    exec-IsIndexed :
        (token : RefreshToken) (payload : String) (ttl : ℤ) (w : World S D O)
        → p.lib.unmarshal_record payload ≡ ok (to_record token)
        → IsIndexed w
        → IsIndexed
            (on_cache {D = D} {O = O} (p.redis.exec (create_commands token payload ttl)) w).1
    unfolding on_cache
    exec-IsIndexed token payload ttl w parses h =
        elim (l.redis.exec_writes (create_commands token payload ttl) w.cache) [
          | inl a ↦ Reads-IsIndexed h (record { cache = a; db = refl; clock = omega arith })
          | inr a ↦ λ x r at.
              elim (Applied-set-Wrote p v token.token payload ttl (to_record token) w
                (record w { cache = (p.redis.exec (create_commands token payload ttl) w.cache).1 })
                parses (record { values = a.values; kept = a.kept; added = λ k m q. elim q [ ] })
                x) [
                  | inl (inl same) ↦ IsListed-kept _ _ a.kept r (h x r (cc (same, at)))
                  | inl (inr gone) ↦ absurd (cc (gone, at))
                  | inr (same, now) ↦
                      let users : r.user_id ≡ token.user_id = cc (at, now) in
                      let sessions : r.session_id ≡ token.session_id = cc (at, now) in
                      rw (same, users, sessions)
                        (a.added _ _ (inl (refl, refl)), a.added _ _ (inr (inl (refl, refl))))
                ]
        ]

    -- If every record is in the sets of its user and session before a Create, then so it is after it,
    -- whether the Create reports success or an error.
    pub create-IsIndexed :
        (token : RefreshToken) (w : World S D O) → IsIndexed w → IsIndexed (create p token w).1
    unfolding create
    create-IsIndexed token w h =
        >>=-then IsIndexed _ _ w
          (λ payload t₁ marshals.
            >>=-then IsIndexed _ _ t₁
              (λ ttl t₂ timed.
                final payload ttl t₂ (lift-eq-ok _ w marshals).0 (later t₁ marshals timed))
              (λ e t₂ timed. later t₁ marshals timed))
          (λ e t₁ marshals.
            Reads-IsIndexed h (Keeps-after (Keeps-lift (Reads-preorder v) _) w marshals))
      where
        later :
            {a : Result String} {b : Result ℤ} (t₁ : World S D O) {t₂ : World S D O}
            → lift (p.lib.marshal_record (to_record token)) w ≡ (a, t₁)
            → time_until p token.expires_at t₁ ≡ (b, t₂)
            → IsIndexed t₂
        later t₁ marshals timed =
            Reads-IsIndexed
              (Reads-IsIndexed h (Keeps-after (Keeps-lift (Reads-preorder v) _) w marshals))
              (Keeps-after (time_until-Reads p v l _) t₁ timed)

        final :
            (payload : String) (ttl : ℤ) (t : World S D O)
            → p.lib.marshal_record (to_record token) ≡ ok payload
            → IsIndexed t
            → IsIndexed
                ((if leb_ℤ ttl (pos 0)
                    then raise refresh_token_not_found
                    else on_cache (p.redis.exec (create_commands token payload ttl)))
                  t).1
        final payload ttl t made indexed = elim (Bool-cases (leb_ℤ ttl (pos 0))) [
          | inl late ↦ rw late (Reads-IsIndexed indexed ((Keeps-raise (Reads-preorder v) _).at t))
          | inr live ↦
              rw live (exec-IsIndexed token payload ttl t (l.json.roundtrip _ made) indexed)
        ]

    -- If every record is in the sets of its user and session, then after a RevokeAllByUser that
    -- reports success every token whose record named the user is dead: it has no record, one that is
    -- neither ACTIVE nor USED, or one that has expired.
    pub revoke_all_by_user_complete :
        (user : String) (w : World S D O) {t : World S D O}
        → IsIndexed w
        → revoke_all_by_user p user w ≡ (ok tt, t)
        → (token : String) (r : RefreshTokenRecord) → record_at p v w token ≡ some r
        → r.user_id ≡ user
        → IsDead p v t token
    revoke_all_by_user_complete user w indexed h token r at mine =
        revoke_all_by_user-IsDead p v l user token w h (rw mine at ((indexed token r at).0))

    -- If every record is in the sets of its user and session, then after a RevokeAllBySession that
    -- reports success every token whose record named the session is dead: it has no record, one that
    -- is neither ACTIVE nor USED, or one that has expired.
    pub revoke_all_by_session_complete :
        (session : String) (w : World S D O) {t : World S D O}
        → IsIndexed w
        → revoke_all_by_session p session w ≡ (ok tt, t)
        → (token : String) (r : RefreshTokenRecord) → record_at p v w token ≡ some r
        → r.session_id ≡ session
        → IsDead p v t token
    revoke_all_by_session_complete session w indexed h token r at mine =
        revoke_all_by_session-IsDead p v l session token w h (rw mine at ((indexed token r at).1))
