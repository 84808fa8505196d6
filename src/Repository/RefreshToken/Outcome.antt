-- ===== src/Repository/RefreshToken/Outcome.antt =====
-- What FindByToken and UpdateStatus report: a success, and "not found".
use auth_login_load_balancin.Prelude.{
  ◌≤◌, ◌<◌, String, ◌≡◌, refl, some, none, arith, inl, inr, Bool-cases, true,
}
use auth_login_load_balancin.Prelude.Exec.{
  ok, err, catch, >>=-eq-ok, ran, >>=-eq-err, catch-eq-err, lift-eq-ok, lift-eq-err, pure-ne-err,
  raise-eq-err, raise-ne-ok,
}
use auth_login_load_balancin.Prelude.Exec.Keeps.{Keeps-after}
use auth_login_load_balancin.Prelude.Int.{ℤ, pos, leb_ℤ}
use auth_login_load_balancin.Errors.{refresh_token_not_found, is_redis_nil, redis_nil_of_is}
use auth_login_load_balancin.Go.Time.{sub-pos_iff}
use auth_login_load_balancin.Model.{RefreshToken}
use auth_login_load_balancin.Platform.{Platform, World, RefreshTokenRecord, on_cache}
use auth_login_load_balancin.Platform.Laws.{Views, Laws}
use auth_login_load_balancin.Platform.Reads.{Reads-preorder, on_cache_eq}
use auth_login_load_balancin.Repository.Clock.{time_until}
use auth_login_load_balancin.Repository.Clock.Laws.{
  time_until-Reads, time_until-eq-ok, time_until-ne-err,
}
use auth_login_load_balancin.Repository.RefreshToken.{
  redis_refresh_token_key, to_record, find_by_token, update_status, not_found_of_nil,
}
use auth_login_load_balancin.Repository.RefreshToken.View.{
  record_at, Reads-record_at, find_by_token-Reads, find_by_token-record_at,
}

module _ {S D O : Type 0} (p : Platform S D O) (v : Views S D O) (l : Laws p v) where
  -- A key that is reported as missing is missing.
  get_missing :
      (token : String) (w : World S D O) {t : World S D O}
      → catch (on_cache (p.redis.get (redis_refresh_token_key token))) (not_found_of_nil p) w
        ≡ (err refresh_token_not_found, t)
      → v.redis.value t.cache (redis_refresh_token_key token) ≡ none
  get_missing token w {t} h =
      let (e, u, failed, rescued) = catch-eq-err _ _ w h in
      let (got, _, _) = on_cache_eq _ failed in
      elim (Bool-cases (is_redis_nil e)) [
        | inl nil ↦
            let (_, same) = raise-eq-err _ u (rw nil at rescued) in
            rw (← same) (l.redis.get_nil _ _ (rw (redis_nil_of_is e nil) at got))
        | inr more ↦
            let (is_own, _) = raise-eq-err _ u (rw more at rescued) in
            absurd (cc ((l.redis.get_foreign _).at _ _ _ (rw is_own at got)))
      ]

  -- A token that is reported as not found has no record.
  pub find_by_token_not_found :
      (token : String) (w : World S D O) {t : World S D O}
      → find_by_token p token w ≡ (err refresh_token_not_found, t)
      → record_at p v t token ≡ none
  unfolding find_by_token record_at
  find_by_token_not_found token w h = elim (>>=-eq-err _ _ w h) [
    | inl missing ↦ rw (get_missing token w missing) refl
    | inr (value, t, got, h₁) ↦ elim (>>=-eq-err _ _ t h₁) [
      | inl bad ↦ absurd (cc (l.json.unmarshal_foreign _ _ (lift-eq-err _ t bad).0))
      | inr (r, u, parses, h₂) ↦ absurd (pure-ne-err _ u h₂)
    ]
  ]

  -- An UpdateStatus that reports success has found a record of the token, which had not expired, and
  -- the record is now the same with the new status.
  pub update_status-eq-ok :
      (token status : String) (w : World S D O) {t : World S D O}
      → update_status p token status w ≡ (ok tt, t)
      → (r : RefreshTokenRecord) × (record_at p v w token ≡ some r)
        × (record_at p v t token ≡ some (record r { status = status }))
        × (v.time w.os < r.expires_at)
  unfolding update_status record_at
  update_status-eq-ok token status w h = elim (>>=-eq-ok _ _ w h) [
    | ran found t₁ finds h₁ ↦ elim (>>=-eq-ok _ _ t₁ h₁) [
      | ran payload t₂ marshals h₂ ↦ elim (>>=-eq-ok _ _ t₂ h₂) [
        | ran ttl t₃ timed h₃ ↦ elim (Bool-cases (leb_ℤ ttl (pos 0))) [
          | inl late ↦ absurd (raise-ne-ok _ t₃ (rw late at h₃))
          | inr live ↦
              let (made, same) = lift-eq-ok _ t₁ marshals in
              let (now, ttl_is, after, _) = time_until-eq-ok p v l _ t₂ timed in
              let (written, _, _) = on_cache_eq _ (rw live at h₃) in
              let early : now < found.expires_at = (sub-pos_iff _ _).0 (rw ttl_is at live) in
              let from : v.time t₁.os ≤ now = rw (← same) at after in
              let reads = Keeps-after (find_by_token-Reads p v l token) w finds in
              (
                to_record found,
                (find_by_token-record_at p v l token w finds).0,
                rw ((l.redis.set_ok _ _ _ _ written).1, l.json.roundtrip _ made) refl,
                omega (arith, reads.clock),
              )
        ]
      ]
    ]
  ]

  -- Where the lifetime that is left is spent, the record has expired.
  expired_record :
      (token : String) (w t u : World S D O) {found : RefreshToken} {ttl : ℤ}
      → find_by_token p token w ≡ (ok found, t)
      → time_until p found.expires_at t ≡ (ok ttl, u)
      → leb_ℤ ttl (pos 0) ≡ true
      → (r : RefreshTokenRecord) → record_at p v u token ≡ some r
      → r.expires_at ≤ v.time u.os
  expired_record token w t u {found} finds timed late r at =
      let (now, ttl_is, _, before) = time_until-eq-ok p v l _ t timed in
      let reads =
        (Reads-preorder v).trans w t u (Keeps-after (find_by_token-Reads p v l token) w finds)
          (Keeps-after (time_until-Reads p v l _) t timed) in
      let (found_at, _) = find_by_token-record_at p v l token w finds in
      let spent : ¬ (now < found.expires_at) =
        λ early. cc (rw ttl_is at late, (sub-pos_iff found.expires_at now).1 early) in
      elim (Reads-record_at p v w u token reads) [
        | inl as_before ↦
            let same : r.expires_at ≡ found.expires_at = cc (as_before, at, found_at) in omega arith
        | inr gone ↦ absurd (cc (gone, at))
      ]

  -- Where UpdateStatus reports that the token was not found, a record that the token still has
  -- afterwards has expired.
  pub update_status_not_found :
      (token status : String) (w : World S D O) {t : World S D O}
      → update_status p token status w ≡ (err refresh_token_not_found, t)
      → (r : RefreshTokenRecord) → record_at p v t token ≡ some r
      → r.expires_at ≤ v.time t.os
  unfolding update_status
  update_status_not_found token status w {t} h r at = elim (>>=-eq-err _ _ w h) [
    | inl missing ↦ absurd (cc (find_by_token_not_found token w missing, at))
    | inr (found, t₁, finds, h₁) ↦ elim (>>=-eq-err _ _ t₁ h₁) [
      | inl bad ↦ absurd (cc (l.json.marshal_foreign _ _ (lift-eq-err _ t₁ bad).0))
      | inr (payload, t₂, marshals, h₂) ↦ elim (>>=-eq-err _ _ t₂ h₂) [
        | inl bad ↦ absurd (time_until-ne-err p v l _ t₂ bad)
        | inr (ttl, t₃, timed, h₃) ↦ elim (Bool-cases (leb_ℤ ttl (pos 0))) [
          | inl late ↦
              let (_, ends) = raise-eq-err _ t₃ (rw late at h₃) in
              let (_, same) = lift-eq-ok _ t₁ marshals in
              rw (← ends) (
                expired_record token w t₁ t₃ finds (rw (← same) at timed) late r
                  (rw (← ends) at at))
          | inr live ↦
              let (failed, _, _) = on_cache_eq _ (rw live at h₃) in
              absurd (cc ((l.redis.set_foreign _ _ _).at _ _ _ failed))
        ]
      ]
    ]
  ]
