-- ===== src/Repository/RefreshToken/Revocation.antt =====
-- RevokeByToken, RevokeAllBySession and RevokeAllByUser: what is revoked stays revoked.
use mathlib.Core.List.{Memᴰ}
use auth_login_load_balancin.Prelude.{
  ◌≤◌, String, ◌≡◌, ◌⊎◌, refl, some, arith, inl, inr, Bool-cases, false, if◌then◌else◌, List, [],
  ◌∷◌,
}
use auth_login_load_balancin.Prelude.Exec.{
  ok, err, pure, ◌>>=◌, ran, >>=-eq-ok, >>=-eq-err, catch-eq-ok, pure-eq-ok, pure-ne-err,
  raise-ne-ok, for_each,
}
use auth_login_load_balancin.Prelude.Exec.Keeps.{
  IsPreorder, Keeps, Keeps-pure, Keeps-raise, Keeps-bind, Keeps-catch, Keeps-if, Keeps-for_each,
  Keeps-after,
}
use auth_login_load_balancin.Errors.{
  refresh_token_not_found, is_refresh_token_not_found, refresh_token_not_found_of_is,
}
use auth_login_load_balancin.Platform.{Platform, World, RefreshTokenRecord, on_cache}
use auth_login_load_balancin.Platform.Laws.{Views, Laws}
use auth_login_load_balancin.Platform.Reads.{Reads, Reads-on_cache, on_cache_eq}
use auth_login_load_balancin.Repository.RefreshToken.{
  redis_user_refresh_tokens_key, redis_session_refresh_tokens_key, find_by_token, update_status,
  revoke_by_token, revoke_listed, revoke_all_by_session, revoke_all_by_user, is_revocable,
}
use auth_login_load_balancin.Repository.RefreshToken.View.{
  record_at, Reads-record_at, find_by_token-Reads, find_by_token-record_at,
}
use auth_login_load_balancin.Repository.RefreshToken.Status.{Restated, update_status-Restated}
use auth_login_load_balancin.Repository.RefreshToken.Outcome.{
  find_by_token_not_found, update_status-eq-ok, update_status_not_found,
}

module _ {S D O : Type 0} (p : Platform S D O) (v : Views S D O) where
  -- A token is dead if it has no record, a record that is neither ACTIVE nor USED, or a record that
  -- has expired.
  abbrev pub IsDead : World S D O → String → Type 0
  IsDead w token =
      (r : RefreshTokenRecord)
      → record_at p v w token ≡ some r
      → (is_revocable r.status ≡ false) ⊎ (r.expires_at ≤ v.time w.os)

  -- No token comes back to life; sets of tokens keep their members; the database is untouched.
  pub record Revoking (w t : World S D O) : Type 0 where
    pub dead : (token : String) → IsDead w token → IsDead t token
    pub kept : (k m : String) → v.redis.member w.cache k m → v.redis.member t.cache k m
    pub db : t.db ≡ w.db
    pub clock : v.time w.os ≤ v.time t.os

  pub Revoking-preorder : IsPreorder Revoking
  Revoking-preorder = record {
    refl = λ w. record { dead = λ x h. h; kept = λ k m h. h; db = refl; clock = omega arith };
    trans = λ w t u a b. record {
      dead = λ x h. b.dead x (a.dead x h);
      kept = λ k m h. b.kept k m (a.kept k m h);
      db = cc (a.db, b.db);
      clock = omega arith;
    };
  }

  pub Reads-Revoking : {w t : World S D O} → Reads v w t → Revoking w t
  Reads-Revoking {w} {t} r = record {
    dead = λ x h q at. ground (arith, r.clock, Reads-record_at p v w t x r, h q);
    kept = r.cache.kept;
    db = r.db;
    clock = r.clock;
  }

  Restated-Revoking :
      (token : String) {w t : World S D O} → Restated p v token "REVOKED" w t → Revoking w t
  Restated-Revoking token {w} {t} r = record {
    dead = λ x h q at. elim (r.records x) [
      | inl as_before ↦ ground (arith, r.clock, h q)
      | inr (same, (old, found, now)) ↦
          (let revoked : q.status ≡ "REVOKED" = cc (at, now) in inl (rw revoked refl))
    ];
    kept = r.kept;
    db = r.db;
    clock = r.clock;
  }

  module _ (l : Laws p v) where
    update_status-Revoking : (token : String) → Keeps Revoking (update_status p token "REVOKED")
    update_status-Revoking token = record {
      at = λ w. Restated-Revoking token (update_status-Restated p v l token "REVOKED" w);
    }

    find_by_token-Revoking : (token : String) → Keeps Revoking (find_by_token p token)
    find_by_token-Revoking token = record {
      at = λ w. Reads-Revoking ((find_by_token-Reads p v l token).at w);
    }

    smembers-Revoking :
        (key : String) → Keeps Revoking (on_cache {D = D} {O = O} (p.redis.smembers key))
    smembers-Revoking key = record {
      at = λ w. Reads-Revoking ((Reads-on_cache v _ (l.redis.smembers_reads key)).at w);
    }

    revoke_listed-Revoking : (token : String) → Keeps Revoking (revoke_listed p token)
    unfolding revoke_listed
    revoke_listed-Revoking token = search (
      Revoking-preorder, Keeps-pure, Keeps-raise, Keeps-bind, Keeps-catch, Keeps-if,
      update_status-Revoking, find_by_token-Revoking,
    )

    loop-Revoking : (tokens : List String) → Keeps Revoking (for_each tokens (revoke_listed p))
    loop-Revoking tokens = Keeps-for_each Revoking-preorder tokens _ revoke_listed-Revoking

    -- Whether or not it fails, RevokeByToken brings no token back to life.
    pub revoke_by_token-Revoking : (token : String) → Keeps Revoking (revoke_by_token p token)
    unfolding revoke_by_token
    revoke_by_token-Revoking token = update_status-Revoking token

    -- RevokeAllByUser, whether it reports success or an error, brings no dead token back to life,
    -- takes no member out of a set and leaves the database alone; the clock does not go back.
    pub revoke_all_by_user-Revoking : (user : String) → Keeps Revoking (revoke_all_by_user p user)
    unfolding revoke_all_by_user
    revoke_all_by_user-Revoking user =
        Keeps-bind Revoking-preorder _ _ (smembers-Revoking _) loop-Revoking

    pub revoke_all_by_session-Revoking :
        (session : String) → Keeps Revoking (revoke_all_by_session p session)
    unfolding revoke_all_by_session
    revoke_all_by_session-Revoking session =
        Keeps-bind Revoking-preorder _ _ (smembers-Revoking _) loop-Revoking

    -- A token whose status was changed to REVOKED is dead.
    pub revoked-IsDead :
        (token : String) (w : World S D O) {t : World S D O}
        → update_status p token "REVOKED" w ≡ (ok tt, t)
        → IsDead t token
    revoked-IsDead token w h r at =
        let (old, _, now, _) = update_status-eq-ok p v l token "REVOKED" w h in
        let revoked : r.status ≡ "REVOKED" = cc (at, now) in inl (rw revoked refl)

    -- The loop's body ends well only if its token is dead then.
    inner_ok :
        (token : String) (w : World S D O) {t : World S D O}
        → (do
          found ← find_by_token p token
          if is_revocable found.status then update_status p token "REVOKED" else pure tt)
            w
          ≡ (ok tt, t)
        → IsDead t token
    inner_ok token w h = elim (>>=-eq-ok _ _ w h) [
      | ran found u finds h₁ ↦ elim (Bool-cases (is_revocable found.status)) [
        | inl live ↦ revoked-IsDead token u (rw live at h₁)
        | inr dead ↦
            let (_, same) = pure-eq-ok _ u (rw dead at h₁) in
            let (at, _) = find_by_token-record_at p v l token w finds in
            rw (← same) (
              (Reads-Revoking (Keeps-after (find_by_token-Reads p v l token) w finds)).dead token
                (λ r found_r.
                  let e : r.status ≡ found.status = cc (at, found_r) in inl (rw e dead)))
      ]
    ]

    inner_not_found :
        (token : String) (w : World S D O) {t : World S D O}
        → (do
          found ← find_by_token p token
          if is_revocable found.status then update_status p token "REVOKED" else pure tt)
            w
          ≡ (err refresh_token_not_found, t)
        → IsDead t token
    inner_not_found token w h = elim (>>=-eq-err _ _ w h) [
      | inl missing ↦ λ r at. absurd (cc (find_by_token_not_found p v l token w missing, at))
      | inr (found, u, finds, h₁) ↦ elim (Bool-cases (is_revocable found.status)) [
        | inl live ↦
            λ r at. inr (update_status_not_found p v l token "REVOKED" u (rw live at h₁) r at)
        | inr dead ↦ absurd (pure-ne-err _ u (rw dead at h₁))
      ]
    ]

    revoke_listed-IsDead :
        (token : String) (w : World S D O) {t : World S D O}
        → revoke_listed p token w ≡ (ok tt, t)
        → IsDead t token
    unfolding revoke_listed
    revoke_listed-IsDead token w h = elim (catch-eq-ok _ _ w h) [
      | inl done ↦ inner_ok token w done
      | inr (e, u, failed, rescued) ↦ elim (Bool-cases (is_refresh_token_not_found e)) [
        | inl own ↦
            let (_, same) = pure-eq-ok _ u (rw own at rescued) in
            rw (← same)
              (inner_not_found token w (rw (refresh_token_not_found_of_is e own) at failed))
        | inr foreign ↦ absurd (raise-ne-ok _ u (rw foreign at rescued))
      ]
    ]

    loop-IsDead :
        (tokens : List String) (w : World S D O) {t : World S D O}
        → for_each tokens (revoke_listed p) w ≡ (ok tt, t)
        → (token : String) → Memᴰ token tokens
        → IsDead t token
    unfolding for_each
    loop-IsDead [] w h token m = elim m [ ]
    loop-IsDead (x ∷ xs) w h token (Memᴰ.head e) = elim (>>=-eq-ok _ _ w h) [
      | ran _ u done rest ↦
          rw e ((Keeps-after (loop-Revoking xs) u rest).dead x (revoke_listed-IsDead x w done))
    ]
    loop-IsDead (x ∷ xs) w h token (Memᴰ.tail m) = elim (>>=-eq-ok _ _ w h) [
      | ran _ u done rest ↦ loop-IsDead xs u rest token m
    ]

    -- RevokeAllByUser that reports success leaves no token of the user's set alive.
    pub revoke_all_by_user-IsDead :
        (user token : String) (w : World S D O) {t : World S D O}
        → revoke_all_by_user p user w ≡ (ok tt, t)
        → v.redis.member w.cache (redis_user_refresh_tokens_key user) token
        → IsDead t token
    unfolding revoke_all_by_user
    revoke_all_by_user-IsDead user token w h m = elim (>>=-eq-ok _ _ w h) [
      | ran tokens u listed loops ↦
          let (got, _, _) = on_cache_eq _ listed in
          loop-IsDead tokens u loops token (l.redis.smembers_all _ _ _ got m)
    ]

    -- RevokeAllBySession that reports success leaves no token of the session's set alive.
    pub revoke_all_by_session-IsDead :
        (session token : String) (w : World S D O) {t : World S D O}
        → revoke_all_by_session p session w ≡ (ok tt, t)
        → v.redis.member w.cache (redis_session_refresh_tokens_key session) token
        → IsDead t token
    unfolding revoke_all_by_session
    revoke_all_by_session-IsDead session token w h m = elim (>>=-eq-ok _ _ w h) [
      | ran tokens u listed loops ↦
          let (got, _, _) = on_cache_eq _ listed in
          loop-IsDead tokens u loops token (l.redis.smembers_all _ _ _ got m)
    ]
