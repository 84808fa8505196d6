-- ===== src/Repository/RefreshToken/Status.antt =====
-- What UpdateStatus does to the records of all tokens, on every path.
use auth_login_load_balancin.Prelude.{
  ◌≤◌, String, ◌≡◌, ◌⊎◌, refl, Option, some, arith, inl, inr, Bool-cases, eq_refl, [], ◌∷◌,
  String-cases, ==-eq-false_of_ne, if◌then◌else◌,
}
use auth_login_load_balancin.Prelude.Exec.{ok, >>=-then, lift-eq-ok, lift, raise, ◌>>=◌}
use auth_login_load_balancin.Prelude.Exec.Keeps.{Keeps-lift, Keeps-raise, Keeps-after}
use auth_login_load_balancin.Prelude.Int.{ℤ, pos, leb_ℤ}
use auth_login_load_balancin.Errors.{refresh_token_not_found}
use auth_login_load_balancin.Model.{RefreshToken}
use auth_login_load_balancin.Repository.Clock.{time_until}
use auth_login_load_balancin.Repository.Clock.Laws.{time_until-Reads}
use auth_login_load_balancin.Platform.{Platform, World, RefreshTokenRecord, on_cache, set}
use auth_login_load_balancin.Platform.Laws.{Aged, Applied, Views, Laws}
use auth_login_load_balancin.Platform.Reads.{Reads, Reads-preorder}
use auth_login_load_balancin.Repository.RefreshToken.{
  redis_refresh_token_key, to_record, find_by_token, update_status,
}
use auth_login_load_balancin.Repository.RefreshToken.View.{
  Faded, token_of_key, record_at, Aged-decoded, Reads-record_at, find_by_token-Reads,
  find_by_token-record_at,
}

module _ {S D O : Type 0} (p : Platform S D O) (v : Views S D O) where
  -- The record of `token` has been written, or nothing has; other records are as before. Any
  -- record may have expired.
  abbrev pub Wrote : String → RefreshTokenRecord → World S D O → World S D O → Type 0
  Wrote token r w t =
      (other : String)
      → Faded (record_at p v w other) (record_at p v t other)
        ⊎ ((other ≡ token) × (record_at p v t other ≡ some r))

  -- The status of `token` has been changed, or nothing has.
  pub record Restated (token status : String) (w t : World S D O) : Type 0 where
    pub records :
        (other : String)
        → Faded (record_at p v w other) (record_at p v t other)
          ⊎ ((other ≡ token)
              × ((r : RefreshTokenRecord) × (record_at p v w token ≡ some r)
                  × (record_at p v t other ≡ some (record r { status = status }))))
    pub kept : (k m : String) → v.redis.member w.cache k m → v.redis.member t.cache k m
    pub db : t.db ≡ w.db
    pub clock : v.time w.os ≤ v.time t.os

  Reads-Restated :
      (token status : String) {w t : World S D O} → Reads v w t → Restated token status w t
  Reads-Restated token status {w} {t} r = record {
    records = λ other. inl (Reads-record_at p v w t other r);
    kept = r.cache.kept;
    db = r.db;
    clock = r.clock;
  }

  pub Applied-set-Wrote :
      (token text : String) (d : ℤ) (r : RefreshTokenRecord) (w t : World S D O)
      → p.lib.unmarshal_record text ≡ ok r
      → Applied v.redis (set (redis_refresh_token_key token) text d ∷ []) w.cache t.cache
      → Wrote token r w t
  unfolding record_at
  Applied-set-Wrote token text d r w t parses a other = elim (String-cases token other) [
    | inl same ↦
        let h : Aged (some text) (v.redis.value t.cache (redis_refresh_token_key token)) =
          rw eq_refl at (a.values (redis_refresh_token_key token)) in
        rw (← same)
          (elim h [ inl e ↦ inr (refl, rw (e, parses) refl) | inr e ↦ inl (inr (rw e refl)) ])
    | inr differ ↦
        let h : Aged (v.redis.value w.cache (redis_refresh_token_key other))
            (v.redis.value t.cache (redis_refresh_token_key other)) =
          rw (==-eq-false_of_ne _ _ (λ k. differ (token_of_key _ _ k))) at
            (a.values (redis_refresh_token_key other)) in
        inl (Aged-decoded p v _ _ h)
  ]

  module _ (l : Laws p v) where
    -- What a SET of a token's key does, whether it is reported as a success or not.
    set-Restated :
        (token status text : String) (d : ℤ) (r : RefreshTokenRecord) (w u : World S D O)
        → p.lib.unmarshal_record text ≡ ok (record r { status = status })
        → record_at p v w token ≡ some r
        → Reads v w u
        → Restated token status w
            (on_cache (p.redis.set (redis_refresh_token_key token) text d) u).1
    unfolding on_cache
    set-Restated token status text d r w u parses found reads =
        elim (l.redis.set_writes (redis_refresh_token_key token) text d u.cache) [
          | inl a ↦ Reads-Restated token status (
              (Reads-preorder v).trans w u _ reads
                (record { cache = a; db = refl; clock = omega arith }))
          | inr a ↦ record {
            records = λ other.
                merge other (Reads-record_at p v w u other reads) (
                  Applied-set-Wrote token text d (record r { status = status }) u _ parses a other);
            kept = λ k m h. a.kept k m (reads.cache.kept k m h);
            db = reads.db;
            clock = reads.clock;
          }
        ]
      where
        merge :
            (other : String) {b c : Option RefreshTokenRecord}
            → Faded (record_at p v w other) b
            → Faded b c ⊎ ((other ≡ token) × (c ≡ some (record r { status = status })))
            → Faded (record_at p v w other) c
              ⊎ ((other ≡ token)
                  × ((q : RefreshTokenRecord) × (record_at p v w token ≡ some q)
                      × (c ≡ some (record q { status = status }))))
        merge other x (inl y) = inl (ground arith)
        merge other x (inr (same, e)) = inr (same, (r, found, e))

    -- UpdateStatus, whether it reports success or an error, changes the status of its token's record
    -- or nothing: no other record and no other field changes, but that records may expire; no member
    -- leaves a set, and the database is untouched.
    pub update_status-Restated :
        (token status : String) (w : World S D O)
        → Restated token status w (update_status p token status w).1
    unfolding update_status
    update_status-Restated token status w =
        >>=-then (Restated token status w) _ _ w
          (λ found t h. after_find found t h (Keeps-after (find_by_token-Reads p v l token) w h))
          (λ e t h. Reads-Restated token status (Keeps-after (find_by_token-Reads p v l token) w h))
      where
        later : {t u : World S D O} → Reads v w t → Reads v t u → Reads v w u
        later a b = (Reads-preorder v).trans w _ _ a b

        final :
            (found : RefreshToken) (payload : String) (ttl : ℤ) (u : World S D O)
            → record_at p v w token ≡ some (to_record found)
            → p.lib.marshal_record (to_record (record found { status = status })) ≡ ok payload
            → Reads v w u
            → Restated token status w
                ((if leb_ℤ ttl (pos 0)
                    then raise refresh_token_not_found
                    else on_cache (p.redis.set (redis_refresh_token_key token) payload ttl))
                  u).1
        final found payload ttl u at made reads = elim (Bool-cases (leb_ℤ ttl (pos 0))) [
          | inl late ↦
              rw late (
                Reads-Restated token status (later reads ((Keeps-raise (Reads-preorder v) _).at u)))
          | inr live ↦
              rw live
                (set-Restated token status payload ttl _ w u (l.json.roundtrip _ made) at reads)
        ]

        after_find :
            (found : RefreshToken) (t : World S D O)
            → find_by_token p token w ≡ (ok found, t)
            → Reads v w t
            → Restated token status w
                ((do
                  payload ←
                      lift (p.lib.marshal_record (to_record (record found { status = status })))
                  ttl ← time_until p found.expires_at
                  if leb_ℤ ttl (pos 0)
                      then raise refresh_token_not_found
                      else on_cache (p.redis.set (redis_refresh_token_key token) payload ttl))
                  t).1
        after_find found t h reads =
            >>=-then (Restated token status w) _ _ t
              (λ payload u marshals.
                >>=-then (Restated token status w) _ _ u
                  (λ ttl x timed.
                    final found payload ttl x (find_by_token-record_at p v l token w h).0
                      (lift-eq-ok _ _ marshals).0
                      (later
                        (later reads (Keeps-after (Keeps-lift (Reads-preorder v) _) t marshals))
                        (Keeps-after (time_until-Reads p v l _) u timed)))
                  (λ e x timed. Reads-Restated token status (
                    later (later reads (Keeps-after (Keeps-lift (Reads-preorder v) _) t marshals))
                      (Keeps-after (time_until-Reads p v l _) u timed))))
              (λ e u marshals.
                Reads-Restated token status
                  (later reads (Keeps-after (Keeps-lift (Reads-preorder v) _) t marshals)))
