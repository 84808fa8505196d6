-- ===== src/Service/Spent.antt =====
-- Refresh tokens that cannot be exchanged, and the calls that leave them so.
pub mod Kept
pub mod Issued
use auth_login_load_balancin.Prelude.{
  ℕ, ◌≤◌, String, ◌≡◌, ◌≢◌, ◌⊎◌, refl, List, [], ◌∷◌, Option, some, arith, inl, inr,
  ==-eq-false_of_ne,
}
use auth_login_load_balancin.Prelude.Int.{ℤ}
use auth_login_load_balancin.Prelude.Exec.{ok, ran, >>=-eq-ok, pure-eq-ok, Exec, ◌>>=◌}
use auth_login_load_balancin.Prelude.Exec.Keeps.{
  IsPreorder, Keeps, Keeps-pure, Keeps-raise, Keeps-lift, Keeps-bind, Keeps-catch, Keeps-if,
  Keeps-for_each, Keeps-after,
}
use auth_login_load_balancin.Model.{RefreshToken}
use auth_login_load_balancin.Platform.{
  Platform, World, RefreshTokenRecord, on_cache, on_db, on_os, total_os,
}
use auth_login_load_balancin.Platform.Laws.{Views, Laws, Aged, Applied}
use auth_login_load_balancin.Repository.Clock.{current_time, time_until}
use auth_login_load_balancin.Repository.RefreshToken as RefreshTokenRepository
use auth_login_load_balancin.Repository.RefreshToken.{
  redis_refresh_token_key, create, find_by_token, update_status, revoke_by_token, revoke_listed,
  revoke_all_by_session, revoke_all_by_user,
}
use auth_login_load_balancin.Repository.RefreshToken.View.{
  Faded, record_at, Aged-decoded, token_of_key,
}
use auth_login_load_balancin.Repository.RefreshToken.Index.{create_commands}
use auth_login_load_balancin.Repository.RefreshToken.Status.{update_status-Restated}
use auth_login_load_balancin.Service.Token as TokenService
use auth_login_load_balancin.Service.Token.{TokenConfig}

module _ {S D O : Type 0} (p : Platform S D O) (v : Views S D O) where
  -- The token has no record, a record that is not ACTIVE, or one that has expired.
  abbrev pub IsSpent : String → World S D O → Type 0
  IsSpent k w =
      (r : RefreshTokenRecord)
      → record_at p v w k ≡ some r
      → (r.status ≢ "ACTIVE") ⊎ (r.expires_at ≤ v.time w.os)

  -- From a state of the machine on for which `gone` holds, its entropy never gives the token again.
  pub record NeverAgain (k : String) (gone : O → Type 0) : Type 0 where
    pub now : (o : O) → gone o → gone (p.os.now o).1
    pub new_uuid : (o : O) → gone o → gone (p.os.new_uuid o).1
    pub rand_read : (n : ℕ) (o : O) → gone o → gone (p.os.rand_read n o).1
    pub generate :
        (password : String) (o : O) → gone o → gone (p.os.generate_from_password password o).1
    pub differs :
        (n : ℕ) (o : O) {bytes : List ℕ} {end : O}
        → gone o
        → p.os.rand_read n o ≡ (ok bytes, end)
        → p.lib.raw_url_encode bytes ≢ k

  -- What becomes of a token that cannot be exchanged.
  pub record Spends (k : String) (gone : O → Type 0) (w t : World S D O) : Type 0 where
    pub machine : gone w.os → gone t.os
    pub token : IsSpent k w → IsSpent k t

  module _ (l : Laws p v) (k : String) (gone : O → Type 0) (never : NeverAgain k gone) where
    pub Spends-preorder : IsPreorder (Spends k gone)
    Spends-preorder = record {
      refl = λ w. record { machine = λ g. g; token = λ s. s };
      trans = λ w t u a b. record {
        machine = λ g. b.machine (a.machine g);
        token = λ s. b.token (a.token s);
      };
    }

    pub Faded-IsSpent :
        (w t : World S D O)
        → Faded (record_at p v w k) (record_at p v t k)
        → v.time w.os ≤ v.time t.os
        → IsSpent k w
        → IsSpent k t
    Faded-IsSpent w t faded clock spent r at = elim faded [
      | inl same ↦ elim (spent r (cc (same, at))) [
        | inl other ↦ inl other
        | inr late ↦ inr (omega (arith, late, clock))
      ]
      | inr none_left ↦ absurd (cc (none_left, at))
    ]

    pub on_db-Spends : {A : Type 0} (m : Exec D A) → Keeps (Spends k gone) (on_db m)
    unfolding on_db record_at
    on_db-Spends m = record { at = λ w. record { machine = λ g. g; token = λ s. s } }

    pub now-Spends : Keeps (Spends k gone) (total_os {S = S} {D = D} p.os.now)
    unfolding total_os record_at
    now-Spends = record {
      at = λ w. record {
        machine = never.now w.os;
        token = λ s.
            Faded-IsSpent w (total_os {S = S} {D = D} p.os.now w).1 (inl refl)
              (omega (arith, l.os.now_after w.os, l.os.now_before w.os)) s;
      };
    }

    pub new_uuid-Spends : Keeps (Spends k gone) (total_os {S = S} {D = D} p.os.new_uuid)
    unfolding total_os record_at
    new_uuid-Spends = record {
      at = λ w. record {
        machine = never.new_uuid w.os;
        token = λ s.
            Faded-IsSpent w (total_os {S = S} {D = D} p.os.new_uuid w).1 (inl refl)
              (l.os.new_uuid_time w.os) s;
      };
    }

    pub rand_read-Spends :
        (n : ℕ) → Keeps (Spends k gone) (on_os {S = S} {D = D} (p.os.rand_read n))
    unfolding on_os record_at
    rand_read-Spends n = record {
      at = λ w. record {
        machine = never.rand_read n w.os;
        token = λ s.
            Faded-IsSpent w (on_os {S = S} {D = D} (p.os.rand_read n) w).1 (inl refl)
              (l.os.rand_read_time n w.os) s;
      };
    }

    pub generate-Spends :
        (password : String)
        → Keeps (Spends k gone) (on_os {S = S} {D = D} (p.os.generate_from_password password))
    unfolding on_os record_at
    generate-Spends password = record {
      at = λ w. record {
        machine = never.generate password w.os;
        token = λ s.
            Faded-IsSpent w (on_os {S = S} {D = D} (p.os.generate_from_password password) w).1
              (inl refl) (l.os.generate_time password w.os) s;
      };
    }

    pub on_cache-Spends :
        {A : Type 0} (m : Exec S A)
        → ((s : S) → Applied v.redis [] s (m s).1)
        → Keeps (Spends k gone) (on_cache {D = D} {O = O} m)
    unfolding on_cache record_at
    on_cache-Spends m reads = record {
      at = λ w. record {
        machine = λ g. g;
        token = λ s.
            Faded-IsSpent w (on_cache {D = D} {O = O} m w).1
              (Aged-decoded p v _ _ ((reads w.cache).values (redis_refresh_token_key k)))
              (omega arith) s;
      };
    }

    -- A transaction that stores another token.
    pub exec-Spends :
        (token : RefreshToken) (payload : String) (ttl : ℤ)
        → token.token ≢ k
        → Keeps
            (Spends k gone)
            (on_cache {D = D} {O = O} (p.redis.exec (create_commands token payload ttl)))
    unfolding on_cache record_at
    exec-Spends token payload ttl differ = record {
      at = λ w. record {
        machine = λ g. g;
        token = λ s.
            Faded-IsSpent w
              (on_cache {D = D} {O = O} (p.redis.exec (create_commands token payload ttl)) w).1
              (elim (l.redis.exec_writes (create_commands token payload ttl) w.cache) [
                | inl a ↦ Aged-decoded p v _ _ (a.values (redis_refresh_token_key k))
                | inr a ↦
                    let h : Aged (v.redis.value w.cache (redis_refresh_token_key k)) (
                        v.redis.value (p.redis.exec (create_commands token payload ttl) w.cache).1
                          (redis_refresh_token_key k)) =
                      rw (==-eq-false_of_ne _ _ (λ q. differ (token_of_key _ _ q))) at
                        (a.values (redis_refresh_token_key k)) in
                    Aged-decoded p v _ _ h
              ])
              (omega arith) s;
      };
    }
