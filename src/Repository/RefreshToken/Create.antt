-- ===== src/Repository/RefreshToken/Create.antt =====
-- What Create does to the records of the other tokens.
use auth_login_load_balancin.Prelude.{String, ◌≡◌, ◌≢◌, inl, inr, Bool-cases, arith}
use auth_login_load_balancin.Prelude.Exec.{ok, ran, >>=-eq-ok, lift-eq-ok, raise-ne-ok}
use auth_login_load_balancin.Prelude.Exec.Keeps.{Keeps-after, Keeps-lift}
use auth_login_load_balancin.Prelude.Int.{pos, leb_ℤ}
use auth_login_load_balancin.Model.{RefreshToken}
use auth_login_load_balancin.Platform.{Platform, World}
use auth_login_load_balancin.Platform.Laws.{Views, Laws}
use auth_login_load_balancin.Platform.Reads.{Reads-preorder, on_cache_eq}
use auth_login_load_balancin.Repository.Clock.Laws.{time_until-Reads}
use auth_login_load_balancin.Repository.RefreshToken.{create, to_record}
use auth_login_load_balancin.Repository.RefreshToken.View.{Faded, record_at, Reads-record_at}
use auth_login_load_balancin.Repository.RefreshToken.Status.{Applied-set-Wrote}
use auth_login_load_balancin.Repository.RefreshToken.Index.{create_commands}

module _ {S D O : Type 0} (p : Platform S D O) (v : Views S D O) (l : Laws p v) where
  -- A Create that reports success leaves the record of every other token as it is, or expired.
  pub create-Faded :
      (token : RefreshToken) (other : String) (w : World S D O) {t : World S D O}
      → create p token w ≡ (ok tt, t)
      → other ≢ token.token
      → Faded (record_at p v w other) (record_at p v t other)
  unfolding create
  create-Faded token other w {t} h differ = elim (>>=-eq-ok _ _ w h) [
    | ran payload t₁ marshals h₁ ↦ elim (>>=-eq-ok _ _ t₁ h₁) [
      | ran ttl t₂ timed h₂ ↦ elim (Bool-cases (leb_ℤ ttl (pos 0))) [
        | inl late ↦ absurd (raise-ne-ok _ t₂ (rw late at h₂))
        | inr live ↦
            let (written, _, _) = on_cache_eq _ (rw live at h₂) in
            let (a, _) = l.redis.exec_ok (create_commands token payload ttl) _ written in
            let reads =
              (Reads-preorder v).trans w t₁ t₂
                (Keeps-after (Keeps-lift (Reads-preorder v) _) w marshals)
                (Keeps-after (time_until-Reads p v l _) t₁ timed) in
            let before = Reads-record_at p v w t₂ other reads in
            elim (Applied-set-Wrote p v token.token payload ttl (to_record token) t₂ t
              (l.json.roundtrip _ (lift-eq-ok _ w marshals).0)
              (record { values = a.values; kept = a.kept; added = λ k m q. elim q [ ] }) other) [
                | inl after ↦ ground arith
                | inr (same, _) ↦ absurd (differ same)
              ]
      ]
    ]
  ]
