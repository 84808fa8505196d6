-- ===== src/Repository/Clock/Laws.antt =====
-- What a reading of the clock says of the time.
use auth_login_load_balancin.Prelude.{ℕ, ◌≤◌, ◌≡◌, arith, sym, inl, inr}
use auth_login_load_balancin.Prelude.Exec.{
  ok, err, >>=-eq-ok, ran, >>=-eq-err, pure-eq-ok, pure-ne-err,
}
use auth_login_load_balancin.Prelude.Exec.Keeps.{Keeps, Keeps-pure, Keeps-bind}
use auth_login_load_balancin.Prelude.Int.{ℤ}
use auth_login_load_balancin.Errors.{Error}
use auth_login_load_balancin.Go.Time
use auth_login_load_balancin.Platform.{Platform, World, total_os}
use auth_login_load_balancin.Platform.Laws.{Views, Laws}
use auth_login_load_balancin.Platform.Reads.{Reads, Reads-preorder, Reads-total_os}
use auth_login_load_balancin.Repository.Clock.{current_time, time_until}

module _ {S D O : Type 0} (p : Platform S D O) (v : Views S D O) (l : Laws p v) where
  pub current_time-Reads : Keeps (Reads v) (current_time p)
  unfolding current_time
  current_time-Reads =
      Reads-total_os v p.os.now (λ o. omega (arith, l.os.now_after o, l.os.now_before o))

  pub time_until-Reads : (t : ℕ) → Keeps (Reads v) (time_until p t)
  unfolding time_until
  time_until-Reads t =
      Keeps-bind (Reads-preorder v) _ _ current_time-Reads (λ now. Keeps-pure (Reads-preorder v) _)

  -- The reading lies between the times before and after it.
  pub current_time-eq-ok :
      (w : World S D O) {now : ℕ} {t : World S D O}
      → current_time p w ≡ (ok now, t)
      → (v.time w.os ≤ now) × (now ≤ v.time t.os)
  unfolding current_time total_os
  current_time-eq-ok w {now} {t} h =
      let same : (p.os.now w.os).0 ≡ now = cc in
      let moved : (p.os.now w.os).1 ≡ t.os = cc in
      (rw (← same) (l.os.now_after w.os), rw (← same, ← moved) (l.os.now_before w.os))

  pub current_time-ne-err :
      (w : World S D O) {e : Error} {t : World S D O} → current_time p w ≡ (err e, t) → ⊥
  unfolding current_time total_os
  current_time-ne-err w h = cc

  pub time_until-eq-ok :
      (expires : ℕ) (w : World S D O) {ttl : ℤ} {t : World S D O}
      → time_until p expires w ≡ (ok ttl, t)
      → (now : ℕ) × (ttl ≡ Time.sub expires now) × (v.time w.os ≤ now) × (now ≤ v.time t.os)
  unfolding time_until
  time_until-eq-ok expires w h = elim (>>=-eq-ok _ _ w h) [
    | ran now u reads h₁ ↦
        let (ttl_is, same) = pure-eq-ok _ u h₁ in
        let (after, before) = current_time-eq-ok w reads in
        (now, sym ttl_is, after, rw (← same) before)
  ]

  pub time_until-ne-err :
      (expires : ℕ) (w : World S D O) {e : Error} {t : World S D O}
      → time_until p expires w ≡ (err e, t)
      → ⊥
  unfolding time_until
  time_until-ne-err expires w h = elim (>>=-eq-err _ _ w h) [
    | inl bad ↦ current_time-ne-err w bad
    | inr (now, t, reads, h₁) ↦ pure-ne-err _ t h₁
  ]
