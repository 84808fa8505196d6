-- ===== src/Repository/Clock.antt =====
-- Reading the clock: `time.Now().UTC()`, SystemRepository.CurrentTime and `time.Until`.
pub mod Laws
use auth_login_load_balancin.Prelude.{ℕ}
use auth_login_load_balancin.Prelude.Exec.{Exec, pure, ◌>>=◌}
use auth_login_load_balancin.Prelude.Int.{ℤ}
use auth_login_load_balancin.Go.Time
use auth_login_load_balancin.Platform.{Platform, World, total_os}

module _ {S D O : Type 0} (p : Platform S D O) where
  unfoldable pub current_time : Exec (World S D O) ℕ
  current_time = total_os p.os.now

  unfoldable pub time_until : ℕ → Exec (World S D O) ℤ
  unfolding current_time
  time_until t = do now ← current_time; pure (Time.sub t now)
