-- ===== src/Service/Health.antt =====
-- internal/service/health_service.go and internal/repository/system_repository.go.
use auth_login_load_balancin.Prelude.{ℕ, String}
use auth_login_load_balancin.Prelude.Exec.{Exec, pure, ◌>>=◌}
use auth_login_load_balancin.Platform.{Platform, World}
use auth_login_load_balancin.Repository.Clock.{current_time}

pub record HealthStatus : Type 0 where
  pub status : String
  pub timestamp : ℕ

module _ {S D O : Type 0} (p : Platform S D O) where
  unfoldable pub check : Exec (World S D O) HealthStatus
  check = do now ← current_time p; pure (record { status = "ok"; timestamp = now })
