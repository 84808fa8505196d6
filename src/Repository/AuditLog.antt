-- ===== src/Repository/AuditLog.antt =====
-- internal/repository/audit_log_repository.go: the audit_logs table.
use auth_login_load_balancin.Prelude.Exec.{Exec}
use auth_login_load_balancin.Model.{AuditLog}
use auth_login_load_balancin.Platform.{Platform, World, on_db}

module _ {S D O : Type 0} (p : Platform S D O) where
  -- INSERT INTO audit_logs …
  unfoldable pub create : AuditLog → Exec (World S D O) (Unit {0})
  create audit_log = on_db (p.postgres.insert_audit_log audit_log)
