-- ===== src/Service/Audit.antt =====
-- internal/service/audit_service.go. A log that cannot be written is reported on the process's own
-- log, which is outside the model, and is no error.
use auth_login_load_balancin.Prelude.{String, List, Option}
use auth_login_load_balancin.Prelude.Exec.{Exec, pure, lift, catch, ◌>>=◌}
use auth_login_load_balancin.Model.{RequestMetadata}
use auth_login_load_balancin.Platform.{Platform, World, total_os}
use auth_login_load_balancin.Repository.Clock.{current_time}
use auth_login_load_balancin.Repository.AuditLog

module _ {S D O : Type 0} (p : Platform S D O) where
  unfoldable pub log_auth_event :
      Option String
      → String
      → RequestMetadata
      → List (String × String)
      → Exec (World S D O) (Unit {0})
  log_auth_event user_id event_type metadata extra =
      catch
        (do
          payload ← lift (p.lib.marshal_extra extra)
          id ← total_os p.os.new_uuid
          now ← current_time p
          AuditLog.create p (record {
            id = id;
            user_id = user_id;
            event_type = event_type;
            ip_address = metadata.ip_address;
            user_agent = metadata.user_agent;
            metadata = payload;
            created_at = now;
          }))
        (λ e. pure tt)
