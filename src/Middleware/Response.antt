-- ===== src/Middleware/Response.antt =====
-- writeJSON and writeError of internal/middleware/middleware.go.
use auth_login_load_balancin.Prelude.{ℕ, String, Option, none, some}
use auth_login_load_balancin.Http.{Request, Reply, on_writer}
use auth_login_load_balancin.Http.Headers
use auth_login_load_balancin.Http.Response.{Writer, write_header, write}
use auth_login_load_balancin.Http.Library.{Payload, error_body, Web}
use auth_login_load_balancin.Middleware.{get_request_id}

-- What is written for a payload, from its encoding.
unfoldable pub write_encoded : ℕ → Option String → Writer → Writer
write_encoded status_code none w =
    write
      "{\"error\":{\"code\":\"internal_server_error\",\"message\":\"failed to encode response\"}}"
      (write_header 500
        (record w { header = Headers.set "Content-Type" "application/json" w.header }))
write_encoded status_code (some text) w = write text (
    write_header status_code
      (record w { header = Headers.set "Content-Type" "application/json" w.header }))

module _ {W : Type 0} (web : Web W) where
  unfoldable pub write_json : ℕ → Payload → Reply W → Reply W
  write_json status_code payload = on_writer (write_encoded status_code (web.encode payload))

  unfoldable pub write_error : Request → ℕ → (code message : String) → Reply W → Reply W
  write_error r status_code code message = write_json status_code (
      error_body (record {
        error = record { code = code; message = message };
        request_id = get_request_id r;
      }))
