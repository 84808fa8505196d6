-- ===== src/Handler/Response.antt =====
-- internal/handler/response.go, and the first steps that the handlers of internal/handler/handler.go
-- share: the test of the method, the identity that the middleware has found, and `if err != nil`.
use auth_login_load_balancin.Prelude.{ℕ, String, ◌==◌, Option, none, some, if◌then◌else◌}
use auth_login_load_balancin.Prelude.Exec.{Result, ok, err}
use auth_login_load_balancin.Errors.{Error}
use auth_login_load_balancin.Model.{AuthIdentity}
use auth_login_load_balancin.Http.{Request, Reply, Handler, on_writer}
use auth_login_load_balancin.Http.Library.{Payload, error_body, Web}
use auth_login_load_balancin.Middleware.{get_request_id}
use auth_login_load_balancin.Middleware.Response.{write_encoded}

module _ {W : Type 0} (web : Web W) where
  unfoldable pub write_json : ℕ → Payload → Reply W → Reply W
  write_json status_code payload = on_writer (write_encoded status_code (web.encode payload))

  unfoldable pub write_error : Request → ℕ → (code message : String) → Reply W → Reply W
  write_error r status_code code message = write_json status_code (
      error_body (record {
        error = record { code = code; message = message };
        request_id = get_request_id r;
      }))

  unfoldable pub only : String → Handler W → Handler W
  only method next r a =
      if r.method == method
      then next r a
      else write_error r 405 "method_not_allowed" "method not allowed" a

  abbrev pub with_identity :
      Request → (AuthIdentity → Reply W → Reply W) → Option AuthIdentity → Reply W → Reply W
  with_identity r next none a = write_error r 401 "unauthorized" "unauthorized" a
  with_identity r next (some identity) a = next identity a

  abbrev pub respond :
      {A : Type 0}
      → (A → Reply W → Reply W)
      → (Error → Reply W → Reply W)
      → Result A
      → Reply W
      → Reply W
  respond good bad (ok answer) a = good answer a
  respond good bad (err e) a = bad e a
