-- ===== src/Handler/Accounts.antt =====
-- handleRegister, handleLogin, handleRoot, handleHealth and handleMe of
-- internal/handler/handler.go.
use auth_login_load_balancin.Prelude.{ℕ, ◌==◌, ◌||◌, if◌then◌else◌}
use auth_login_load_balancin.Errors.{
  Error, error_text, invalid_credentials, invalid_login_input, email_already_exists,
}
use auth_login_load_balancin.Go.Strings.{trim_space}
use auth_login_load_balancin.Model.{LoginRequest, RegisterRequest}
use auth_login_load_balancin.Platform.{Platform, World}
use auth_login_load_balancin.Service.Auth as AuthService
use auth_login_load_balancin.Service.Health as HealthService
use auth_login_load_balancin.Http.{Request, Reply, Handler, attend}
use auth_login_load_balancin.Http.Library.{
  Web, Decoded, end_of_body, malformed, decoded, login_body, register_body, me_body, root_body,
  health_body,
}
use auth_login_load_balancin.Middleware.{get_auth_identity}
use auth_login_load_balancin.Handler.{HandlerConfig, request_metadata, set_refresh_token_cookie}
use auth_login_load_balancin.Handler.Response.{
  write_json, write_error, only, with_identity, respond,
}

-- The statuses of the errors of Register and Login.
unfoldable pub register_status : Error → ℕ
register_status invalid_login_input = 400
register_status email_already_exists = 409
register_status _ = 500

unfoldable pub login_status : Error → ℕ
login_status invalid_login_input = 400
login_status invalid_credentials = 401
login_status _ = 500

module _ {S D O : Type 0} (p : Platform S D O) (web : Web (World S D O)) (h : HandlerConfig) where
  unfoldable pub handle_root : Handler (World S D O)
  handle_root = only web "GET" (λ r.
      write_json web 200 (
        root_body "authentication service base is running" h.config.app_name
          h.config.instance_name))

  unfoldable pub handle_health : Handler (World S D O)
  handle_health = only web "GET" (λ r. attend (HealthService.check p) (
      respond web
        (λ status.
          write_json web 200 (health_body status.status status.timestamp h.config.instance_name))
        (λ e a. a)))

  unfoldable pub handle_me : Handler (World S D O)
  handle_me = only web "GET" (λ r.
      with_identity web r
        (λ identity.
          write_json web 200
            (me_body (record { user_id = identity.user_id; email = identity.email })))
        (get_auth_identity r))

  -- handleRegister, with the body that is decoded.
  unfoldable pub register_with :
      Request → RegisterRequest → Reply (World S D O) → Reply (World S D O)
  register_with r request =
      let email = trim_space request.email in
      let password = trim_space request.password in
      if email == "" || password == ""
      then write_error web r 400 "email_password_required" "email and password are required"
      else attend
          (AuthService.register p h.auth_service email password (request_metadata h.config r))
          (respond web (λ response. write_json web 201 (register_body response))
            (λ e. write_error web r (register_status e) "register_failed" (error_text e)))

  abbrev pub register_decoded :
      Request → Decoded RegisterRequest → Reply (World S D O) → Reply (World S D O)
  register_decoded r end_of_body =
      write_error web r 400 "request_body_required" "request body is required"
  register_decoded r malformed = write_error web r 400 "invalid_json" "invalid JSON request body"
  register_decoded r (decoded request) = register_with r request

  unfoldable pub handle_register : Handler (World S D O)
  handle_register = only web "POST" (λ r. register_decoded r (web.decode_register r.body))

  -- handleLogin, with the body that is decoded.
  unfoldable pub login_with : Request → LoginRequest → Reply (World S D O) → Reply (World S D O)
  login_with r request =
      let email = trim_space request.email in
      let password = trim_space request.password in
      if email == "" || password == ""
      then write_error web r 400 "email_password_required" "email and password are required"
      else attend (AuthService.login p h.auth_service email password (request_metadata h.config r))
          (respond web
            (λ response a.
              write_json web 200 (login_body response)
                (set_refresh_token_cookie p web h.config response.refresh_token a))
            (λ e. write_error web r (login_status e) "login_failed" (error_text e)))

  abbrev pub login_decoded :
      Request → Decoded LoginRequest → Reply (World S D O) → Reply (World S D O)
  login_decoded r end_of_body =
      write_error web r 400 "request_body_required" "request body is required"
  login_decoded r malformed = write_error web r 400 "invalid_json" "invalid JSON request body"
  login_decoded r (decoded request) = login_with r request

  unfoldable pub handle_login : Handler (World S D O)
  handle_login = only web "POST" (λ r. login_decoded r (web.decode_login r.body))
