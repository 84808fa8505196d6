-- ===== src/Examples/Entering.antt =====
-- A login and a registration over HTTP on the platform in memory.
use auth_login_load_balancin.Prelude.{◌≡◌, refl}
use auth_login_load_balancin.Prelude.Int.{scale_64}
use auth_login_load_balancin.Prelude.Exec.{◌>>=◌, catch, for_each}
use auth_login_load_balancin.Platform.{on_cache, on_db, on_os, total_os}
use auth_login_load_balancin.Go.Time
use auth_login_load_balancin.Go.Strings.{
  trim_space, trim_left, trim_right, is_space, to_lower, lower_rune,
}
use auth_login_load_balancin.InMemory.{Memory, platform, views, laws}
use auth_login_load_balancin.InMemory.Net.{web}
use auth_login_load_balancin.Repository.Clock.{current_time, time_until}
use auth_login_load_balancin.Repository.AuditLog
use auth_login_load_balancin.Repository.User
use auth_login_load_balancin.Repository.Session
use auth_login_load_balancin.Repository.RefreshToken
use auth_login_load_balancin.Service.Audit
use auth_login_load_balancin.Service.Token
use auth_login_load_balancin.Service.Auth
use auth_login_load_balancin.Config.{read_config}
use auth_login_load_balancin.Config.Env.{get_env, get_env_as_int, get_env_as_bool}
use auth_login_load_balancin.Http.{Request, Reply, attend}
use auth_login_load_balancin.Http.Headers.{values_of, put, canonical, get, set, add}
use auth_login_load_balancin.Http.Response.{write_header, write}
use auth_login_load_balancin.Middleware.Guards.{forwarded_address}
use auth_login_load_balancin.Middleware.Response.{write_encoded}
use auth_login_load_balancin.Handler.{
  parse_same_site, refresh_token_cookie, resolve_client_ip, request_metadata, set_cookie,
  set_refresh_token_cookie, clear_refresh_token_cookie, read_refresh_token_cookie,
}
use auth_login_load_balancin.Handler.Response.{write_json, write_error, only}
use auth_login_load_balancin.InMemory.Letters.{ascii-IsLowerTable}
use auth_login_load_balancin.Model.{LoginRequest, RegisterRequest, RegisterResponse}
use auth_login_load_balancin.Http.Library.{decoded}
use auth_login_load_balancin.Service.Auth.Register.{Registered}
use auth_login_load_balancin.Handler.Accounts.{
  login_with, handle_login, register_with, handle_register,
}
use auth_login_load_balancin.Handler.SignIn.{LoggedIn, handle_login-LoggedIn}
use auth_login_load_balancin.Handler.SignUp.{handle_register-Registered}
use auth_login_load_balancin.Examples.Scenario.{no_tokens}
use auth_login_load_balancin.Examples.Browser.{handlers, request, fresh_reply}

abbrev logging_in : Request
logging_in = record (request "POST" "/auth/login") { body = "secret" }

abbrev logged_in : Reply Memory
logged_in = handle_login platform web handlers logging_in (fresh_reply no_tokens)

logs_in : logged_in.writer.status ≡ 200
unfolding trim_space trim_left trim_right is_space Time.sub scale_64 ◌>>=◌ catch for_each on_cache
    on_db on_os total_os current_time time_until AuditLog.create User.find_by_id
    Session.update_last_used_at RefreshToken.create RefreshToken.find_by_token
    RefreshToken.update_status RefreshToken.redis_refresh_token_key
    RefreshToken.redis_user_refresh_tokens_key RefreshToken.redis_session_refresh_tokens_key
    Audit.log_auth_event Auth.log_auth_event read_config get_env get_env_as_int get_env_as_bool
    attend values_of put canonical get set add write_header write forwarded_address write_encoded
    parse_same_site refresh_token_cookie resolve_client_ip request_metadata set_cookie
    set_refresh_token_cookie clear_refresh_token_cookie read_refresh_token_cookie write_json
    write_error only lower_rune to_lower User.find_by_email Session.create
    Token.generate_access_token Token.generate_refresh_token Auth.login_user Auth.open_session
    Auth.login login_with handle_login
logs_in = refl

handle_login-LoggedIn_example :
    (sent : LoginRequest) × (web.decode_login logging_in.body ≡ decoded sent)
    × LoggedIn platform views handlers web sent no_tokens logged_in
handle_login-LoggedIn_example =
    handle_login-LoggedIn platform views laws web handlers logging_in (fresh_reply no_tokens) refl
      logs_in

abbrev registering : Request
registering = record (request "POST" "/auth/register") { body = "secret" }

abbrev registered : Reply Memory
registered = handle_register platform web handlers registering (fresh_reply no_tokens)

registers : registered.writer.status ≡ 201
unfolding trim_space trim_left trim_right is_space Time.sub scale_64 ◌>>=◌ catch for_each on_cache
    on_db on_os total_os current_time time_until AuditLog.create User.find_by_id
    Session.update_last_used_at RefreshToken.create RefreshToken.find_by_token
    RefreshToken.update_status RefreshToken.redis_refresh_token_key
    RefreshToken.redis_user_refresh_tokens_key RefreshToken.redis_session_refresh_tokens_key
    Audit.log_auth_event Auth.log_auth_event read_config get_env get_env_as_int get_env_as_bool
    attend values_of put canonical get set add write_header write forwarded_address write_encoded
    parse_same_site refresh_token_cookie resolve_client_ip request_metadata set_cookie
    set_refresh_token_cookie clear_refresh_token_cookie read_refresh_token_cookie write_json
    write_error only lower_rune to_lower User.create_user Auth.register_user Auth.register
    register_with handle_register
registers = refl

handle_register-Registered_example :
    (sent : RegisterRequest) × (web.decode_register registering.body ≡ decoded sent)
    × (response : RegisterResponse) × Registered platform views
        (trim_space sent.email)
        (trim_space sent.password)
        response
        no_tokens
        registered.world
handle_register-Registered_example =
    handle_register-Registered platform views laws ascii-IsLowerTable web handlers registering
      (fresh_reply no_tokens) refl registers
