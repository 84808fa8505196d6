-- ===== src/Examples/Refreshing.antt =====
-- A refresh over HTTP on the platform in memory.
use auth_login_load_balancin.Prelude.{String, ◌≡◌, refl, [], ◌∷◌, some}
use auth_login_load_balancin.Prelude.Int.{scale_64}
use auth_login_load_balancin.Prelude.Exec.{◌>>=◌, catch, for_each}
use auth_login_load_balancin.Platform.{on_cache, on_db, on_os, total_os}
use auth_login_load_balancin.Go.Time
use auth_login_load_balancin.Go.Strings.{trim_space, trim_left, trim_right, is_space}
use auth_login_load_balancin.InMemory.{Memory, platform, views, laws}
use auth_login_load_balancin.InMemory.Net.{web}
use auth_login_load_balancin.Repository.Clock.{current_time, time_until}
use auth_login_load_balancin.Repository.AuditLog
use auth_login_load_balancin.Repository.User
use auth_login_load_balancin.Repository.Session
use auth_login_load_balancin.Repository.RefreshToken
use auth_login_load_balancin.Service.Audit
use auth_login_load_balancin.Service.Token
use auth_login_load_balancin.Service.Auth
use auth_login_load_balancin.Service.Auth.Refresh
use auth_login_load_balancin.Service.Auth.Refresh.Rotation.{Rotated}
use auth_login_load_balancin.Config.{read_config}
use auth_login_load_balancin.Config.Env.{get_env, get_env_as_int, get_env_as_bool}
use auth_login_load_balancin.Http.{Request, Reply, attend}
use auth_login_load_balancin.Http.Headers.{values_of, put, canonical, get, set, add}
use auth_login_load_balancin.Http.Response.{write_header, write}
use auth_login_load_balancin.Middleware.Guards.{forwarded_address}
use auth_login_load_balancin.Middleware.Response.{write_encoded}
use auth_login_load_balancin.Handler.{
  parse_same_site, refresh_token_cookie, resolve_client_ip, request_metadata, set_cookie,
  set_refresh_token_cookie, read_refresh_token_cookie,
}
use auth_login_load_balancin.Handler.Response.{write_json, only}
use auth_login_load_balancin.Handler.Tokens.{handle_refresh}
use auth_login_load_balancin.Handler.Cookies.{TokenCookie}
use auth_login_load_balancin.Handler.Grants.{handle_refresh-Rotated}
use auth_login_load_balancin.Examples.Scenario.{one_token}
use auth_login_load_balancin.Examples.Browser.{handlers, request, fresh_reply}

abbrev refreshing : Request
refreshing = record (request "POST" "/auth/refresh") { cookies = ("refresh_token", "first") ∷ [] }

abbrev refreshed : Reply Memory
refreshed = handle_refresh platform web handlers refreshing (fresh_reply one_token)

answers_200 : refreshed.writer.status ≡ 200
unfolding trim_space trim_left trim_right is_space Time.sub scale_64 ◌>>=◌ catch for_each on_cache
    on_db on_os total_os current_time time_until AuditLog.create User.find_by_id
    Session.update_last_used_at RefreshToken.create RefreshToken.find_by_token
    RefreshToken.update_status RefreshToken.redis_refresh_token_key
    RefreshToken.redis_user_refresh_tokens_key RefreshToken.redis_session_refresh_tokens_key
    Audit.log_auth_event Auth.log_auth_event Token.generate_access_token
    Token.generate_refresh_token Refresh.is_spent Refresh.issue Refresh.rotate Refresh.refresh_found
    Refresh.refresh_access_token read_config get_env get_env_as_int get_env_as_bool attend values_of
    put canonical get set add write_header write forwarded_address write_encoded parse_same_site
    refresh_token_cookie resolve_client_ip request_metadata set_cookie set_refresh_token_cookie
    read_refresh_token_cookie write_json only handle_refresh
answers_200 = refl

handle_refresh-Rotated_example :
    (value token : String) × (read_refresh_token_cookie refreshing ≡ some value)
    × Rotated platform views (trim_space value) token one_token refreshed.world
    × TokenCookie web handlers.config token refreshed
handle_refresh-Rotated_example =
    handle_refresh-Rotated platform views laws web handlers refreshing (fresh_reply one_token) refl
      answers_200
