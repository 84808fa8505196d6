-- ===== src/Examples/Leaving.antt =====
-- A logout from all devices and the end of a session, over HTTP on the platform in memory.
use native.Mathlib.Decide.{dec_lt}
use auth_login_load_balancin.Prelude.{◌≡◌, refl, some}
use auth_login_load_balancin.Prelude.Int.{scale_64}
use auth_login_load_balancin.Prelude.Exec.{◌>>=◌, catch, for_each}
use auth_login_load_balancin.Platform.{on_cache, on_db, on_os, total_os}
use auth_login_load_balancin.Go.Time
use auth_login_load_balancin.Go.Strings.{
  trim_space, trim_left, trim_right, is_space, to_lower, lower_rune,
}
use auth_login_load_balancin.InMemory.{Memory, platform, views, laws}
use auth_login_load_balancin.InMemory.Net.{web}
use auth_login_load_balancin.Repository.Clock.{current_time, time_until}
use auth_login_load_balancin.Repository.AuditLog
use auth_login_load_balancin.Repository.User
use auth_login_load_balancin.Repository.Session
use auth_login_load_balancin.Repository.RefreshToken
use auth_login_load_balancin.Service.Audit
use auth_login_load_balancin.Service.Auth
use auth_login_load_balancin.Config.{read_config}
use auth_login_load_balancin.Config.Env.{get_env, get_env_as_int, get_env_as_bool}
use auth_login_load_balancin.Http.{Request, Reply, attend}
use auth_login_load_balancin.Http.Headers.{values_of, put, canonical, get, set, add}
use auth_login_load_balancin.Http.Response.{write_header, write}
use auth_login_load_balancin.Middleware.Guards.{forwarded_address}
use auth_login_load_balancin.Middleware.Response.{write_encoded}
use auth_login_load_balancin.Handler.{
  parse_same_site, refresh_token_cookie, resolve_client_ip, request_metadata, set_cookie,
  set_refresh_token_cookie, clear_refresh_token_cookie, read_refresh_token_cookie,
}
use auth_login_load_balancin.Handler.Response.{write_json, write_error, only}
use auth_login_load_balancin.Prelude.{◌≢◌, none}
use auth_login_load_balancin.Prelude.Int.{negsuc}
use auth_login_load_balancin.Go.Strings.Split.{trim_prefix, cut_prefix}
use auth_login_load_balancin.Model.{AuthIdentity}
use auth_login_load_balancin.Service.Auth.Logout
use auth_login_load_balancin.Service.Auth.Logout.OneSession.{SessionRevoked}
use auth_login_load_balancin.Service.Revoked.{LoggedOut}
use auth_login_load_balancin.Handler.Tokens.{
  handle_logout_all, revoke_session_of, handle_session_by_id,
}
use auth_login_load_balancin.Handler.Cookies.{Sets}
use auth_login_load_balancin.Handler.Revokes.{
  handle_logout_all-LoggedOut, handle_session_by_id-SessionRevoked,
}
use auth_login_load_balancin.Examples.Scenario.{two_tokens, two_tokens-IsIndexed}
use auth_login_load_balancin.Examples.Browser.{handlers, request, fresh_reply}

abbrev identity : AuthIdentity
identity = record { user_id = "user-1"; email = "a@b.c" }

abbrev leaving : Request
leaving = record (request "POST" "/auth/logout-all") { auth_identity = some identity }

abbrev left : Reply Memory
left = handle_logout_all platform web handlers leaving (fresh_reply two_tokens)

leaves : left.writer.status ≡ 200
unfolding trim_space trim_left trim_right is_space Time.sub scale_64 ◌>>=◌ catch for_each on_cache
    on_db on_os total_os current_time time_until AuditLog.create User.find_by_id
    Session.update_last_used_at RefreshToken.create RefreshToken.find_by_token
    RefreshToken.update_status RefreshToken.redis_refresh_token_key
    RefreshToken.redis_user_refresh_tokens_key RefreshToken.redis_session_refresh_tokens_key
    Audit.log_auth_event Auth.log_auth_event read_config get_env get_env_as_int get_env_as_bool
    attend values_of put canonical get set add write_header write forwarded_address write_encoded
    parse_same_site refresh_token_cookie resolve_client_ip request_metadata set_cookie
    set_refresh_token_cookie clear_refresh_token_cookie read_refresh_token_cookie write_json
    write_error only lower_rune to_lower RefreshToken.revoke_listed RefreshToken.revoke_all_by_user
    Session.revoke_all_by_user_id Logout.logout_all handle_logout_all
leaves = refl

named : (i : AuthIdentity) → leaving.auth_identity ≡ some i → trim_space i.user_id ≢ ""
unfolding trim_space trim_left trim_right is_space
named i e q = let same : i.user_id ≡ "user-1" = cc e in cc (rw same at q)

handle_logout_all-LoggedOut_example :
    (i : AuthIdentity) × (leaving.auth_identity ≡ some i)
    × LoggedOut platform views (trim_space i.user_id) two_tokens left.world
    × Sets web (refresh_token_cookie platform.lib handlers.config "" (negsuc 0) none) left
handle_logout_all-LoggedOut_example =
    handle_logout_all-LoggedOut platform views laws web handlers leaving (fresh_reply two_tokens)
      two_tokens-IsIndexed named refl leaves

abbrev ending : Request
ending = record (request "DELETE" "/auth/sessions/SESSION-1") { auth_identity = some identity }

abbrev ended : Reply Memory
ended = handle_session_by_id platform web handlers ending (fresh_reply two_tokens)

ends : ended.writer.status ≡ 200
unfolding dec_lt trim_space trim_left trim_right is_space Time.sub scale_64 ◌>>=◌ catch for_each
    on_cache on_db on_os total_os current_time time_until AuditLog.create User.find_by_id
    Session.update_last_used_at RefreshToken.create RefreshToken.find_by_token
    RefreshToken.update_status RefreshToken.redis_refresh_token_key
    RefreshToken.redis_user_refresh_tokens_key RefreshToken.redis_session_refresh_tokens_key
    Audit.log_auth_event Auth.log_auth_event read_config get_env get_env_as_int get_env_as_bool
    attend values_of put canonical get set add write_header write forwarded_address write_encoded
    parse_same_site refresh_token_cookie resolve_client_ip request_metadata set_cookie
    set_refresh_token_cookie clear_refresh_token_cookie read_refresh_token_cookie write_json
    write_error only lower_rune to_lower RefreshToken.revoke_listed
    RefreshToken.revoke_all_by_session Session.find_by_id Session.update_status
    Logout.revoke_session revoke_session_of cut_prefix handle_session_by_id
ends = refl

handle_session_by_id-SessionRevoked_example :
    (i : AuthIdentity) × (ending.auth_identity ≡ some i)
    × SessionRevoked platform views
        (trim_space i.user_id)
        (trim_space (trim_prefix ending.path "/auth/sessions/"))
        two_tokens
        ended.world
handle_session_by_id-SessionRevoked_example =
    handle_session_by_id-SessionRevoked platform views laws web handlers ending
      (fresh_reply two_tokens) two_tokens-IsIndexed refl ends
