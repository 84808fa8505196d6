-- ===== src/Examples/Requests.antt =====
-- Refreshing, logging out and revoking at runs on the platform in memory.
use native.Mathlib.Decide.{dec_lt}
use auth_login_load_balancin.Prelude.{◌≡◌, ◌≢◌, refl, some}
use auth_login_load_balancin.Prelude.Int.{pos, scale_64}
use auth_login_load_balancin.Prelude.Exec.{Result, ok, err, ◌>>=◌, catch, for_each}
use auth_login_load_balancin.Errors.{refresh_token_reuse_detected}
use auth_login_load_balancin.Model.{RefreshTokenResponse, LogoutResponse, SessionDeleteResponse}
use auth_login_load_balancin.Platform.{RefreshTokenRecord, on_cache, on_db, on_os, total_os}
use auth_login_load_balancin.Go.Time
use auth_login_load_balancin.Go.Strings.{
  trim_space, trim_left, trim_right, is_space, to_lower, lower_rune,
}
use auth_login_load_balancin.InMemory.{Memory, platform, views, laws}
use auth_login_load_balancin.Repository.Clock.{current_time, time_until}
use auth_login_load_balancin.Repository.AuditLog
use auth_login_load_balancin.Repository.User
use auth_login_load_balancin.Repository.User.{normalized_email}
use auth_login_load_balancin.Repository.Session
use auth_login_load_balancin.Repository.RefreshToken
use auth_login_load_balancin.Repository.RefreshToken.View.{record_at}
use auth_login_load_balancin.Repository.RefreshToken.Revocation.{IsDead}
use auth_login_load_balancin.Service.Audit
use auth_login_load_balancin.Service.Token
use auth_login_load_balancin.Service.Token.{keyfunc, parse_options}
use auth_login_load_balancin.Service.Revoked.{LoggedOut}
use auth_login_load_balancin.Service.Auth
use auth_login_load_balancin.Service.Auth.Logout
use auth_login_load_balancin.Service.Auth.Logout.Everywhere.{logout_all-LoggedOut}
use auth_login_load_balancin.Service.Auth.Logout.OneSession.{
  SessionRevoked, revoke_session-SessionRevoked,
}
use auth_login_load_balancin.Service.Auth.Logout.OneToken.{LoggedOutOf, logout-IsDead}
use auth_login_load_balancin.Service.Auth.Refresh
use auth_login_load_balancin.Service.Auth.Refresh.Rotation.{Rotated, refresh_access_token-Rotated}
use auth_login_load_balancin.Service.Auth.Refresh.Reuse.{refresh_access_token_reuse}
use auth_login_load_balancin.Service.Auth.Refresh.Dead.{
  refresh_access_token-IsDead, logout_all-refresh_access_token,
}
use auth_login_load_balancin.Examples.Scenario.{
  first_record, config, browser, one_token, two_tokens, used_record, two_tokens-IsIndexed,
}

-- The first token is exchanged.
abbrev pub refreshed : Result RefreshTokenResponse × Memory
refreshed = Refresh.refresh_access_token platform config " first " browser one_token

abbrev pub refreshed_answer : RefreshTokenResponse
refreshed_answer = record {
  message = "tokens refreshed successfully";
  access_token = "signed with 0123456789abcdef0123456789abcdef";
  refresh_token = "iiiiii-";
  token_type = "Bearer";
  expires_in = pos 899;
}

pub refreshes : refreshed ≡ (ok refreshed_answer, refreshed.1)
unfolding trim_space trim_left trim_right is_space Time.sub scale_64 ◌>>=◌ catch for_each on_cache
    on_db on_os total_os current_time time_until AuditLog.create User.find_by_id
    Session.update_last_used_at RefreshToken.create RefreshToken.find_by_token
    RefreshToken.update_status RefreshToken.redis_refresh_token_key
    RefreshToken.redis_user_refresh_tokens_key RefreshToken.redis_session_refresh_tokens_key
    Audit.log_auth_event Auth.log_auth_event Token.generate_access_token
    Token.generate_refresh_token Refresh.is_spent Refresh.issue Refresh.rotate Refresh.refresh_found
    Refresh.refresh_access_token
refreshes = refl

refresh_access_token-Rotated_example :
    Rotated platform views
      (trim_space " first ")
      refreshed_answer.refresh_token
      one_token
      refreshed.1
refresh_access_token-Rotated_example =
    refresh_access_token-Rotated platform views laws config " first " browser one_token refreshes

-- The second token has been used before.
abbrev reused : Result RefreshTokenResponse × Memory
reused = Refresh.refresh_access_token platform config "second" browser two_tokens

reuses : reused ≡ (err refresh_token_reuse_detected, reused.1)
unfolding trim_space trim_left trim_right is_space Time.sub scale_64 ◌>>=◌ catch for_each on_cache
    on_db on_os total_os current_time time_until AuditLog.create User.find_by_id
    Session.update_last_used_at RefreshToken.create RefreshToken.find_by_token
    RefreshToken.update_status RefreshToken.redis_refresh_token_key
    RefreshToken.redis_user_refresh_tokens_key RefreshToken.redis_session_refresh_tokens_key
    Audit.log_auth_event Auth.log_auth_event RefreshToken.revoke_listed
    RefreshToken.revoke_all_by_user Session.revoke_all_by_user_id Refresh.reuse
    Refresh.refresh_found Refresh.refresh_access_token
reuses = refl

refresh_access_token_reuse_example :
    (r : RefreshTokenRecord) × (record_at platform views two_tokens (trim_space "second") ≡ some r)
    × (r.status ≡ "USED")
    × LoggedOut platform views r.user_id two_tokens reused.1
refresh_access_token_reuse_example =
    refresh_access_token_reuse platform views laws config "second" browser two_tokens
      two_tokens-IsIndexed reuses

-- Ann logs out everywhere.
abbrev left : Result LogoutResponse × Memory
left = Logout.logout_all platform config "user-1" browser two_tokens

leaves : left ≡ (ok Logout.logged_out_all, left.1)
unfolding trim_space trim_left trim_right is_space Time.sub scale_64 ◌>>=◌ catch for_each on_cache
    on_db on_os total_os current_time time_until AuditLog.create User.find_by_id
    Session.update_last_used_at RefreshToken.create RefreshToken.find_by_token
    RefreshToken.update_status RefreshToken.redis_refresh_token_key
    RefreshToken.redis_user_refresh_tokens_key RefreshToken.redis_session_refresh_tokens_key
    Audit.log_auth_event Auth.log_auth_event RefreshToken.revoke_listed
    RefreshToken.revoke_all_by_user Session.revoke_all_by_user_id Logout.logout_all
leaves = refl

named : trim_space "user-1" ≢ ""
unfolding trim_space trim_left trim_right is_space
named q = cc

mine : used_record.user_id ≡ trim_space "user-1"
unfolding trim_space trim_left trim_right is_space
mine = refl

used_found : record_at platform views two_tokens (trim_space "second") ≡ some used_record
unfolding trim_space trim_left trim_right is_space Time.sub scale_64 ◌>>=◌ catch for_each on_cache
    on_db on_os total_os current_time time_until AuditLog.create User.find_by_id
    Session.update_last_used_at RefreshToken.create RefreshToken.find_by_token
    RefreshToken.update_status RefreshToken.redis_refresh_token_key
    RefreshToken.redis_user_refresh_tokens_key RefreshToken.redis_session_refresh_tokens_key
    Audit.log_auth_event Auth.log_auth_event record_at
used_found = refl

logout_all-LoggedOut_example : LoggedOut platform views (trim_space "user-1") two_tokens left.1
logout_all-LoggedOut_example =
    logout_all-LoggedOut platform views laws config "user-1" browser two_tokens two_tokens-IsIndexed
      named leaves

logout_all-refresh_access_token_example : ¬ (
    Refresh.refresh_access_token platform config "second" browser left.1
    ≡ (ok refreshed_answer, refreshed.1))
logout_all-refresh_access_token_example =
    logout_all-refresh_access_token platform views laws config "user-1" "second" browser browser
      two_tokens left.1 refreshed.1 used_record Logout.logged_out_all refreshed_answer
      two_tokens-IsIndexed named used_found mine leaves

-- There is no third token.
third-IsDead : IsDead platform views two_tokens (trim_space "third")
unfolding trim_space trim_left trim_right is_space Time.sub scale_64 ◌>>=◌ catch for_each on_cache
    on_db on_os total_os current_time time_until AuditLog.create User.find_by_id
    Session.update_last_used_at RefreshToken.create RefreshToken.find_by_token
    RefreshToken.update_status RefreshToken.redis_refresh_token_key
    RefreshToken.redis_user_refresh_tokens_key RefreshToken.redis_session_refresh_tokens_key
    Audit.log_auth_event Auth.log_auth_event record_at
third-IsDead r at = absurd cc

refresh_access_token-IsDead_example : ¬ (
    Refresh.refresh_access_token platform config "third" browser two_tokens
    ≡ (ok refreshed_answer, refreshed.1))
refresh_access_token-IsDead_example =
    refresh_access_token-IsDead platform views laws config "third" browser two_tokens refreshed.1
      refreshed_answer third-IsDead

-- Ann ends one session.
abbrev ended : Result SessionDeleteResponse × Memory
ended = Logout.revoke_session platform config "user-1" "SESSION-1" two_tokens

ends : ended ≡ (ok (record { message = "session revoked successfully" }), ended.1)
unfolding dec_lt lower_rune to_lower trim_space trim_left trim_right is_space Time.sub scale_64
    ◌>>=◌ catch for_each on_cache on_db on_os total_os current_time time_until AuditLog.create
    User.find_by_id Session.update_last_used_at RefreshToken.create RefreshToken.find_by_token
    RefreshToken.update_status RefreshToken.redis_refresh_token_key
    RefreshToken.redis_user_refresh_tokens_key RefreshToken.redis_session_refresh_tokens_key
    Audit.log_auth_event Auth.log_auth_event RefreshToken.revoke_listed
    RefreshToken.revoke_all_by_session Session.find_by_id Session.update_status
    Logout.revoke_session
ends = refl

revoke_session-SessionRevoked_example :
    SessionRevoked platform views (trim_space "user-1") (trim_space "SESSION-1") two_tokens ended.1
revoke_session-SessionRevoked_example =
    revoke_session-SessionRevoked platform views laws config "user-1" "SESSION-1" two_tokens
      two_tokens-IsIndexed ends

-- Ann logs out.
abbrev logged_off : Result LogoutResponse × Memory
logged_off = Logout.logout platform config "first" browser one_token

logs_off : logged_off ≡ (ok Logout.logged_out, logged_off.1)
unfolding trim_space trim_left trim_right is_space Time.sub ◌>>=◌ catch on_cache on_db total_os
    current_time time_until AuditLog.create RefreshToken.create RefreshToken.find_by_token
    RefreshToken.update_status RefreshToken.revoke_by_token RefreshToken.redis_refresh_token_key
    RefreshToken.redis_user_refresh_tokens_key RefreshToken.redis_session_refresh_tokens_key
    Audit.log_auth_event Auth.log_auth_event Session.update_status Logout.find_or_zero
    Logout.revoke_if_found Logout.logout
logs_off = refl

token_named : trim_space "first" ≢ ""
unfolding trim_space trim_left trim_right is_space
token_named q = cc

session_named : first_record.session_id ≢ ""
session_named q = cc

first_found : record_at platform views one_token (trim_space "first") ≡ some first_record
unfolding trim_space trim_left trim_right is_space Time.sub ◌>>=◌ catch on_cache total_os
    current_time time_until RefreshToken.create RefreshToken.redis_refresh_token_key
    RefreshToken.redis_user_refresh_tokens_key RefreshToken.redis_session_refresh_tokens_key
    record_at
first_found = refl

logout-IsDead_example :
    LoggedOutOf platform views laws config (trim_space "first") one_token logged_off.1
logout-IsDead_example =
    logout-IsDead platform views laws config "first" browser one_token token_named logs_off
