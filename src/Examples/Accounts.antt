-- ===== src/Examples/Accounts.antt =====
-- Login, Register, access tokens and the audit log at runs on the platform in memory.
use auth_login_load_balancin.Prelude.{ℕ, ◌≤◌, String, ◌≡◌, refl, false}
use auth_login_load_balancin.Prelude.Int.{pos, scale_64}
use auth_login_load_balancin.Prelude.Exec.{Result, ok, ◌>>=◌, catch, for_each}
use auth_login_load_balancin.Model.{LoginResponse, RegisterResponse, AuthIdentity, User as Account}
use auth_login_load_balancin.Platform.{on_cache, on_db, on_os, total_os}
use auth_login_load_balancin.Go.Time
use auth_login_load_balancin.Go.Strings.{
  trim_space, trim_left, trim_right, is_space, to_lower, lower_rune,
}
use auth_login_load_balancin.InMemory.{Memory, platform, views, laws}
use auth_login_load_balancin.InMemory.Letters.{ascii-IsLowerTable}
use auth_login_load_balancin.Repository.Clock.{current_time, time_until}
use auth_login_load_balancin.Repository.AuditLog
use auth_login_load_balancin.Repository.User
use auth_login_load_balancin.Repository.User.{normalized_email}
use auth_login_load_balancin.Repository.Session
use auth_login_load_balancin.Repository.RefreshToken
use auth_login_load_balancin.Service.Audit
use auth_login_load_balancin.Service.Token
use auth_login_load_balancin.Service.Token.{keyfunc, parse_options}
use auth_login_load_balancin.InMemory.Signatures.{Signs, jwt-laws}
use auth_login_load_balancin.Service.Token.Genuine.{Genuine, validate_access_token-Genuine}
use auth_login_load_balancin.Service.Auth
use auth_login_load_balancin.Service.Auth.Login.{Known, Opened, login-Opened}
use auth_login_load_balancin.Service.Auth.Register.{Registered, register-Registered}
use auth_login_load_balancin.Examples.Scenario.{config, browser, no_tokens}

-- Ann logs in.
abbrev logged_in : Result LoginResponse × Memory
logged_in = Auth.login platform config " A@b.c" "secret" browser no_tokens

abbrev login_answer : LoginResponse
login_answer = record {
  message = "login successful";
  access_token = "signed with 0123456789abcdef0123456789abcdef";
  refresh_token = "iiiii-";
  token_type = "Bearer";
  expires_in = pos 899;
}

logs_in : logged_in ≡ (ok login_answer, logged_in.1)
unfolding trim_space trim_left trim_right is_space Time.sub scale_64 ◌>>=◌ catch for_each on_cache
    on_db on_os total_os current_time time_until AuditLog.create User.find_by_id
    Session.update_last_used_at RefreshToken.create RefreshToken.find_by_token
    RefreshToken.update_status RefreshToken.redis_refresh_token_key
    RefreshToken.redis_user_refresh_tokens_key RefreshToken.redis_session_refresh_tokens_key
    Audit.log_auth_event Auth.log_auth_event to_lower lower_rune User.find_by_email Session.create
    Token.generate_access_token Token.generate_refresh_token Auth.login_user Auth.open_session
    Auth.login
logs_in = refl

login-Opened_example :
    (u : Account) × Known platform views (trim_space " A@b.c") (trim_space "secret") no_tokens u
    × Opened platform views u.id login_answer.refresh_token logged_in.1
login-Opened_example =
    login-Opened platform views laws config " A@b.c" "secret" browser no_tokens logs_in

-- Bob registers.
abbrev registered : Result RegisterResponse × Memory
registered = Auth.register platform config "B@b.c " "secret" browser no_tokens

abbrev register_answer : RegisterResponse
register_answer = record {
  message = "registration successful";
  user_id = "id-iii";
  email = "b@b.c";
  is_email_verified = false;
}

registers : registered ≡ (ok register_answer, registered.1)
unfolding trim_space trim_left trim_right is_space Time.sub scale_64 ◌>>=◌ catch for_each on_cache
    on_db on_os total_os current_time time_until AuditLog.create User.find_by_id
    Session.update_last_used_at RefreshToken.create RefreshToken.find_by_token
    RefreshToken.update_status RefreshToken.redis_refresh_token_key
    RefreshToken.redis_user_refresh_tokens_key RefreshToken.redis_session_refresh_tokens_key
    Audit.log_auth_event Auth.log_auth_event to_lower lower_rune User.create_user Auth.register_user
    Auth.register
registers = refl

register-Registered_example :
    Registered platform views "B@b.c " (trim_space "secret") register_answer no_tokens registered.1
register-Registered_example =
    register-Registered platform views laws config ascii-IsLowerTable "B@b.c " "secret" browser
      no_tokens registers

-- An access token is accepted.
abbrev identity : AuthIdentity
identity = record { user_id = "user-1"; email = "a@b.c" }

abbrev access_token : String
access_token = "signed with 0123456789abcdef0123456789abcdef"

abbrev validated : Result AuthIdentity × Memory
validated = Token.validate_access_token platform config.tokens access_token no_tokens

validates : validated ≡ (ok identity, validated.1)
unfolding Token.validate_access_token Token.identity_of Token.claim_at ◌>>=◌ current_time total_os
validates = refl

validate_access_token-Genuine_example :
    (now : ℕ) × (no_tokens.os ≤ now)
    × (now ≤ validated.1.os)
    × Genuine config.tokens Signs access_token now identity
validate_access_token-Genuine_example =
    validate_access_token-Genuine platform views laws Signs jwt-laws config.tokens access_token
      no_tokens validates
