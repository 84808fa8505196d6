-- ===== src/Config.antt =====
-- internal/config/config.go: the configuration that a process starts with, or the panic that keeps
-- it from starting.
pub mod Env
pub mod Checked
use auth_login_load_balancin.Prelude.{
  String, Bool, true, false, not, ◌&&◌, ◌||◌, ◌==◌, List, [], ◌∷◌, ltb, if◌then◌else◌, is_empty,
}
use auth_login_load_balancin.Prelude.Int.{ℤ, pos, leb_ℤ}
use auth_login_load_balancin.Go.Strings.{trim_space}
use auth_login_load_balancin.Go.Strings.Split.{byte_length}
use auth_login_load_balancin.Go.Strings.Fold.{equal_fold}
use auth_login_load_balancin.Platform.{Libraries}
use auth_login_load_balancin.Config.Env.{
  Environment, Level, get_env, get_env_as_int, get_env_as_bool, get_env_as_csv,
  get_env_as_csv_with_default, get_env_as_log_level, normalize_app_env,
}

pub record Config : Type 0 where
  pub app_env : String
  pub port : String
  pub app_name : String
  pub db_host : String
  pub db_port : String
  pub db_user : String
  pub db_password : String
  pub db_name : String
  pub db_ssl_mode : String
  pub database_url : String
  pub jwt_access_secret : String
  pub jwt_access_ttl_minutes : ℤ
  pub refresh_token_ttl_hours : ℤ
  pub jwt_issuer : String
  pub jwt_audience : String
  pub redis_host : String
  pub redis_port : String
  pub redis_password : String
  pub redis_db : ℤ
  pub redis_url : String
  pub cookie_domain : String
  pub cookie_secure : Bool
  pub cookie_same_site : String
  pub request_timeout_sec : ℤ
  pub shutdown_timeout_sec : ℤ
  pub trust_proxy_headers : Bool
  pub log_level : Level
  pub cors_allowed_origins : List String
  pub cors_allowed_methods : List String
  pub cors_allowed_headers : List String
  pub cors_allow_credentials : Bool
  pub login_rate_limit_requests : ℤ
  pub login_rate_limit_window_sec : ℤ
  pub register_rate_limit_requests : ℤ
  pub register_rate_limit_window_sec : ℤ
  pub refresh_rate_limit_requests : ℤ
  pub refresh_rate_limit_window_sec : ℤ
  pub instance_name : String

abbrev pub default_jwt_secret : String
default_jwt_secret = "change-this-in-production"

-- A start that panics with a message, or goes on with a configuration.
pub data Loaded : Type 0 where
  loaded : Config → Loaded
  panics : String → Loaded

abbrev pub first_panic : Config → List (Bool × String) → Loaded
first_panic cfg [] = loaded cfg
first_panic cfg ((fails, message) ∷ rest) =
    let other = first_panic cfg rest in if fails then panics message else other

module _ (lib : Libraries) where
  -- The literal of Load.
  unfoldable pub read_config : Environment → Config
  read_config env = record {
    app_env = normalize_app_env lib (get_env lib env "APP_ENV" "development");
    port = get_env lib env "PORT" "8080";
    app_name = get_env lib env "APP_NAME" "auth-service";
    db_host = get_env lib env "DB_HOST" "localhost";
    db_port = get_env lib env "DB_PORT" "5432";
    db_user = get_env lib env "DB_USER" "postgres";
    db_password = get_env lib env "DB_PASSWORD" "postgres";
    db_name = get_env lib env "DB_NAME" "auth_service";
    db_ssl_mode = get_env lib env "DB_SSLMODE" "disable";
    database_url = get_env lib env "DATABASE_URL" "";
    jwt_access_secret = get_env lib env "JWT_ACCESS_SECRET" default_jwt_secret;
    jwt_access_ttl_minutes = get_env_as_int lib env "JWT_ACCESS_TTL_MINUTES" (pos 15);
    refresh_token_ttl_hours = get_env_as_int lib env "REFRESH_TOKEN_TTL_HOURS" (pos 168);
    jwt_issuer = get_env lib env "JWT_ISSUER" "auth-service";
    jwt_audience = get_env lib env "JWT_AUDIENCE" "auth-clients";
    redis_host = get_env lib env "REDIS_HOST" "localhost";
    redis_port = get_env lib env "REDIS_PORT" "6379";
    redis_password = get_env lib env "REDIS_PASSWORD" "";
    redis_db = get_env_as_int lib env "REDIS_DB" (pos 0);
    redis_url = get_env lib env "REDIS_URL" "";
    cookie_domain = get_env lib env "COOKIE_DOMAIN" "";
    cookie_secure = get_env_as_bool lib env "COOKIE_SECURE" false;
    cookie_same_site = get_env lib env "COOKIE_SAMESITE" "Lax";
    request_timeout_sec = get_env_as_int lib env "REQUEST_TIMEOUT_SECONDS" (pos 15);
    shutdown_timeout_sec = get_env_as_int lib env "SHUTDOWN_TIMEOUT_SECONDS" (pos 10);
    trust_proxy_headers = get_env_as_bool lib env "TRUST_PROXY_HEADERS" true;
    log_level = get_env_as_log_level lib env "LOG_LEVEL" "INFO";
    cors_allowed_origins = get_env_as_csv lib env "CORS_ALLOWED_ORIGINS";
    cors_allowed_methods =
        get_env_as_csv_with_default lib env "CORS_ALLOWED_METHODS"
          ("GET" ∷ "POST" ∷ "DELETE" ∷ "OPTIONS" ∷ []);
    cors_allowed_headers =
        get_env_as_csv_with_default lib env "CORS_ALLOWED_HEADERS"
          ("Authorization" ∷ "Content-Type" ∷ []);
    cors_allow_credentials = get_env_as_bool lib env "CORS_ALLOW_CREDENTIALS" false;
    login_rate_limit_requests = get_env_as_int lib env "LOGIN_RATE_LIMIT_REQUESTS" (pos 5);
    login_rate_limit_window_sec = get_env_as_int lib env "LOGIN_RATE_LIMIT_WINDOW_SECONDS" (pos 60);
    register_rate_limit_requests = get_env_as_int lib env "REGISTER_RATE_LIMIT_REQUESTS" (pos 3);
    register_rate_limit_window_sec =
        get_env_as_int lib env "REGISTER_RATE_LIMIT_WINDOW_SECONDS" (pos 60);
    refresh_rate_limit_requests = get_env_as_int lib env "REFRESH_RATE_LIMIT_REQUESTS" (pos 10);
    refresh_rate_limit_window_sec =
        get_env_as_int lib env "REFRESH_RATE_LIMIT_WINDOW_SECONDS" (pos 60);
    instance_name = get_env lib env "APP_INSTANCE_NAME" "app-instance";
  }

  unfoldable pub apply_secure_defaults : Config → Config
  apply_secure_defaults cfg =
      if cfg.app_env == "production"
      then (record cfg {
        cookie_secure = true;
        db_ssl_mode =
            if equal_fold lib.fold_table (trim_space cfg.db_ssl_mode) "disable"
            then "require"
            else cfg.db_ssl_mode;
      })
      else cfg

  -- The tests of validate, in their order, each with its panic.
  unfoldable pub checks : Config → List (Bool × String)
  checks cfg =
      (trim_space cfg.jwt_access_secret == "", "JWT_ACCESS_SECRET must not be empty")
      ∷ (
        leb_ℤ cfg.jwt_access_ttl_minutes (pos 0),
        "JWT_ACCESS_TTL_MINUTES must be greater than zero",
      )
      ∷ (
        leb_ℤ cfg.refresh_token_ttl_hours (pos 0),
        "REFRESH_TOKEN_TTL_HOURS must be greater than zero",
      )
      ∷ (leb_ℤ cfg.request_timeout_sec (pos 0), "REQUEST_TIMEOUT_SECONDS must be greater than zero")
      ∷ (
        leb_ℤ cfg.shutdown_timeout_sec (pos 0),
        "SHUTDOWN_TIMEOUT_SECONDS must be greater than zero",
      )
      ∷ (
        equal_fold lib.fold_table (trim_space cfg.cookie_same_site) "none" && not cfg.cookie_secure,
        "COOKIE_SAMESITE=None requires COOKIE_SECURE=true",
      )
      ∷ (
        cfg.cors_allow_credentials && is_empty cfg.cors_allowed_origins,
        "CORS_ALLOW_CREDENTIALS requires explicit CORS_ALLOWED_ORIGINS",
      )
      ∷ (
        cfg.app_env == "production"
            && (cfg.jwt_access_secret == default_jwt_secret
                || ltb (byte_length cfg.jwt_access_secret) 32),
        "production requires a strong JWT_ACCESS_SECRET with at least 32 characters",
      )
      ∷ []

  unfoldable pub validate : Config → Loaded
  validate cfg = first_panic cfg (checks cfg)

  unfoldable pub load : Environment → Loaded
  load env = validate (apply_secure_defaults (read_config env))
