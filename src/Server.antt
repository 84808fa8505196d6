-- ===== src/Server.antt =====
-- cmd/server/main.go up to the server that listens: the configuration, the connections, the
-- services and the routes.
pub mod Serving
use Prim.Native.String.{◌++◌}
use auth_login_load_balancin.Prelude.{ℕ, String, true}
use auth_login_load_balancin.Prelude.Int.{ℤ, pos}
use auth_login_load_balancin.Prelude.Exec.{Result, ok, err}
use auth_login_load_balancin.Go.Time
use auth_login_load_balancin.Platform.{Platform, World, Libraries}
use auth_login_load_balancin.Config.{Config, Loaded, loaded, panics, load}
use auth_login_load_balancin.Config.Env.{Environment}
use auth_login_load_balancin.Database.{Drivers, new_postgres_connection, new_redis_client}
use auth_login_load_balancin.Service.Token.{TokenConfig}
use auth_login_load_balancin.Http.{Handler}
use auth_login_load_balancin.Http.Library.{Web}
use auth_login_load_balancin.Handler.{HandlerConfig}
use auth_login_load_balancin.Handler.Routes.{routes}

-- http.Server; the timeouts are durations.
pub record HttpServer (W : Type 0) : Type 0 where
  pub addr : String
  pub handler : Handler W
  pub read_header_timeout : ℤ
  pub read_timeout : ℤ
  pub write_timeout : ℤ
  pub idle_timeout : ℤ

-- NewTokenService(…)
abbrev pub token_service : Config → TokenConfig
token_service cfg = record {
  access_secret = cfg.jwt_access_secret;
  access_ttl_minutes = cfg.jwt_access_ttl_minutes;
  refresh_ttl_hours = cfg.refresh_token_ttl_hours;
  issuer = cfg.jwt_issuer;
  audience = cfg.jwt_audience;
}

-- NewHandler(…)
abbrev pub new_handler : Config → HandlerConfig
new_handler cfg = record {
  config = cfg;
  auth_service = record { tokens = token_service cfg; audited = true };
  token_service = token_service cfg;
}

-- How a start ends: with a panic, with an exit status, or with a server that listens.
pub data Started (W V : Type 0) : Type 0 where
  panicked : String → Started W V
  exited : ℕ → V → Started W V
  serving : HttpServer W → V → Started W V

module _ {S D O V Db Client : Type 0} (lib : Libraries) (d : Drivers V Db Client)
    (platform : Db → Client → Platform S D O) (web : Web (World S D O)) where
  unfoldable pub new_server : Config → Db → Client → HttpServer (World S D O)
  new_server cfg db client = record {
    addr = "0.0.0.0:" ++ cfg.port;
    handler = routes (platform db client) web (new_handler cfg);
    read_header_timeout = Time.seconds (pos 5);
    read_timeout = Time.seconds (pos 10);
    write_timeout = Time.seconds (pos 10);
    idle_timeout = Time.seconds (pos 60);
  }

  abbrev pub with_redis : Config → Db → Result Client × V → Started (World S D O) V
  with_redis cfg db (err e, s) = exited 1 s
  with_redis cfg db (ok client, s) = serving (new_server cfg db client) s

  abbrev pub with_postgres : Config → Result Db × V → Started (World S D O) V
  with_postgres cfg (err e, s) = exited 1 s
  with_postgres cfg (ok db, s) = with_redis cfg db (new_redis_client d cfg s)

  abbrev pub with_config : Loaded → V → Started (World S D O) V
  with_config (panics message) s = panicked message
  with_config (loaded cfg) s = with_postgres cfg (new_postgres_connection d cfg s)

  unfoldable pub main : Environment → V → Started (World S D O) V
  main env s = with_config (load lib env) s
