-- ===== src/Database.antt =====
-- internal/database/postgres.go and internal/database/redis.go: the connections that a process opens
-- at its start. The drivers are parameters.
use Prim.Native.String.{◌++◌}
use auth_login_load_balancin.Prelude.{ℕ, String, ◌==◌, if◌then◌else◌}
use auth_login_load_balancin.Prelude.Int.{ℤ, pos}
use auth_login_load_balancin.Prelude.Exec.{Result, ok, Exec, pure, raise, lift, catch, ◌>>=◌, ◌>>◌}
use auth_login_load_balancin.Go.Time
use auth_login_load_balancin.Errors.{Error}
use auth_login_load_balancin.Config.{Config}

-- The limits of the pool of a *sql.DB; the times are durations.
pub record Pool : Type 0 where
  pub max_open_conns : ℕ
  pub max_idle_conns : ℕ
  pub conn_max_lifetime : ℤ
  pub conn_max_idle_time : ℤ

-- redis.Options
pub record Options : Type 0 where
  pub addr : String
  pub password : String
  pub db : ℤ

-- What the two files use of database/sql and go-redis, over the state of the process. `Db` is a
-- *sql.DB and `Client` a *redis.Client.
pub record Drivers (W Db Client : Type 0) : Type 0 where
  pub sql_open : String → Exec W Db
  pub set_pool : Pool → Db → Exec W (Unit {0})
  pub ping_db : Db → Exec W (Unit {0})
  pub close_db : Db → Exec W (Unit {0})
  pub parse_url : String → Result Options
  pub new_client : Options → Exec W Client
  pub ping_client : Client → Exec W (Unit {0})
  pub close_client : Client → Exec W (Unit {0})

unfoldable pub dsn : Config → String
dsn cfg =
    if cfg.database_url == ""
    then "host=" ++ cfg.db_host ++ " port=" ++ cfg.db_port ++ " user=" ++ cfg.db_user
      ++ " password=" ++ cfg.db_password ++ " dbname=" ++ cfg.db_name ++ " sslmode="
      ++ cfg.db_ssl_mode
    else cfg.database_url

abbrev pub pool : Pool
pool = record {
  max_open_conns = 25;
  max_idle_conns = 25;
  conn_max_lifetime = Time.minutes (pos 5);
  conn_max_idle_time = Time.minutes (pos 5);
}

abbrev pub default_options : Config → Options
default_options cfg = record {
  addr = cfg.redis_host ++ ":" ++ cfg.redis_port;
  password = cfg.redis_password;
  db = cfg.redis_db;
}

module _ {W Db Client : Type 0} (d : Drivers W Db Client) where
  -- The error of a ping, after a close whose error is dropped.
  unfoldable pub closed : Exec W (Unit {0}) → Error → Exec W (Unit {0})
  closed close e = catch close (λ dropped. pure tt) >> raise e

  unfoldable pub new_postgres_connection : Config → Exec W Db
  new_postgres_connection cfg = do
    db ← d.sql_open (dsn cfg)
    d.set_pool pool db
    catch (d.ping_db db) (closed (d.close_db db))
    pure db

  unfoldable pub redis_options : Config → Result Options
  redis_options cfg =
      if cfg.redis_url == "" then ok (default_options cfg) else d.parse_url cfg.redis_url

  unfoldable pub new_redis_client : Config → Exec W Client
  new_redis_client cfg = do
    options ← lift (redis_options cfg)
    client ← d.new_client options
    catch (d.ping_client client) (closed (d.close_client client))
    pure client
