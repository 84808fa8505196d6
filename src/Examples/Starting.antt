-- ===== src/Examples/Starting.antt =====
-- A start on an empty environment, with drivers that always answer.
use native.Mathlib.Decide.{dec_lt}
use auth_login_load_balancin.Prelude.{ℕ, suc, ◌≡◌, ◌↔◌, refl}
use auth_login_load_balancin.Prelude.Exec.{ok, ◌>>=◌, catch}
use auth_login_load_balancin.Prelude.Int.{pos}
use auth_login_load_balancin.Go.Strings.{
  trim_space, trim_left, trim_right, is_space, to_lower, lower_rune,
}
use auth_login_load_balancin.Go.Strings.Split.{byte_length}
use auth_login_load_balancin.Platform.{Platform}
use auth_login_load_balancin.Config.{
  loaded, read_config, apply_secure_defaults, checks, validate, load,
}
use auth_login_load_balancin.Config.Env.{
  get_env, get_env_as_int, get_env_as_bool, get_env_as_csv, get_env_as_csv_with_default,
  get_env_as_log_level, normalize_app_env,
}
use auth_login_load_balancin.Config.Checked.{IsValid, IsSecure, load_iff}
use auth_login_load_balancin.Database.{
  Drivers, redis_options, new_postgres_connection, new_redis_client,
}
use auth_login_load_balancin.InMemory.{Memory, platform}
use auth_login_load_balancin.InMemory.Net.{web}
use auth_login_load_balancin.InMemory.Cache.{Cache}
use auth_login_load_balancin.InMemory.Database.{Tables}
use auth_login_load_balancin.Server.{HttpServer, serving, new_server, main}
use auth_login_load_balancin.Server.Serving.{Checked, main-Checked}
use auth_login_load_balancin.Examples.Browser.{no_variables, defaults}

load_iff_example : (load platform.lib no_variables ≡ loaded defaults) ↔ (
    (defaults ≡ apply_secure_defaults platform.lib (read_config platform.lib no_variables))
    × IsValid platform.lib defaults
    × IsSecure platform.lib defaults)
load_iff_example = load_iff platform.lib no_variables defaults

-- The state counts the calls.
abbrev drivers : Drivers ℕ (Unit {0}) (Unit {0})
drivers = record {
  sql_open = λ text s. (ok tt, suc s);
  set_pool = λ pool db s. (ok tt, suc s);
  ping_db = λ db s. (ok tt, suc s);
  close_db = λ db s. (ok tt, suc s);
  parse_url = λ url. ok (record { addr = url; password = ""; db = pos 0 });
  new_client = λ options s. (ok tt, suc s);
  ping_client = λ client s. (ok tt, suc s);
  close_client = λ client s. (ok tt, suc s);
}

abbrev connected : Unit {0} → Unit {0} → Platform Cache Tables ℕ
connected db client = platform

abbrev server : HttpServer Memory
server = new_server platform.lib drivers connected web defaults tt tt

serves : main platform.lib drivers connected web no_variables 0 ≡ serving server 5
unfolding trim_space trim_left trim_right is_space to_lower lower_rune dec_lt ◌>>=◌ catch
    byte_length get_env get_env_as_int get_env_as_bool get_env_as_csv get_env_as_csv_with_default
    get_env_as_log_level normalize_app_env read_config apply_secure_defaults checks validate load
    redis_options new_postgres_connection new_redis_client main
serves = refl

main-Checked_example : Checked platform.lib drivers connected web no_variables 0 server 5
main-Checked_example = main-Checked platform.lib drivers connected web no_variables 0 serves
