-- ===== src/Examples/Browser.antt =====
-- Requests to the platform in memory, and the configuration that its server reads from an empty
-- environment.
use auth_login_load_balancin.Prelude.{String, [], none}
use auth_login_load_balancin.Config.{Config, read_config}
use auth_login_load_balancin.Config.Env.{Environment}
use auth_login_load_balancin.Http.{Request, Reply}
use auth_login_load_balancin.Http.Response.{new_writer}
use auth_login_load_balancin.InMemory.{Memory, platform}
use auth_login_load_balancin.Handler.{HandlerConfig}
use auth_login_load_balancin.Examples.Scenario.{config}

abbrev pub no_variables : Environment
no_variables key = ""

abbrev pub defaults : Config
defaults = read_config platform.lib no_variables

abbrev pub handlers : HandlerConfig
handlers = record { config = defaults; auth_service = config; token_service = config.tokens }

abbrev pub request : (method path : String) → Request
request method path = record {
  method = method;
  path = path;
  header = [];
  remote_addr = "10.0.0.1:4000";
  cookies = [];
  body = "";
  request_id = "";
  auth_identity = none;
}

abbrev pub fresh_reply : Memory → Reply Memory
fresh_reply w = record { writer = new_writer; world = w; panic = none; log = [] }
