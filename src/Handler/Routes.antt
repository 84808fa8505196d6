-- ===== src/Handler/Routes.antt =====
-- Routes of internal/handler/handler.go. Which pattern http.ServeMux chooses for a request is its
-- own affair: a parameter.
pub mod Protected
pub mod Secured
pub mod Sends
pub mod Written
pub mod Sendable
pub mod Answered
use auth_login_load_balancin.Prelude.{
  String, Bool, not, ◌&&◌, ◌||◌, ◌==◌, List, [], ◌∷◌, map, Option, none, some, if◌then◌else◌,
}
use auth_login_load_balancin.Go.Time
use auth_login_load_balancin.Go.Strings.Split.{has_prefix}
use auth_login_load_balancin.Platform.{Platform, World}
use auth_login_load_balancin.Http.{Request, Reply, Handler, on_writer}
use auth_login_load_balancin.Http.Library.{Web}
use auth_login_load_balancin.Middleware.{Middleware, chain}
use auth_login_load_balancin.Middleware.Basic.{
  request_id, instance_header, security_headers, cors, request_logger, recoverer,
}
use auth_login_load_balancin.Middleware.Guards.{rate_limit, require_auth}
use auth_login_load_balancin.Middleware.Timeout.{timeout}
use auth_login_load_balancin.Handler.{HandlerConfig}
use auth_login_load_balancin.Handler.Response.{write_error}
use auth_login_load_balancin.Handler.Accounts.{
  handle_root, handle_health, handle_me, handle_register, handle_login,
}
use auth_login_load_balancin.Handler.Tokens.{
  handle_refresh, handle_logout, handle_logout_all, handle_sessions, handle_session_by_id,
}

-- The paths that are let through to the mux.
unfoldable pub is_known : String → Bool
is_known path =
    has_prefix path "/auth/sessions/"
    || path == "/"
    || path == "/health"
    || path == "/auth/login"
    || path == "/auth/register"
    || path == "/auth/refresh"
    || path == "/auth/logout"
    || path == "/auth/logout-all"
    || path == "/auth/sessions"
    || path == "/auth/me"

module _ {W : Type 0} (web : Web W) where
  abbrev pub handler_of : List (String × Handler W) → String → Option (Handler W)
  handler_of [] pattern = none
  handler_of ((other, handler) ∷ rest) pattern =
      if other == pattern then some handler else handler_of rest pattern

  abbrev pub served : Option (Handler W) → Handler W
  served none r = on_writer (web.mux_answer r)
  served (some handler) r = handler r

  abbrev pub chosen : List (String × Handler W) → Option String → Option (Handler W)
  chosen mux none = none
  chosen mux (some pattern) = handler_of mux pattern

  abbrev pub patterns_of : List (String × Handler W) → List String
  patterns_of [] = []
  patterns_of ((pattern, handler) ∷ mux) = pattern ∷ patterns_of mux

  -- mux.ServeHTTP
  unfoldable pub serve_mux : List (String × Handler W) → Handler W
  serve_mux mux r = served (chosen mux (web.route (patterns_of mux) r)) r

module _ {S D O : Type 0} (p : Platform S D O) (web : Web (World S D O)) (h : HandlerConfig) where
  unfoldable pub mux : List (String × Handler (World S D O))
  mux =
      ("/", handle_root p web h)
      ∷ ("/health", handle_health p web h)
      ∷ (
        "/auth/register",
        rate_limit p web "register" h.config.register_rate_limit_requests
            (Time.seconds h.config.register_rate_limit_window_sec) (handle_register p web h),
      )
      ∷ (
        "/auth/login",
        rate_limit p web "login" h.config.login_rate_limit_requests
            (Time.seconds h.config.login_rate_limit_window_sec) (handle_login p web h),
      )
      ∷ (
        "/auth/refresh",
        rate_limit p web "refresh" h.config.refresh_rate_limit_requests
            (Time.seconds h.config.refresh_rate_limit_window_sec) (handle_refresh p web h),
      )
      ∷ ("/auth/logout", handle_logout p web h)
      ∷ ("/auth/logout-all", require_auth p web h.token_service (handle_logout_all p web h))
      ∷ ("/auth/sessions", require_auth p web h.token_service (handle_sessions p web h))
      ∷ ("/auth/sessions/", require_auth p web h.token_service (handle_session_by_id p web h))
      ∷ ("/auth/me", require_auth p web h.token_service (handle_me p web h))
      ∷ []

  unfoldable pub known_routes : Handler (World S D O)
  known_routes r a =
      if is_known r.path
      then serve_mux web mux r a
      else write_error web r 404 "route_not_found" "route not found" a

  unfoldable pub middlewares : List (Middleware (World S D O))
  middlewares =
      request_id p
      ∷ instance_header h.config.instance_name
      ∷ security_headers
      ∷ cors web p.lib h.config.cors_allowed_origins h.config.cors_allowed_methods
          h.config.cors_allowed_headers h.config.cors_allow_credentials
      ∷ request_logger
      ∷ timeout web (Time.seconds h.config.request_timeout_sec)
      ∷ recoverer web
      ∷ []

  unfoldable pub routes : Handler (World S D O)
  routes = chain known_routes middlewares
