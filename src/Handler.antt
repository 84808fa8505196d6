-- ===== src/Handler.antt =====
-- internal/handler/handler.go: the fields of Handler, the refresh-token cookie and the data that is
-- read from a request. The handlers and the routes are in the modules below.
pub mod Response
pub mod Accounts
pub mod Tokens
pub mod Routes
pub mod Success
pub mod Cookies
pub mod Grants
pub mod SignIn
pub mod SignUp
pub mod Revokes
use auth_login_load_balancin.Prelude.{
  ℕ, String, Bool, true, not, ◌&&◌, ◌==◌, Option, none, some, if◌then◌else◌,
}
use auth_login_load_balancin.Prelude.Int.{ℤ, negsuc, scale_64}
use auth_login_load_balancin.Prelude.Exec.{Result, ok, err}
use auth_login_load_balancin.Go.Time
use auth_login_load_balancin.Go.Strings.{trim_space, to_lower}
use auth_login_load_balancin.Model.{RequestMetadata}
use auth_login_load_balancin.Config.{Config}
use auth_login_load_balancin.Platform.{Platform, World, Libraries}
use auth_login_load_balancin.Repository.Clock.{current_time}
use auth_login_load_balancin.Service.Auth.{AuthConfig}
use auth_login_load_balancin.Service.Token.{TokenConfig}
use auth_login_load_balancin.Http.{Request, Reply, cookie_named, on_writer, attend}
use auth_login_load_balancin.Http.Headers
use auth_login_load_balancin.Http.Response.{Writer}
use auth_login_load_balancin.Http.Library.{Web, Cookie, SameSite, lax, strict, unrestricted}
use auth_login_load_balancin.Middleware.Guards.{forwarded_address}

-- The fields of Handler that can differ.
pub record HandlerConfig : Type 0 where
  pub config : Config
  pub auth_service : AuthConfig
  pub token_service : TokenConfig

abbrev pub refresh_token_cookie_name : String
refresh_token_cookie_name = "refresh_token"

-- parseSameSite, from the value trimmed and in lower case.
abbrev pub same_site_of : String → SameSite
same_site_of name =
    if name == "strict" then strict else if name == "none" then unrestricted else lax

unfoldable pub parse_same_site : Libraries → String → SameSite
parse_same_site lib value = same_site_of (to_lower lib.lower_table (trim_space value))

unfoldable pub refresh_token_cookie : Libraries → Config → String → ℤ → Option ℕ → Cookie
refresh_token_cookie lib cfg value max_age expires = record {
  name = refresh_token_cookie_name;
  value = value;
  path = "/";
  domain = cfg.cookie_domain;
  http_only = true;
  secure = cfg.cookie_secure;
  same_site = parse_same_site lib cfg.cookie_same_site;
  max_age = max_age;
  expires = expires;
}

unfoldable pub resolve_client_ip : Request → Bool → String
resolve_client_ip r trust_proxy_headers =
    if trust_proxy_headers && not (forwarded_address r == "")
    then forwarded_address r
    else trim_space r.remote_addr

unfoldable pub request_metadata : Config → Request → RequestMetadata
request_metadata cfg r = record {
  user_agent = trim_space (Headers.get "User-Agent" r.header);
  ip_address = resolve_client_ip r cfg.trust_proxy_headers;
  device_name = trim_space (Headers.get "User-Agent" r.header);
}

-- The value of a cookie, if it is there and not blank.
abbrev cookie_value : Option String → Option String
cookie_value none = none
cookie_value (some value) = if trim_space value == "" then none else some (trim_space value)

unfoldable pub read_refresh_token_cookie : Request → Option String
read_refresh_token_cookie r = cookie_value (cookie_named refresh_token_cookie_name r.cookies)

module _ {W : Type 0} (web : Web W) where
  -- http.SetCookie
  unfoldable pub set_cookie : Cookie → Writer → Writer
  set_cookie cookie w =
      if web.cookie_text cookie == ""
      then w
      else (record w { header = Headers.add "Set-Cookie" (web.cookie_text cookie) w.header })

module _ {S D O : Type 0} (p : Platform S D O) (web : Web (World S D O)) (cfg : Config) where
  abbrev pub cookie_until : String → Result ℕ → Reply (World S D O) → Reply (World S D O)
  cookie_until refresh_token (err e) a = a
  cookie_until refresh_token (ok now) a =
      on_writer
        (set_cookie web (
          refresh_token_cookie p.lib cfg refresh_token (scale_64 cfg.refresh_token_ttl_hours 3600)
            (some (Time.add now (Time.hours cfg.refresh_token_ttl_hours)))))
        a

  unfoldable pub set_refresh_token_cookie : String → Reply (World S D O) → Reply (World S D O)
  set_refresh_token_cookie refresh_token = attend (current_time p) (cookie_until refresh_token)

  unfoldable pub clear_refresh_token_cookie : Reply (World S D O) → Reply (World S D O)
  clear_refresh_token_cookie =
      on_writer (set_cookie web (refresh_token_cookie p.lib cfg "" (negsuc 0) none))
