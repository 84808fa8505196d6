-- ===== src/Middleware/Guards.antt =====
-- internal/middleware/auth_middleware.go and internal/middleware/rate_limit_middleware.go: the
-- middleware that may keep a request from its handler.
use Prim.Native.Char.{Char}
use auth_login_load_balancin.Prelude.{
  String, ◌==◌, ◌||◌, not, List, [], ◌∷◌, Option, none, some, if◌then◌else◌,
}
use auth_login_load_balancin.Prelude.Int.{ℤ, pos, ltb_ℤ}
use auth_login_load_balancin.Prelude.Exec.{Result, ok, err}
use auth_login_load_balancin.Errors.{error_text}
use auth_login_load_balancin.Go.Strings.{trim_space}
use auth_login_load_balancin.Go.Strings.Split.{split, split_in_two}
use auth_login_load_balancin.Go.Strings.Fold.{equal_fold}
use auth_login_load_balancin.Go.Strconv.{itoa}
use auth_login_load_balancin.Model.{AuthIdentity}
use auth_login_load_balancin.Platform.{Platform, World}
use auth_login_load_balancin.Service.Token as TokenService
use auth_login_load_balancin.Service.Token.{TokenConfig, whole_seconds}
use auth_login_load_balancin.Service.RateLimit as RateLimitService
use auth_login_load_balancin.Service.RateLimit.{RateLimitResult}
use auth_login_load_balancin.Http.{Request, Reply, Handler, set_header, attend}
use auth_login_load_balancin.Http.Headers
use auth_login_load_balancin.Http.Library.{Web}
use auth_login_load_balancin.Middleware.{Middleware}
use auth_login_load_balancin.Middleware.Response.{write_error}

-- The first of the addresses that a proxy lists, empty where there is none.
abbrev first_part : List String → String
first_part [] = ""
first_part (part ∷ parts) = trim_space part

unfoldable pub forwarded_address : Request → String
forwarded_address r =
    let forwarded_for = trim_space (Headers.get "X-Forwarded-For" r.header) in
    if forwarded_for == "" then "" else first_part (split forwarded_for b',')

abbrev host_or : String → Option String → String
host_or remote_addr none = remote_addr
host_or remote_addr (some host) = if host == "" then remote_addr else host

abbrev at_least_one : ℤ → ℤ
at_least_one n = if ltb_ℤ n (pos 1) then pos 1 else n

unfoldable pub format_retry_after : ℤ → String
format_retry_after duration = itoa (at_least_one (whole_seconds duration))

-- The token of an Authorization header that is not empty.
abbrev pub bearer : (Char → Char) → Option (String × String) → Option String
bearer table none = none
bearer table (some (scheme, token)) =
    if not (equal_fold table scheme "Bearer") || trim_space token == ""
    then none
    else some (trim_space token)

module _ {S D O : Type 0} (p : Platform S D O) (web : Web (World S D O)) where
  unfoldable pub rate_limit_identifier : Request → String
  rate_limit_identifier r =
      let remote_addr = trim_space r.remote_addr in
      if forwarded_address r == ""
      then (if remote_addr == ""
          then "unknown"
          else host_or remote_addr (web.split_host_port remote_addr))
      else forwarded_address r

  abbrev pub limited :
      Handler (World S D O)
      → Request
      → Result RateLimitResult
      → Reply (World S D O)
      → Reply (World S D O)
  limited next r (err e) a =
      write_error web r 500 "rate_limit_check_failed" "rate limit check failed" a
  limited next r (ok result) a =
      if result.allowed
      then next r a
      else write_error web r 429 "rate_limit_exceeded" "too many requests, please try again later"
          (set_header "Retry-After" (format_retry_after result.reset_in) a)

  unfoldable pub rate_limit : (scope : String) → (limit window : ℤ) → Middleware (World S D O)
  rate_limit scope limit window next r =
      attend (RateLimitService.allow p scope (rate_limit_identifier r) limit window)
        (limited next r)

  -- The rest of RequireAuth, from the outcome of ValidateAccessToken.
  abbrev pub authorized :
      Handler (World S D O)
      → Request
      → Result AuthIdentity
      → Reply (World S D O)
      → Reply (World S D O)
  authorized next r (err e) = write_error web r 401 "invalid_access_token" (error_text e)
  authorized next r (ok identity) = next (record r { auth_identity = some identity })

  abbrev pub with_bearer :
      TokenConfig
      → Handler (World S D O)
      → Request
      → Option String
      → Reply (World S D O)
      → Reply (World S D O)
  with_bearer c next r none =
      write_error web r 401 "invalid_authorization_header" "invalid authorization header"
  with_bearer c next r (some token) =
      attend (TokenService.validate_access_token p c token) (authorized next r)

  unfoldable pub require_auth : TokenConfig → Middleware (World S D O)
  require_auth c next r a =
      let authorization = trim_space (Headers.get "Authorization" r.header) in
      if authorization == ""
      then write_error web r 401 "missing_authorization_header" "missing authorization header" a
      else with_bearer c next r (bearer p.lib.fold_table (split_in_two authorization b' ')) a
