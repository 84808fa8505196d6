-- ===== src/Errors.antt =====
-- The error values of the service: the sentinel errors of internal/service/auth_service.go,
-- internal/service/token_service.go and internal/repository, `sql.ErrNoRows`, `redis.Nil`, a
-- `*pq.Error` with its code, and any other error with its text. No error of the program is
-- wrapped, so `errors.Is` is a test of the constructor.
use Prim.Native.String.{String}
use mathlib.Core.Path.{◌≡◌, refl}
use mathlib.Core.Bool.{Bool, true, false}

pub data Error : Type 0 where
  invalid_credentials invalid_login_input email_already_exists : Error
  invalid_refresh_token refresh_token_reuse_detected : Error
  invalid_token : Error
  refresh_token_not_found : Error
  duplicate_email : Error
  no_rows : Error
  redis_nil : Error
  pq_error : String → String → Error
  other : String → Error

abbrev pub is_refresh_token_not_found : Error → Bool
is_refresh_token_not_found refresh_token_not_found = true
is_refresh_token_not_found _ = false

abbrev pub is_no_rows : Error → Bool
is_no_rows no_rows = true
is_no_rows _ = false

abbrev pub is_redis_nil : Error → Bool
is_redis_nil redis_nil = true
is_redis_nil _ = false

abbrev pub is_duplicate_email : Error → Bool
is_duplicate_email duplicate_email = true
is_duplicate_email _ = false

-- The sentinels that the program declares. The libraries' errors are foreign.
abbrev pub is_own : Error → Bool
is_own no_rows = false
is_own redis_nil = false
is_own (pq_error code message) = false
is_own (other message) = false
is_own _ = true

abbrev pub IsForeign : Error → Type 0
IsForeign e = is_own e ≡ false

-- The sentinels of internal/service.
abbrev pub is_service_error : Error → Bool
is_service_error invalid_credentials = true
is_service_error invalid_login_input = true
is_service_error email_already_exists = true
is_service_error invalid_refresh_token = true
is_service_error refresh_token_reuse_detected = true
is_service_error invalid_token = true
is_service_error _ = false

-- The errors that the repositories return.
abbrev pub IsRepositoryError : Error → Type 0
IsRepositoryError e = is_service_error e ≡ false

pub IsRepositoryError-of_IsForeign : (e : Error) → IsForeign e → IsRepositoryError e
IsRepositoryError-of_IsForeign invalid_credentials h = cc
IsRepositoryError-of_IsForeign invalid_login_input h = cc
IsRepositoryError-of_IsForeign email_already_exists h = cc
IsRepositoryError-of_IsForeign invalid_refresh_token h = cc
IsRepositoryError-of_IsForeign refresh_token_reuse_detected h = cc
IsRepositoryError-of_IsForeign invalid_token h = cc
IsRepositoryError-of_IsForeign _ h = refl

-- `err.Error()`
abbrev pub error_text : Error → String
error_text invalid_credentials = "invalid email or password"
error_text invalid_login_input = "email and password are required"
error_text email_already_exists = "email already exists"
error_text invalid_refresh_token = "invalid or expired refresh token"
error_text refresh_token_reuse_detected =
    "refresh token reuse detected; all active sessions have been revoked"
error_text invalid_token = "invalid or expired token"
error_text refresh_token_not_found = "refresh token not found"
error_text duplicate_email = "email already exists"
error_text no_rows = "sql: no rows in result set"
error_text redis_nil = "redis: nil"
error_text (pq_error code message) = message
error_text (other message) = message

-- `errors.Is` holds of the sentinel only.
pub redis_nil_of_is : (e : Error) → is_redis_nil e ≡ true → e ≡ redis_nil
redis_nil_of_is redis_nil h = refl
redis_nil_of_is _ h = cc

pub refresh_token_not_found_of_is :
    (e : Error) → is_refresh_token_not_found e ≡ true → e ≡ refresh_token_not_found
refresh_token_not_found_of_is refresh_token_not_found h = refl
refresh_token_not_found_of_is _ h = cc

pub no_rows_of_is : (e : Error) → is_no_rows e ≡ true → e ≡ no_rows
no_rows_of_is no_rows h = refl
no_rows_of_is _ h = cc

pub duplicate_email_of_is : (e : Error) → is_duplicate_email e ≡ true → e ≡ duplicate_email
duplicate_email_of_is duplicate_email h = refl
duplicate_email_of_is _ h = cc
