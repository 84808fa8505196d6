-- ===== src/Http/Library.antt =====
-- What the handlers use of encoding/json, net/http and net: parameters of the model.
use auth_login_load_balancin.Prelude.{ℕ, String, Bool, List, Option}
use auth_login_load_balancin.Prelude.Int.{ℤ}
use auth_login_load_balancin.Http.{Request}
use auth_login_load_balancin.Http.Response.{Writer}
use auth_login_load_balancin.Model.{
  LoginRequest, RegisterRequest, LoginResponse, RefreshTokenResponse, RegisterResponse,
  LogoutResponse, MeResponse, SessionsResponse, SessionDeleteResponse, ErrorResponse,
}

-- The values that are written as JSON.
pub data Payload : Type 0 where
  login_body : LoginResponse → Payload
  refresh_body : RefreshTokenResponse → Payload
  register_body : RegisterResponse → Payload
  logout_body : LogoutResponse → Payload
  me_body : MeResponse → Payload
  sessions_body : SessionsResponse → Payload
  session_delete_body : SessionDeleteResponse → Payload
  error_body : ErrorResponse → Payload
  root_body : (message app_name instance_name : String) → Payload
  health_body : (status : String) (timestamp : ℕ) (instance_name : String) → Payload

-- decoder.Decode: io.EOF, another error, or a value.
pub data Decoded {ℓ} (A : Type ℓ) : Type ℓ where
  end_of_body malformed : Decoded A
  decoded : A → Decoded A

-- http.SameSite
pub data SameSite : Type 0 where
  lax strict unrestricted : SameSite

-- http.Cookie; `expires` is empty where there is no Expires attribute.
pub record Cookie : Type 0 where
  pub name : String
  pub value : String
  pub path : String
  pub domain : String
  pub http_only : Bool
  pub secure : Bool
  pub same_site : SameSite
  pub max_age : ℤ
  pub expires : Option ℕ

pub record Web (W : Type 0) : Type 0 where
  -- json.NewEncoder(…).Encode: `none` where it fails.
  pub encode : Payload → Option String
  -- json.NewDecoder(…) with DisallowUnknownFields
  pub decode_login : String → Decoded LoginRequest
  pub decode_register : String → Decoded RegisterRequest
  -- (*http.Cookie).String, empty where the cookie is not valid
  pub cookie_text : Cookie → String
  -- net.SplitHostPort: the host, `none` where it fails
  pub split_host_port : String → Option String
  -- the pattern that http.ServeMux chooses among those registered, `none` where it answers itself,
  -- and this answer
  pub route : List String → Request → Option String
  pub mux_answer : Request → Writer → Writer
  -- the choice of `select` between a handler that is done and a deadline
  pub deadline_first : ℤ → W → Bool
