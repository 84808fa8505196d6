-- ===== src/Model.antt =====
-- The data of internal/model. A time is a number of nanoseconds (Go/Time.antt); a `*string` is an
-- `Option`; a []byte is its text.
use auth_login_load_balancin.Prelude.{ℕ, String, Bool, List, Option}
use auth_login_load_balancin.Prelude.Int.{ℤ}

pub record User : Type 0 where
  pub id : String
  pub email : String
  pub hashed_password : String
  pub is_email_verified : Bool
  pub created_at : ℕ
  pub updated_at : ℕ

pub record Session : Type 0 where
  pub id : String
  pub user_id : String
  pub device_name : String
  pub ip_address : String
  pub status : String
  pub created_at : ℕ
  pub last_used_at : ℕ

pub record RefreshToken : Type 0 where
  pub token : String
  pub user_id : String
  pub session_id : String
  pub status : String
  pub expires_at : ℕ
  pub created_at : ℕ

-- `model.RefreshToken{}`: the zero value.
abbrev pub zero_refresh_token : RefreshToken
zero_refresh_token = record {
  token = "";
  user_id = "";
  session_id = "";
  status = "";
  expires_at = 0;
  created_at = 0;
}

pub record AuditLog : Type 0 where
  pub id : String
  pub user_id : Option String
  pub event_type : String
  pub ip_address : String
  pub user_agent : String
  pub metadata : String
  pub created_at : ℕ

pub record RequestMetadata : Type 0 where
  pub user_agent : String
  pub ip_address : String
  pub device_name : String

pub record AuthIdentity : Type 0 where
  pub user_id : String
  pub email : String

-- `expires_in` counts whole seconds.
pub record LoginResponse : Type 0 where
  pub message : String
  pub access_token : String
  pub refresh_token : String
  pub token_type : String
  pub expires_in : ℤ

pub record RefreshTokenResponse : Type 0 where
  pub message : String
  pub access_token : String
  pub refresh_token : String
  pub token_type : String
  pub expires_in : ℤ

pub record RegisterResponse : Type 0 where
  pub message : String
  pub user_id : String
  pub email : String
  pub is_email_verified : Bool

pub record LogoutResponse : Type 0 where
  pub message : String

pub record SessionsResponse : Type 0 where
  pub sessions : List Session

pub record SessionDeleteResponse : Type 0 where
  pub message : String

pub record LoginRequest : Type 0 where
  pub email : String
  pub password : String

pub record RegisterRequest : Type 0 where
  pub email : String
  pub password : String

pub record MeResponse : Type 0 where
  pub user_id : String
  pub email : String

pub record ApiError : Type 0 where
  pub code : String
  pub message : String

pub record ErrorResponse : Type 0 where
  pub error : ApiError
  pub request_id : String
