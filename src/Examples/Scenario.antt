-- ===== src/Examples/Scenario.antt =====
-- A user with a session, and the states of the platform in memory that the runs start from.
use auth_login_load_balancin.Prelude.{[], ◌∷◌, false, true}
use auth_login_load_balancin.Prelude.Int.{pos}
use auth_login_load_balancin.Model.{RefreshToken, RequestMetadata, User, Session}
use auth_login_load_balancin.Platform.{RefreshTokenRecord}
use auth_login_load_balancin.InMemory.{Memory, platform, views, laws}
use auth_login_load_balancin.Repository.RefreshToken as RefreshTokenRepository
use auth_login_load_balancin.Repository.RefreshToken.View.{record_at}
use auth_login_load_balancin.Repository.RefreshToken.Index.{IsIndexed, create-IsIndexed}
use auth_login_load_balancin.Service.Auth.{AuthConfig}

abbrev pub config : AuthConfig
config = record {
  tokens = record {
    access_secret = "0123456789abcdef0123456789abcdef";
    access_ttl_minutes = pos 15;
    refresh_ttl_hours = pos 24;
    issuer = "auth-service";
    audience = "auth-client";
  };
  audited = true;
}

abbrev pub browser : RequestMetadata
browser = record { user_agent = "agent"; ip_address = "10.0.0.1"; device_name = "laptop" }

abbrev pub ann : User
ann = record {
  id = "user-1";
  email = "a@b.c";
  hashed_password = "hash of secret";
  is_email_verified = false;
  created_at = 0;
  updated_at = 0;
}

abbrev pub laptop : Session
laptop = record {
  id = "session-1";
  user_id = "user-1";
  device_name = "laptop";
  ip_address = "10.0.0.1";
  status = "ACTIVE";
  created_at = 1;
  last_used_at = 1;
}

-- Ann has an account and a session, and there are no refresh tokens.
abbrev pub no_tokens : Memory
no_tokens = record {
  cache = record { texts = []; sets = []; counters = []; windows = [] };
  db = record { users = ann ∷ []; sessions = laptop ∷ []; audit_logs = [] };
  os = 1;
}

abbrev pub first_token : RefreshToken
first_token = record {
  token = "first";
  user_id = "user-1";
  session_id = "session-1";
  status = "ACTIVE";
  expires_at = 1000;
  created_at = 1;
}

abbrev pub second_token : RefreshToken
second_token = record first_token { token = "second"; status = "USED" }

-- There is an ACTIVE token, and then a USED one too.
abbrev pub one_token : Memory
one_token = (RefreshTokenRepository.create platform first_token no_tokens).1

abbrev pub two_tokens : Memory
two_tokens = (RefreshTokenRepository.create platform second_token one_token).1

-- The same, after both tokens have expired.
abbrev pub later : Memory
later = record two_tokens { os = 2000 }

abbrev pub first_record : RefreshTokenRecord
first_record = RefreshTokenRepository.to_record first_token

abbrev pub used_record : RefreshTokenRecord
used_record = RefreshTokenRepository.to_record second_token

pub no_tokens-IsIndexed : IsIndexed platform views no_tokens
unfolding record_at
no_tokens-IsIndexed token r at = absurd cc

pub one_token-IsIndexed : IsIndexed platform views one_token
one_token-IsIndexed = create-IsIndexed platform views laws first_token no_tokens no_tokens-IsIndexed

pub two_tokens-IsIndexed : IsIndexed platform views two_tokens
two_tokens-IsIndexed =
    create-IsIndexed platform views laws second_token one_token one_token-IsIndexed
