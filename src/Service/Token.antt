-- ===== src/Service/Token.antt =====
-- internal/service/token_service.go: access tokens (JWT) and refresh tokens.
pub mod Fresh
pub mod Identity
pub mod Jwt
pub mod Genuine
use auth_login_load_balancin.Prelude.{
  ℕ, zero, suc, ◌/◌, ◌*◌, String, ◌==◌, List, [], ◌∷◌, Option, none, some, if◌then◌else◌,
}
use auth_login_load_balancin.Prelude.Exec.{Result, ok, err, Exec, pure, lift, ◌>>=◌}
use auth_login_load_balancin.Prelude.Int.{ℤ, pos, negsuc}
use auth_login_load_balancin.Errors.{invalid_token}
use auth_login_load_balancin.Go.Time
use auth_login_load_balancin.Model.{AuthIdentity, RefreshToken}
use auth_login_load_balancin.Platform.{
  Platform, World, Claim, text, texts, number, SigningMethod, hmac, another_method, ParsedToken,
  ParseOptions, on_os,
}
use auth_login_load_balancin.Repository.Clock.{current_time, time_until}

-- The fields of TokenService.
pub record TokenConfig : Type 0 where
  pub access_secret : String
  pub access_ttl_minutes : ℤ
  pub refresh_ttl_hours : ℤ
  pub issuer : String
  pub audience : String

-- int64(d.Seconds()): the whole seconds of a duration, towards zero.
abbrev pub negative : ℕ → ℤ
negative zero = pos 0
negative (suc n) = negsuc n

abbrev pub whole_seconds : ℤ → ℤ
whole_seconds (pos n) = pos (n / Time.second)
whole_seconds (negsuc n) = negative (suc n / Time.second)

-- A claim of a jwt.MapClaims.
unfoldable pub claim_at : String → List (String × Claim) → Option Claim
claim_at key [] = none
claim_at key ((k, c) ∷ claims) = if k == key then some c else claim_at key claims

-- claims.GetSubject(): empty where the claim is missing, an error where it is no text.
abbrev pub subject_of : Option Claim → Result String
subject_of none = ok ""
subject_of (some (text s)) = ok s
subject_of (some _) = err invalid_token

-- claims["email"].(string)
abbrev pub email_of : Option Claim → Option String
email_of (some (text s)) = some s
email_of _ = none

-- The claims of a user's access token.
abbrev pub access_claims : TokenConfig → String → String → ℕ → ℕ → List (String × Claim)
access_claims c user_id email now expires_at =
    ("sub", text user_id)
    ∷ ("email", text email)
    ∷ ("iat", number (Time.unix now))
    ∷ ("nbf", number (Time.unix now))
    ∷ ("exp", number (Time.unix expires_at))
    ∷ ("iss", text c.issuer)
    ∷ ("aud", texts (c.audience ∷ []))
    ∷ []

-- The key for a token that claims an HMAC method.
abbrev pub keyfunc : TokenConfig → SigningMethod → Result String
keyfunc c (hmac name) = ok c.access_secret
keyfunc c (another_method name) = err invalid_token

abbrev pub parse_options : TokenConfig → ParseOptions
parse_options c = record {
  valid_methods = "HS256" ∷ [];
  issuer = c.issuer;
  audience = c.audience;
  leeway = 30 * Time.second;
}

-- The checks of ValidateAccessToken on the claims of a valid token.
abbrev pub checked_email : String → Option String → Result AuthIdentity
checked_email subject none = err invalid_token
checked_email subject (some email) =
    if email == "" then err invalid_token else ok (record { user_id = subject; email = email })

abbrev pub checked_subject : List (String × Claim) → Result String → Result AuthIdentity
checked_subject claims (err e) = err invalid_token
checked_subject claims (ok subject) =
    if subject == ""
    then err invalid_token
    else checked_email subject (email_of (claim_at "email" claims))

abbrev pub checked_claims : Option (List (String × Claim)) → Result AuthIdentity
checked_claims none = err invalid_token
checked_claims (some claims) = checked_subject claims (subject_of (claim_at "sub" claims))

unfoldable pub identity_of : Result ParsedToken → Result AuthIdentity
identity_of (err e) = err invalid_token
identity_of (ok token) = if token.valid then checked_claims token.claims else err invalid_token

module _ {S D O : Type 0} (p : Platform S D O) (c : TokenConfig) where
  unfoldable pub generate_access_token : String → String → Exec (World S D O) (String × ℤ)
  generate_access_token user_id email = do
    now ← current_time p
    let expires_at = Time.add now (Time.minutes c.access_ttl_minutes)
    signed ←
        lift (p.lib.signed_string (access_claims c user_id email now expires_at) c.access_secret)
    left ← time_until p expires_at
    pure (signed, whole_seconds left)

  -- The library reads the clock when it validates the times in the claims.
  unfoldable pub validate_access_token : String → Exec (World S D O) AuthIdentity
  validate_access_token access_token = do
    now ← current_time p
    lift (identity_of (p.lib.jwt_parse now access_token (keyfunc c) (parse_options c)))

  -- 32 random bytes, in the URL alphabet of base64 with no padding. SessionID is left empty.
  unfoldable pub generate_refresh_token : String → Exec (World S D O) RefreshToken
  generate_refresh_token user_id = do
    random_bytes ← on_os (p.os.rand_read 32)
    now ← current_time p
    pure (record {
      token = p.lib.raw_url_encode random_bytes;
      user_id = user_id;
      session_id = "";
      status = "ACTIVE";
      expires_at = Time.add now (Time.hours c.refresh_ttl_hours);
      created_at = now;
    })
