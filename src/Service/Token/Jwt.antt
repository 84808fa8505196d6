-- ===== src/Service/Token/Jwt.antt =====
-- What github.com/golang-jwt/jwt/v5 documents of jwt.Parse with the options that the token service
-- gives it: a token that it calls valid has been signed with a method among the valid ones and with
-- the key that the key function gives for this method, and its registered claims have been checked.
use mathlib.Core.List.{Memᴰ}
use auth_login_load_balancin.Prelude.{
  ℕ, ◌+◌, ◌*◌, ◌<◌, ◌≤◌, String, true, ◌≡◌, ◌≢◌, ◌⊎◌, List, [], Option, some,
}
use auth_login_load_balancin.Prelude.Exec.{Result, ok}
use auth_login_load_balancin.Go.Time
use auth_login_load_balancin.Platform.{
  Libraries, Claim, text, texts, number, SigningMethod, hmac, another_method, ParsedToken,
  ParseOptions,
}
use auth_login_load_balancin.Service.Token.{claim_at}

-- method.Alg()
abbrev pub alg : SigningMethod → String
alg (hmac name) = name
alg (another_method name) = name

-- The "aud" claim is the audience, or a list that has it.
abbrev pub IsFor : String → Option Claim → Type 0
IsFor audience claim =
    (claim ≡ some (text audience))
    ⊎ ((all : List String) × (claim ≡ some (texts all)) × Memᴰ audience all)

-- The registered claims of a token at a moment, with a leeway. An issuer or an audience is required
-- where one is expected; the times are checked where the token has them.
pub record Current (options : ParseOptions) (now : ℕ) (claims : List (String × Claim))
    : Type 0 where
  pub issuer : options.issuer ≢ "" → claim_at "iss" claims ≡ some (text options.issuer)
  pub audience : options.audience ≢ "" → IsFor options.audience (claim_at "aud" claims)
  pub expires :
      (seconds : ℕ)
      → claim_at "exp" claims ≡ some (number seconds)
      → now < seconds * Time.second + options.leeway
  pub begins :
      (seconds : ℕ)
      → claim_at "nbf" claims ≡ some (number seconds)
      → seconds * Time.second ≤ now + options.leeway

-- `Signs method key token` says that the signature of the token is one of the method with the key.
pub record JwtLaws (lib : Libraries) (Signs : SigningMethod → String → String → Type 0)
    : Type 0 where
  pub verifies :
      (now : ℕ) (token : String) (keyfunc : SigningMethod → Result String) (options : ParseOptions)
      {parsed : ParsedToken}
      → lib.jwt_parse now token keyfunc options ≡ ok parsed
      → parsed.valid ≡ true
      → (method : SigningMethod) × (key : String) × (keyfunc method ≡ ok key)
        × Signs method key token
        × (options.valid_methods ≢ [] → Memᴰ (alg method) options.valid_methods)
  pub validates :
      (now : ℕ) (token : String) (keyfunc : SigningMethod → Result String) (options : ParseOptions)
      {parsed : ParsedToken}
      → lib.jwt_parse now token keyfunc options ≡ ok parsed
      → parsed.valid ≡ true
      → (claims : List (String × Claim)) → parsed.claims ≡ some claims
      → Current options now claims
