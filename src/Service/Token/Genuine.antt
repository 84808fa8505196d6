-- ===== src/Service/Token/Genuine.antt =====
-- An access token that is accepted has been signed with the secret of the service.
use mathlib.Core.List.{Memᴰ}
use mathlib.Core.List.Memᴰ
use auth_login_load_balancin.Prelude.{
  ℕ, ◌+◌, ◌*◌, ◌<◌, ◌≤◌, String, ◌≡◌, ◌≢◌, List, [], ◌∷◌, some, inl, inr,
}
use auth_login_load_balancin.Prelude.Exec.{ok}
use auth_login_load_balancin.Go.Time
use auth_login_load_balancin.Model.{AuthIdentity}
use auth_login_load_balancin.Platform.{
  Platform, World, Claim, text, number, SigningMethod, hmac, another_method,
}
use auth_login_load_balancin.Platform.Laws.{Views, Laws}
use auth_login_load_balancin.Service.Token.{
  TokenConfig, claim_at, keyfunc, parse_options, validate_access_token,
}
use auth_login_load_balancin.Service.Token.Identity.{Identifies, validate_access_token-Accepted}
use auth_login_load_balancin.Service.Token.Jwt.{alg, IsFor, JwtLaws}

-- The token is signed with the secret by HS256, is of this issuer and for this audience, and is for
-- this identity; at the moment it had begun and had not expired, with 30 seconds of leeway.
pub record Genuine (c : TokenConfig) (Signs : SigningMethod → String → String → Type 0)
    (access_token : String) (now : ℕ) (identity : AuthIdentity) : Type 0 where
  pub signed : Signs (hmac "HS256") c.access_secret access_token
  pub claims : List (String × Claim)
  pub identifies : Identifies claims identity
  pub issuer : c.issuer ≢ "" → claim_at "iss" claims ≡ some (text c.issuer)
  pub audience : c.audience ≢ "" → IsFor c.audience (claim_at "aud" claims)
  pub expires :
      (seconds : ℕ)
      → claim_at "exp" claims ≡ some (number seconds)
      → now < seconds * Time.second + 30 * Time.second
  pub begins :
      (seconds : ℕ)
      → claim_at "nbf" claims ≡ some (number seconds)
      → seconds * Time.second ≤ now + 30 * Time.second

in_singleton : {x y : String} → Memᴰ x (y ∷ []) → x ≡ y
in_singleton h = elim (Memᴰ.cases_cons h) [
  | inl same ↦ same
  | inr none ↦ absurd (Memᴰ.not-nil none)
]

-- The key function gives a key to HMAC methods only, and it is the secret.
keyfunc-eq-ok :
    (c : TokenConfig) (method : SigningMethod) {key : String}
    → keyfunc c method ≡ ok key
    → alg method ≡ "HS256"
    → (method ≡ hmac "HS256") × (key ≡ c.access_secret)
keyfunc-eq-ok c (hmac name) h is = (cc, cc)
keyfunc-eq-ok c (another_method name) h is = absurd cc

-- Where the parser is as its documentation says, an access token that ValidateAccessToken accepts is
-- signed by HS256 with the secret of the service; its "iss" and its "aud" are those of the service,
-- where they are configured; at a moment of the call it had begun and had not expired, where it has an
-- "nbf" and an "exp", with 30 seconds of leeway; and the identity is its "sub" and "email", neither of
-- them empty.
pub validate_access_token-Genuine :
    {S D O : Type 0} (p : Platform S D O) (v : Views S D O) (l : Laws p v)
    (Signs : SigningMethod → String → String → Type 0) (jwt : JwtLaws p.lib Signs) (c : TokenConfig)
    (access_token : String) (w : World S D O) {i : AuthIdentity} {t : World S D O}
    → validate_access_token p c access_token w ≡ (ok i, t)
    → (now : ℕ) × (v.time w.os ≤ now) × (now ≤ v.time t.os) × Genuine c Signs access_token now i
validate_access_token-Genuine p v l Signs jwt c access_token w {i} h =
    let (now, from, to, accepted) = validate_access_token-Accepted p v l c access_token w h in
    let (method, key, gives, signs, among) =
      jwt.verifies now access_token (keyfunc c) (parse_options c) accepted.parsed
        accepted.is_valid in
    let current =
      jwt.validates now access_token (keyfunc c) (parse_options c) accepted.parsed accepted.is_valid
        accepted.claims accepted.has_claims in
    let listed : Memᴰ (alg method) ("HS256" ∷ []) = among (λ e. cc e) in
    let (by_hmac, with_secret) = keyfunc-eq-ok c method gives (in_singleton listed) in
    (
      now,
      from,
      to,
      record {
        signed = rw (by_hmac, with_secret) at signs;
        claims = accepted.claims;
        identifies = accepted.identifies;
        issuer = current.issuer;
        audience = current.audience;
        expires = current.expires;
        begins = current.begins;
      },
    )
