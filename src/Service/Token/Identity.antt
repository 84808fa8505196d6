-- ===== src/Service/Token/Identity.antt =====
-- What ValidateAccessToken has checked of a token that it accepts.
use auth_login_load_balancin.Prelude.{
  ℕ, ◌≤◌, String, ◌≡◌, ◌≢◌, ◌==◌, refl, true, false, List, Option, none, some, inl, inr, Bool-cases,
  eq_iff,
}
use auth_login_load_balancin.Prelude.Exec.{Result, ok, err, ran, >>=-eq-ok, lift-eq-ok}
use auth_login_load_balancin.Model.{AuthIdentity}
use auth_login_load_balancin.Platform.{
  Platform, World, Claim, text, texts, number, other, ParsedToken,
}
use auth_login_load_balancin.Platform.Laws.{Views, Laws}
use auth_login_load_balancin.Repository.Clock.Laws.{current_time-eq-ok}
use auth_login_load_balancin.Service.Token.{
  TokenConfig, claim_at, subject_of, email_of, keyfunc, parse_options, checked_email,
  checked_subject, checked_claims, identity_of, validate_access_token,
}

-- The claims name a user and an email, and neither is empty.
pub record Identifies (claims : List (String × Claim)) (identity : AuthIdentity) : Type 0 where
  pub subject : claim_at "sub" claims ≡ some (text identity.user_id)
  pub email : claim_at "email" claims ≡ some (text identity.email)
  pub has_subject : identity.user_id ≢ ""
  pub has_email : identity.email ≢ ""

filled : (s : String) → (s == "") ≡ false → s ≢ ""
filled s h e = cc (h, (eq_iff s "").1 e)

email_of-eq-some : (o : Option Claim) {s : String} → email_of o ≡ some s → o ≡ some (text s)
email_of-eq-some none h = cc
email_of-eq-some (some (text s)) h = cc
email_of-eq-some (some (texts ss)) h = cc
email_of-eq-some (some (number n)) h = cc
email_of-eq-some (some other) h = cc

subject_of-eq-ok :
    (o : Option Claim) {s : String} → subject_of o ≡ ok s → s ≢ "" → o ≡ some (text s)
subject_of-eq-ok none h differ = absurd (differ cc)
subject_of-eq-ok (some (text s)) h differ = cc
subject_of-eq-ok (some (texts ss)) h differ = cc
subject_of-eq-ok (some (number n)) h differ = cc
subject_of-eq-ok (some other) h differ = cc

checked_email-eq-ok :
    (subject : String) (o : Option String) {i : AuthIdentity}
    → checked_email subject o ≡ ok i
    → (o ≡ some i.email) × (i.user_id ≡ subject) × (i.email ≢ "")
checked_email-eq-ok subject none h = absurd cc
checked_email-eq-ok subject (some email) {i} h = elim (Bool-cases (email == "")) [
  | inl blank ↦ absurd (cc (rw blank at h))
  | inr full ↦
      let same : record { user_id = subject; email = email } ≡ i = cc (rw full at h) in
      rw (← same) (refl, refl, filled email full)
]

checked_subject-Identifies :
    (claims : List (String × Claim)) (r : Result String) {i : AuthIdentity}
    → subject_of (claim_at "sub" claims) ≡ r
    → checked_subject claims r ≡ ok i
    → Identifies claims i
checked_subject-Identifies claims (err e) is h = absurd cc
checked_subject-Identifies claims (ok s) {i} is h = elim (Bool-cases (s == "")) [
  | inl blank ↦ absurd (cc (rw blank at h))
  | inr full ↦
      let (email, user, named) = checked_email-eq-ok s _ (rw full at h) in
      record {
        subject = rw user (subject_of-eq-ok _ is (filled s full));
        email = email_of-eq-some _ email;
        has_subject = rw user (filled s full);
        has_email = named;
      }
]

-- The parser accepted the token, at a moment of the call, as valid and with these claims.
pub record Accepted (identity : AuthIdentity) (parse : Result ParsedToken) : Type 0 where
  pub token : ParsedToken
  pub parsed : parse ≡ ok token
  pub is_valid : token.valid ≡ true
  pub claims : List (String × Claim)
  pub has_claims : token.claims ≡ some claims
  pub identifies : Identifies claims identity

checked_claims-eq-ok :
    (o : Option (List (String × Claim))) {i : AuthIdentity}
    → checked_claims o ≡ ok i
    → (claims : List (String × Claim)) × (o ≡ some claims) × Identifies claims i
checked_claims-eq-ok none h = absurd cc
checked_claims-eq-ok (some claims) h = (claims, refl, checked_subject-Identifies claims _ refl h)

identity_of-Accepted :
    (r : Result ParsedToken) {i : AuthIdentity} → identity_of r ≡ ok i → Accepted i r
unfolding identity_of
identity_of-Accepted (err e) h = absurd cc
identity_of-Accepted (ok token) h = elim (Bool-cases (token.valid)) [
  | inr invalid ↦ absurd (cc (rw invalid at h))
  | inl valid ↦
      let (claims, has, names) = checked_claims-eq-ok token.claims (rw valid at h) in
      record {
        token = token;
        parsed = refl;
        is_valid = valid;
        claims = claims;
        has_claims = has;
        identifies = names;
      }
]

-- A ValidateAccessToken that succeeds has had the token accepted by the parser, with the service's
-- key for HMAC methods, HS256, its issuer and audience, at a moment of the call; the identity is the
-- token's "sub" and "email", and neither is empty.
pub validate_access_token-Accepted :
    {S D O : Type 0} (p : Platform S D O) (v : Views S D O) (l : Laws p v) (c : TokenConfig)
    (access_token : String) (w : World S D O) {i : AuthIdentity} {t : World S D O}
    → validate_access_token p c access_token w ≡ (ok i, t)
    → (now : ℕ) × (v.time w.os ≤ now)
      × (now ≤ v.time t.os)
      × Accepted i (p.lib.jwt_parse now access_token (keyfunc c) (parse_options c))
unfolding validate_access_token
validate_access_token-Accepted p v l c access_token w h = elim (>>=-eq-ok _ _ w h) [
  | ran now t₁ timed h₁ ↦
      let (accepts, same) = lift-eq-ok _ t₁ h₁ in
      let (from, to) = current_time-eq-ok p v l w timed in
      (now, from, rw (← same) to, identity_of-Accepted _ accepts)
]
