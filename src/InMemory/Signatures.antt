-- ===== src/InMemory/Signatures.antt =====
-- The parser of access tokens in memory is as Service/Token/Jwt.antt asks: a signature is the text of
-- the key.
use mathlib.Core.List.{Memᴰ}
use auth_login_load_balancin.Prelude.{
  ℕ, String, ◌≡◌, ◌==◌, ◌&&◌, refl, List, [], ◌∷◌, true, some, inl, inr, Bool-cases, eq_iff,
}
use auth_login_load_balancin.Prelude.Exec.{Result, ok, err}
use auth_login_load_balancin.Platform.{Claim, text, SigningMethod, hmac, ParsedToken, ParseOptions}
use auth_login_load_balancin.Service.Token.{claim_at}
use auth_login_load_balancin.Service.Token.Jwt.{Current, JwtLaws}
use auth_login_load_balancin.InMemory.Machine.{lib, signature, among, parsed_with}

abbrev pub Signs : SigningMethod → String → String → Type 0
Signs method key token = token ≡ signature key

among-Memᴰ : (x : String) (ys : List String) → among x ys ≡ true → Memᴰ x ys
among-Memᴰ x [] h = absurd cc
among-Memᴰ x (y ∷ ys) h = elim (Bool-cases (x == y)) [
  | inl same ↦ Memᴰ.head ((eq_iff x y).0 same)
  | inr other ↦ Memᴰ.tail (among-Memᴰ x ys (rw other at h))
]

verified :
    (token : String) (options : ParseOptions) (key : Result String) {parsed : ParsedToken}
    → parsed_with token options key ≡ ok parsed
    → parsed.valid ≡ true
    → (k : String) × (key ≡ ok k) × (token ≡ signature k) × Memᴰ "HS256" options.valid_methods
verified token options (err e) h valid = absurd cc
verified token options (ok k) {parsed} h valid =
    let passes : (token == signature k && among "HS256" options.valid_methods) ≡ true = cc in
    elim (Bool-cases (token == signature k)) [
      | inl signed ↦ (k, refl, (eq_iff _ _).0 signed, among-Memᴰ _ _ (rw signed at passes))
      | inr other ↦ absurd (cc (rw other at passes))
    ]

current :
    (now : ℕ) (token : String) (options : ParseOptions) (key : Result String) {parsed : ParsedToken}
    → parsed_with token options key ≡ ok parsed
    → (claims : List (String × Claim)) → parsed.claims ≡ some claims
    → Current options now claims
unfolding claim_at
current now token options (err e) h claims has = absurd cc
current now token options (ok k) {parsed} h claims has =
    let same : ("sub", text "user-1")
          ∷ ("email", text "a@b.c")
          ∷ ("iss", text options.issuer)
          ∷ ("aud", text options.audience)
          ∷ []
        ≡ claims =
      cc in
    rw (← same) (record {
      issuer = λ _. refl;
      audience = λ _. inl refl;
      expires = λ seconds e. absurd cc;
      begins = λ seconds e. absurd cc;
    })

pub jwt-laws : JwtLaws lib Signs
jwt-laws = record {
  verifies = λ now token keyfunc options h valid.
      let (k, gives, signed, listed) = verified token options (keyfunc (hmac "HS256")) h valid in
      (hmac "HS256", k, gives, signed, λ _. listed);
  validates = λ now token keyfunc options h valid claims has.
      current now token options (keyfunc (hmac "HS256")) h claims has;
}
