-- ===== src/Config/Checked.antt =====
-- What holds of the configuration of a process that has started.
use Prim.Native.Char.{Char}
use auth_login_load_balancin.Prelude.{
  ◌≤◌, String, ◌≡◌, ◌≢◌, ◌↔◌, refl, Bool, true, false, not, ◌&&◌, ◌||◌, ◌==◌, ltb, inl, inr,
  Bool-cases, or-eq-false_iff, is_empty, arith, eq_iff, All, ==-eq-false_of_ne, List, [], ◌∷◌,
}
use auth_login_load_balancin.Prelude.Int.{ℤ, pos, ltb_ℤ, leb_ℤ}
use auth_login_load_balancin.Go.Strings.{
  trim_space, trim_left, trim_right, is_space, to_lower, lower_rune,
}
use auth_login_load_balancin.Go.Strings.Split.{byte_length}
use auth_login_load_balancin.Go.Strings.Fold.{equal_fold}
use auth_login_load_balancin.Platform.{Libraries}
use auth_login_load_balancin.Config.Env.{Environment}
use auth_login_load_balancin.Config.{
  Config, loaded, default_jwt_secret, read_config, apply_secure_defaults, checks, first_panic,
  validate, load,
}

-- What the tests of validate ask for.
pub record IsValid (lib : Libraries) (c : Config) : Type 0 where
  pub has_secret : trim_space c.jwt_access_secret ≢ ""
  pub access_ttl : ltb_ℤ (pos 0) c.jwt_access_ttl_minutes ≡ true
  pub refresh_ttl : ltb_ℤ (pos 0) c.refresh_token_ttl_hours ≡ true
  pub request_timeout : ltb_ℤ (pos 0) c.request_timeout_sec ≡ true
  pub shutdown_timeout : ltb_ℤ (pos 0) c.shutdown_timeout_sec ≡ true
  pub same_site :
      equal_fold lib.fold_table (trim_space c.cookie_same_site) "none" ≡ true
      → c.cookie_secure ≡ true
  pub cors : c.cors_allow_credentials ≡ true → c.cors_allowed_origins ≢ []
  pub strong_secret :
      c.app_env ≡ "production"
      → (c.jwt_access_secret ≢ default_jwt_secret) × (32 ≤ byte_length c.jwt_access_secret)

-- What applySecureDefaults makes of a configuration for production.
pub record IsSecure (lib : Libraries) (c : Config) : Type 0 where
  pub cookie : c.app_env ≡ "production" → c.cookie_secure ≡ true
  pub ssl_mode :
      c.app_env ≡ "production"
      → equal_fold lib.fold_table (trim_space c.db_ssl_mode) "disable" ≡ false

require_ne_disable :
    (table : Char → Char) → equal_fold table (trim_space "require") "disable" ≡ false
unfolding to_lower lower_rune trim_space trim_left trim_right is_space
require_ne_disable table = refl

apply_secure_defaults-IsSecure :
    (lib : Libraries) (c : Config) → IsSecure lib (apply_secure_defaults lib c)
unfolding apply_secure_defaults
apply_secure_defaults-IsSecure lib c = elim (Bool-cases (c.app_env == "production")) [
  | inr other ↦ rw other (record {
    cookie = λ e. absurd (cc (other, (eq_iff c.app_env "production").1 e));
    ssl_mode = λ e. absurd (cc (other, (eq_iff c.app_env "production").1 e));
  })
  | inl production ↦ rw production (record {
    cookie = λ e. refl;
    ssl_mode = λ e.
        elim (Bool-cases (equal_fold lib.fold_table (trim_space c.db_ssl_mode) "disable")) [
          | inl off ↦ rw off (require_ne_disable lib.fold_table)
          | inr on ↦ rw on on
        ];
  })
]

-- A configuration goes through exactly when no test panics.
passes :
    (c d : Config) (tests : List (Bool × String))
    → first_panic c tests ≡ loaded d
    → (d ≡ c) × All (λ (t : Bool × String). t.0 ≡ false) tests
passes c d [] h = (cc, tt)
passes c d ((true, m) ∷ tests) h = absurd cc
passes c d ((false, m) ∷ tests) h = let (same, rest) = passes c d tests h in (same, (refl, rest))

goes_through :
    (c : Config) (tests : List (Bool × String))
    → All (λ (t : Bool × String). t.0 ≡ false) tests
    → first_panic c tests ≡ loaded c
goes_through c [] h = refl
goes_through c ((b, m) ∷ tests) (fails, rest) = rw fails (goes_through c tests rest)

positive_iff : (z : ℤ) → (leb_ℤ z (pos 0) ≡ false) ↔ (ltb_ℤ (pos 0) z ≡ true)
positive_iff z = (λ h. ground (arith, h), λ h. ground (arith, h))

is_empty-ne : (xs : List String) → is_empty xs ≡ false → xs ≢ []
is_empty-ne [] h e = cc
is_empty-ne (x ∷ xs) h e = cc

is_empty-eq-false_of_ne : (xs : List String) → xs ≢ [] → is_empty xs ≡ false
is_empty-eq-false_of_ne [] h = absurd (h refl)
is_empty-eq-false_of_ne (x ∷ xs) h = refl

implies_iff : (a b : Bool) → ((a && not b) ≡ false) ↔ (a ≡ true → b ≡ true)
implies_iff true true = (λ h k. refl, λ h. refl)
implies_iff true false = (λ h k. cc, λ h. cc (h refl))
implies_iff false b = (λ h k. cc, λ h. refl)

-- A conjunction fails where its second part does, if its first part holds.
and-eq-false : (a b : Bool) → (a ≡ true → b ≡ false) → (a && b) ≡ false
and-eq-false true b h = h refl
and-eq-false false b h = refl

strong_iff :
    (secret : String)
    → ((secret == default_jwt_secret || ltb (byte_length secret) 32) ≡ false)
      ↔ ((secret ≢ default_jwt_secret) × (32 ≤ byte_length secret))
strong_iff secret = (
  λ h.
      let (other, long) =
        (or-eq-false_iff (secret == default_jwt_secret) (ltb (byte_length secret) 32)).0 h in
      (λ e. cc (other, (eq_iff secret default_jwt_secret).1 e), ground (arith, long)),
  λ h.
      (or-eq-false_iff _ _).1
        (==-eq-false_of_ne secret default_jwt_secret h.0, ground (arith, h.1)),
)

-- The tests of validate, one by one.
tests_iff :
    (lib : Libraries) (c : Config)
    → All (λ (t : Bool × String). t.0 ≡ false) (checks lib c) ↔ IsValid lib c
unfolding checks
tests_iff lib c = (
  λ h. record {
    has_secret = λ e. cc (h.0, (eq_iff _ "").1 e);
    access_ttl = (positive_iff _).0 h.1.0;
    refresh_ttl = (positive_iff _).0 h.1.1.0;
    request_timeout = (positive_iff _).0 h.1.1.1.0;
    shutdown_timeout = (positive_iff _).0 h.1.1.1.1.0;
    same_site = (implies_iff _ _).0 h.1.1.1.1.1.0;
    cors = λ allows. is_empty-ne _ (rw allows at h.1.1.1.1.1.1.0);
    strong_secret =
        λ e. (strong_iff _).0 (rw ((eq_iff c.app_env "production").1 e) at h.1.1.1.1.1.1.1.0);
  },
  λ v. (
    ==-eq-false_of_ne _ _ v.has_secret,
    (
      (positive_iff _).1 v.access_ttl,
      (
        (positive_iff _).1 v.refresh_ttl,
        (
          (positive_iff _).1 v.request_timeout,
          (
            (positive_iff _).1 v.shutdown_timeout,
            (
              (implies_iff _ _).1 v.same_site,
              (
                and-eq-false _ _ (λ allows. is_empty-eq-false_of_ne _ (v.cors allows)),
                (
                  and-eq-false _ _ (λ e.
                      (strong_iff _).1 (v.strong_secret ((eq_iff c.app_env "production").0 e))),
                  tt,
                ),
              ),
            ),
          ),
        ),
      ),
    ),
  ),
)

-- A start goes on exactly when the configuration that is read from the environment, with the secure
-- defaults, passes every test; it then has this configuration, which for production has secure
-- cookies, a database connection that is not plain text where the variables name one, and a secret
-- of its own of at least 32 bytes.
pub load_iff :
    (lib : Libraries) (env : Environment) (c : Config)
    → (load lib env ≡ loaded c)
      ↔ ((c ≡ apply_secure_defaults lib (read_config lib env)) × IsValid lib c × IsSecure lib c)
unfolding load validate
load_iff lib env c = (
  λ h.
      let (same, fails) = passes _ c _ h in
      (same, rw same ((tests_iff lib _).0 fails), rw same (apply_secure_defaults-IsSecure lib _)),
  λ (same, valid, _). rw same (goes_through _ _ ((tests_iff lib _).1 (rw same at valid))),
)
