-- ===== src/Handler/Routes/Secured.antt =====
-- SecurityHeaders and what is inside it: the headers that it passes on and sets.
use auth_login_load_balancin.Prelude.{String, ◌≡◌, refl, true, false, ◌==◌, inl, inr, Bool-cases}
use auth_login_load_balancin.Go.Time
use auth_login_load_balancin.Go.Strings.Split.{has_prefix}
use auth_login_load_balancin.Platform.{Platform, World}
use auth_login_load_balancin.Http.{Request, Reply, Handler}
use auth_login_load_balancin.Http.Headers.{canonical}
use auth_login_load_balancin.Http.Library.{Web}
use auth_login_load_balancin.Middleware.Basic.{
  no_store, security_headers, cors, request_logger, recoverer,
}
use auth_login_load_balancin.Middleware.Timeout.{timeout}
use auth_login_load_balancin.Middleware.Carried.{Carries, set-Carries, set_same-Carries}
use auth_login_load_balancin.Middleware.Passed.{
  Outer, Passes, Answers, Sendable, recoverer-Calm, recoverer-Sendable, timeout-Answers,
  timeout-Passes, cors-Answers, cors-Passes, request_logger-Answers, request_logger-Passes,
}
use auth_login_load_balancin.Handler.{HandlerConfig}

-- The headers that the outer middleware sets, which the inner middleware leaves alone.
abbrev pub OuterHeaders : Type 0
OuterHeaders =
    Outer (canonical "X-Request-ID")
    × Outer (canonical "X-App-Instance")
    × Outer (canonical "X-Content-Type-Options")
    × Outer (canonical "X-Frame-Options")
    × Outer (canonical "Referrer-Policy")
    × Outer (canonical "Cache-Control")

pub outer_headers : OuterHeaders
unfolding canonical
outer_headers = (
  (refl, refl, refl, refl, refl, refl),
  (refl, refl, refl, refl, refl, refl),
  (refl, refl, refl, refl, refl, refl),
  (refl, refl, refl, refl, refl, refl),
  (refl, refl, refl, refl, refl, refl),
  (refl, refl, refl, refl, refl, refl),
)

module _ {S D O : Type 0} (p : Platform S D O) (web : Web (World S D O)) (h : HandlerConfig)
    (next : Handler (World S D O)) where
  -- CORS and what is inside it.
  abbrev pub inner : Handler (World S D O)
  inner =
      cors web p.lib h.config.cors_allowed_origins h.config.cors_allowed_methods
        h.config.cors_allowed_headers h.config.cors_allow_credentials
        (request_logger
          (timeout web (Time.seconds h.config.request_timeout_sec) (recoverer web next)))

  inner-Answers : Sendable next → Answers inner
  inner-Answers sendable = cors-Answers web p.lib _ _ _ _ _ (
      request_logger-Answers _
        (timeout-Answers web _ _ (recoverer-Calm web _) (recoverer-Sendable web _ sendable)))

  inner-Passes : (key x : String) → Outer key → Passes key x inner
  inner-Passes key x outer =
      cors-Passes web key x outer p.lib _ _ _ _ _
        (request_logger-Passes key x _ (timeout-Passes web key x outer _ _))

  -- SecurityHeaders passes the headers on that it does not set.
  abbrev pub BeforeSecurity : String → Type 0
  BeforeSecurity key =
      ((canonical "X-Content-Type-Options" == key) ≡ false)
      × ((canonical "X-Frame-Options" == key) ≡ false)
      × ((canonical "Referrer-Policy" == key) ≡ false)
      × ((canonical "X-XSS-Protection" == key) ≡ false)
      × ((canonical "Cache-Control" == key) ≡ false)

  no_store-Carries :
      (key x : String) (r : Request) (a : Reply (World S D O))
      → (canonical "Cache-Control" == key) ≡ false
      → Carries key x a.writer
      → Carries key x (no_store r a).writer
  no_store-Carries key x r a differ c = elim (Bool-cases (has_prefix r.path "/auth/")) [
    | inl auth ↦ rw auth (set-Carries key x _ _ _ differ c)
    | inr other ↦ rw other c
  ]

  pub security_headers-Carries :
      (key x : String)
      → Outer key
      → BeforeSecurity key
      → (r : Request) (a : Reply (World S D O)) → Carries key x a.writer
      → Carries key x (security_headers inner r a).writer
  unfolding security_headers
  security_headers-Carries key x outer before r a c = (inner-Passes key x outer).at r _ (
      no_store-Carries key x r _ before.4 (
        set-Carries key x _ _ _ before.3 (
          set-Carries key x _ _ _ before.2
            (set-Carries key x _ _ _ before.1 (set-Carries key x _ _ _ before.0 c)))))

  -- The headers that SecurityHeaders sets.
  pub security_headers-Secured :
      (r : Request) (a : Reply (World S D O))
      → a.writer.status ≡ 0
      → Carries (canonical "X-Content-Type-Options") "nosniff" (security_headers inner r a).writer
        × Carries (canonical "X-Frame-Options") "DENY" (security_headers inner r a).writer
        × Carries (canonical "Referrer-Policy") "no-referrer" (security_headers inner r a).writer
        × (has_prefix r.path "/auth/" ≡ true
            → Carries (canonical "Cache-Control") "no-store" (security_headers inner r a).writer)
  unfolding security_headers canonical
  security_headers-Secured r a fresh =
      let options = set_same-Carries "X-Content-Type-Options" "nosniff" a.writer fresh in
      let frames = set_same-Carries "X-Frame-Options" "DENY" _ fresh in
      let referrer = set_same-Carries "Referrer-Policy" "no-referrer" _ fresh in
      (
        (inner-Passes _ _ outer_headers.2).at r _ (
            no_store-Carries _ _ r _ refl (
              set-Carries _ _ _ _ _ refl
                (set-Carries _ _ _ _ _ refl (set-Carries _ _ _ _ _ refl options)))),
        (inner-Passes _ _ outer_headers.3).at r _ (
            no_store-Carries _ _ r _ refl
              (set-Carries _ _ _ _ _ refl (set-Carries _ _ _ _ _ refl frames))),
        (inner-Passes _ _ outer_headers.4).at r _
            (no_store-Carries _ _ r _ refl (set-Carries _ _ _ _ _ refl referrer)),
        λ auth.
            (inner-Passes _ _ outer_headers.5).at r _
              (rw auth (set_same-Carries "Cache-Control" "no-store" _ fresh)),
      )

  pub security_headers-Answers : Sendable next → Answers (security_headers inner)
  unfolding security_headers
  security_headers-Answers sendable = record {
    at = λ r a quiet. elim (Bool-cases (has_prefix r.path "/auth/")) [
      | inl auth ↦ rw auth ((inner-Answers sendable).at r _ quiet)
      | inr other ↦ rw other ((inner-Answers sendable).at r _ quiet)
    ];
  }
