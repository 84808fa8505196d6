-- ===== src/Handler/Routes/Sendable.antt =====
-- Every handler of the routes gives a response a status that net/http accepts, or none.
use auth_login_load_balancin.Prelude.{
  String, ◌==◌, List, [], ◌∷◌, Option, none, some, inl, inr, Bool-cases,
}
use auth_login_load_balancin.Prelude.Int.{ℤ}
use auth_login_load_balancin.Prelude.Exec.{Result, ok, err}
use auth_login_load_balancin.Go.Strings.{trim_space}
use auth_login_load_balancin.Model.{AuthIdentity}
use auth_login_load_balancin.Platform.{Platform, World}
use auth_login_load_balancin.Service.RateLimit.{RateLimitResult}
use auth_login_load_balancin.Http.{Request, Handler}
use auth_login_load_balancin.Http.Headers
use auth_login_load_balancin.Http.Library.{Web}
use auth_login_load_balancin.Middleware.Guards.{
  limited, rate_limit, authorized, with_bearer, require_auth,
}
use auth_login_load_balancin.Middleware.Passed.{Sendable}
use auth_login_load_balancin.Handler.{HandlerConfig}
use auth_login_load_balancin.Handler.Routes.{
  is_known, handler_of, served, chosen, serve_mux, mux, known_routes,
}
use auth_login_load_balancin.Handler.Routes.Sends.{
  Sends, write_error-Sends, refuse-Sends, attend-Sends,
}
use auth_login_load_balancin.Handler.Routes.Written.{
  fixed, handle_root-Sends, handle_health-Sends, handle_me-Sends, handle_register-Sends,
  handle_login-Sends, handle_refresh-Sends, handle_logout-Sends, handle_logout_all-Sends,
  handle_sessions-Sends, handle_session_by_id-Sends,
}

module _ {S D O : Type 0} (p : Platform S D O) (web : Web (World S D O)) (h : HandlerConfig) where
  limited-Sends :
      (next : Handler (World S D O))
      → ((r : Request) → Sends (next r))
      → (r : Request) (o : Result RateLimitResult) → Sends (limited p web next r o)
  limited-Sends next sends r (err e) = record { at = (refuse-Sends web r 500 _ _ fixed.1.2).at }
  limited-Sends next sends r (ok result) = record {
    at = λ a s. elim (Bool-cases result.allowed) [
      | inl lets ↦ rw lets ((sends r).at a s)
      | inr refuses ↦ rw refuses ((refuse-Sends web r 429 _ _ fixed.1.1).at _ s)
    ];
  }

  rate_limit-Sends :
      (scope : String) (limit window : ℤ) (next : Handler (World S D O))
      → ((r : Request) → Sends (next r))
      → (r : Request) → Sends (rate_limit p web scope limit window next r)
  unfolding rate_limit
  rate_limit-Sends scope limit window next sends r = attend-Sends _ _ (limited-Sends next sends r)

  authorized-Sends :
      (next : Handler (World S D O))
      → ((r : Request) → Sends (next r))
      → (r : Request) (o : Result AuthIdentity) → Sends (authorized p web next r o)
  authorized-Sends next sends r (err e) = record { at = (refuse-Sends web r 401 _ _ fixed.0.3).at }
  authorized-Sends next sends r (ok i) = record { at = (sends _).at }

  with_bearer-Sends :
      (next : Handler (World S D O))
      → ((r : Request) → Sends (next r))
      → (r : Request) (o : Option String) → Sends (with_bearer p web h.token_service next r o)
  with_bearer-Sends next sends r none = record { at = (refuse-Sends web r 401 _ _ fixed.0.3).at }
  with_bearer-Sends next sends r (some token) = record {
    at = (attend-Sends _ _ (authorized-Sends next sends r)).at;
  }

  require_auth-Sends :
      (next : Handler (World S D O))
      → ((r : Request) → Sends (next r))
      → (r : Request) → Sends (require_auth p web h.token_service next r)
  unfolding require_auth
  require_auth-Sends next sends r = record {
    at = λ a s. elim (Bool-cases (trim_space (Headers.get "Authorization" r.header) == "")) [
      | inl blank ↦ rw blank ((refuse-Sends web r 401 _ _ fixed.0.3).at a s)
      | inr filled ↦ rw filled ((with_bearer-Sends next sends r _).at a s)
    ];
  }

  AllSend : List (String × Handler (World S D O)) → Type 0
  AllSend [] = Unit {0}
  AllSend ((pattern, handler) ∷ rest) = ((r : Request) → Sends (handler r)) × AllSend rest

  -- ServeMux's own answers have a status that net/http accepts.
  abbrev pub MuxSends : Type 0
  MuxSends =
      (r : Request) → Sends {W = World S D O} (λ a. record a { writer = web.mux_answer r a.writer })

  handler_of-Sends :
      (handlers : List (String × Handler (World S D O)))
      → AllSend handlers
      → MuxSends
      → (pattern : String) (r : Request) → Sends (served web (handler_of web handlers pattern) r)
  unfolding AllSend
  handler_of-Sends [] all answers pattern r = record { at = (answers r).at }
  handler_of-Sends ((other, handler) ∷ rest) all answers pattern r =
      let later = handler_of-Sends rest all.1 answers pattern r in
      elim (Bool-cases (other == pattern)) [
        | inl same ↦ rw same (record { at = (all.0 r).at })
        | inr differ ↦ rw differ (record { at = later.at })
      ]

  chosen-Sends :
      MuxSends
      → (o : Option String) (r : Request) → Sends (served web (chosen web (mux p web h) o) r)
  unfolding mux AllSend
  chosen-Sends answers none r = record { at = (answers r).at }
  chosen-Sends answers (some pattern) r =
      handler_of-Sends (mux p web h)
        (
          handle_root-Sends p web h,
          (
            handle_health-Sends p web h,
            (
              rate_limit-Sends _ _ _ _ (handle_register-Sends p web h),
              (
                rate_limit-Sends _ _ _ _ (handle_login-Sends p web h),
                (
                  rate_limit-Sends _ _ _ _ (handle_refresh-Sends p web h),
                  (
                    handle_logout-Sends p web h,
                    (
                      require_auth-Sends _ (handle_logout_all-Sends p web h),
                      (
                        require_auth-Sends _ (handle_sessions-Sends p web h),
                        (
                          require_auth-Sends _ (handle_session_by_id-Sends p web h),
                          (require_auth-Sends _ (handle_me-Sends p web h), tt),
                        ),
                      ),
                    ),
                  ),
                ),
              ),
            ),
          ),
        )
        answers pattern r

  pub known_routes-Sendable : MuxSends → Sendable (known_routes p web h)
  unfolding known_routes serve_mux
  known_routes-Sendable answers = record {
    at = λ r a fresh. elim (Bool-cases (is_known r.path)) [
      | inl known ↦ rw known ((chosen-Sends answers _ r).at a (inl fresh))
      | inr unknown ↦ rw unknown ((write_error-Sends web r 404 _ _ fixed.1.0).at a (inl fresh))
    ];
  }
