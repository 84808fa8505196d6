-- ===== src/Examples/Routing.antt =====
-- Requests that go through the middleware of the platform in memory.
use native.Mathlib.Decide.{dec_lt}
use auth_login_load_balancin.Prelude.{
  ℕ, String, ◌<◌, ◌≤◌, ◌≡◌, ◌≢◌, ◌⊎◌, refl, inl, inr, [], ◌∷◌, none, some, true, arith,
}
use auth_login_load_balancin.Prelude.Int.{pos}
use auth_login_load_balancin.Prelude.Exec.{Result, ok, ◌>>=◌}
use auth_login_load_balancin.Go.Strings.{
  trim_space, trim_left, trim_right, is_space, to_lower, lower_rune,
}
use auth_login_load_balancin.Go.Strings.Split.{split_in_two, cut_prefix}
use auth_login_load_balancin.Go.Strings.Fold.{upper_rune}
use auth_login_load_balancin.Model.{AuthIdentity}
use auth_login_load_balancin.Platform.{on_cache, total_os}
use auth_login_load_balancin.InMemory.{Memory, platform, views, laws, counters}
use auth_login_load_balancin.InMemory.Cache.{counter_view}
use auth_login_load_balancin.InMemory.Net.{web}
use auth_login_load_balancin.Repository.Clock.{current_time}
use auth_login_load_balancin.Service.Token.{validate_access_token, identity_of, claim_at}
use auth_login_load_balancin.Service.Health
use auth_login_load_balancin.Service.RateLimit.{RateLimitResult, allow}
use auth_login_load_balancin.Service.RateLimit.Counted.{Counted}
use auth_login_load_balancin.Http.{Request, Reply, Handler, attend, set_header}
use auth_login_load_balancin.Http.Headers
use auth_login_load_balancin.Http.Headers.{values_of, put, canonical, get, set, add}
use auth_login_load_balancin.Http.Response.{write_header, write}
use auth_login_load_balancin.Middleware.Guards.{
  forwarded_address, rate_limit_identifier, rate_limit, require_auth,
}
use auth_login_load_balancin.Middleware.Guarded.{Authorized, require_auth-Authorized}
use auth_login_load_balancin.Middleware.Limited.{IsClient, Waits, rate_limit-Counted}
use auth_login_load_balancin.Go.Strconv.{itoa}
use auth_login_load_balancin.Middleware.Basic.{
  cors, request_id, instance_header, security_headers, request_logger, recoverer,
}
use auth_login_load_balancin.Middleware.Origins.{IsListed, allowed_origin, cors-IsListed}
use auth_login_load_balancin.Middleware.Response.{write_encoded, write_error}
use auth_login_load_balancin.Handler.Response.{write_json, only}
use auth_login_load_balancin.Handler.Accounts.{handle_me, handle_health}
use auth_login_load_balancin.Handler.Routes.{
  is_known, patterns_of, serve_mux, mux, known_routes, middlewares, routes,
}
use auth_login_load_balancin.Handler.Routes.Protected.{known_routes-Authorized}
use auth_login_load_balancin.Handler.Routes.Answered.{Stamped, routes-Stamped, middlewares-Answers}
use auth_login_load_balancin.Middleware.{chain}
use auth_login_load_balancin.Middleware.Passed.{Sendable}
use auth_login_load_balancin.Middleware.Timeout.{timeout, release, copy_header}
use auth_login_load_balancin.Examples.Scenario.{no_tokens}
use auth_login_load_balancin.Examples.Browser.{handlers, request, fresh_reply}

abbrev asking : Request
asking = record (request "GET" "/auth/me") {
  header =
      ("Authorization", "bearer signed with 0123456789abcdef0123456789abcdef" ∷ [])
      ∷ ("Origin", "https://app" ∷ [])
      ∷ ("X-Request-Id", "r-1" ∷ [])
      ∷ [];
}

-- A handler that sets a header and panics.
abbrev failing : Handler Memory
failing r a = record (set_header "X-App-Instance" "another" a) { panic = some "out of memory" }

failing-Sendable : Sendable failing
failing-Sendable = record { at = λ r a fresh. inl fresh }

middlewares-Answers_example :
    ((chain failing (middlewares platform web handlers) asking (fresh_reply no_tokens)).panic
      ≡ none)
    × (0
        < (chain failing
            (middlewares platform web handlers)
            asking
            (fresh_reply no_tokens)).writer.status)
middlewares-Answers_example =
    middlewares-Answers platform web handlers failing asking (fresh_reply no_tokens)
      failing-Sendable refl

-- A client that sends no identifier.
abbrev anonymous : Request
anonymous = request "GET" "/health"

sent_200 : (routes platform web handlers anonymous (fresh_reply no_tokens)).writer.status ≡ 200
unfolding trim_space trim_left trim_right is_space to_lower lower_rune dec_lt ◌>>=◌ total_os attend
    values_of put canonical get set write_header write write_encoded write_json only is_known
    serve_mux mux known_routes routes middlewares chain request_id instance_header security_headers
    cors request_logger timeout recoverer release copy_header add cut_prefix handle_health
    Health.check current_time
sent_200 = refl

sent : 0 < (routes platform web handlers anonymous (fresh_reply no_tokens)).writer.status
sent = rw sent_200 (omega arith)

routes-Stamped_example :
    Stamped handlers.config anonymous
      (platform.os.new_uuid no_tokens.os).0
      (routes platform web handlers anonymous (fresh_reply no_tokens)).writer
routes-Stamped_example =
    routes-Stamped platform web handlers anonymous (fresh_reply no_tokens) refl sent

answers_200 :
    (known_routes platform web handlers asking (fresh_reply no_tokens)).writer.status ≡ 200
unfolding trim_space trim_left trim_right is_space to_lower lower_rune dec_lt split_in_two
    cut_prefix upper_rune ◌>>=◌ total_os current_time validate_access_token identity_of claim_at
    attend values_of put canonical get set write_header write require_auth write_encoded write_json
    only handle_me is_known serve_mux mux known_routes
answers_200 = refl

routed : web.route (patterns_of web (mux platform web handlers)) asking ≡ some "/auth/me"
unfolding mux
routed = refl

known_routes-Authorized_example :
    (i : AuthIdentity) × (t : Memory) × Authorized platform views laws web handlers.token_service
      asking i no_tokens t
known_routes-Authorized_example =
    known_routes-Authorized platform views laws web handlers asking (fresh_reply no_tokens) routed
      (inr (inr (inr refl))) refl answers_200

abbrev me : Handler Memory
me = handle_me platform web handlers

guard_answers_200 :
    (require_auth platform web handlers.token_service me asking
      (fresh_reply no_tokens)).writer.status
    ≡ 200
unfolding trim_space trim_left trim_right is_space to_lower lower_rune dec_lt split_in_two
    upper_rune ◌>>=◌ total_os current_time validate_access_token identity_of claim_at attend
    values_of put canonical get set write_header write require_auth write_encoded write_json only
    handle_me
guard_answers_200 = refl

require_auth-Authorized_example :
    (i : AuthIdentity) × (t : Memory) × Authorized platform views laws web handlers.token_service
      asking i no_tokens t
    × (require_auth platform web handlers.token_service me asking (fresh_reply no_tokens)
        ≡ me (record asking { auth_identity = some i }) (fresh_reply t))
require_auth-Authorized_example =
    require_auth-Authorized platform views laws web handlers.token_service me asking
      (fresh_reply no_tokens) refl guard_answers_200

-- The first request of a client, where two are allowed in a minute.
abbrev allowed : Result RateLimitResult × Memory
allowed =
    allow platform "login" (rate_limit_identifier platform web asking) (pos 2) (pos 60_000_000_000)
      no_tokens

abbrev first_answer : RateLimitResult
first_answer = record { allowed = true; remaining = pos 1; reset_in = pos 60_000_000_000 }

allows : allowed ≡ (ok first_answer, allowed.1)
unfolding trim_space trim_left trim_right is_space upper_rune lower_rune dec_lt allow ◌>>=◌ on_cache
    forwarded_address rate_limit_identifier values_of canonical get
allows = refl

rate_limit-Counted_example :
    (n s : ℕ) × (client : String) × IsClient web asking client
    × Counted counter_view "login" client 2 60_000_000_000 no_tokens.cache allowed.1.cache n
        first_answer
    × Waits first_answer.reset_in s
    × (n ≤ 2
        → rate_limit platform web "login"
            (pos 2)
            (pos 60_000_000_000)
            me
            asking
            (fresh_reply no_tokens)
          ≡ me asking (fresh_reply allowed.1))
    × (2 < n
        → rate_limit platform web "login"
            (pos 2)
            (pos 60_000_000_000)
            me
            asking
            (fresh_reply no_tokens)
          ≡ write_error web asking 429 "rate_limit_exceeded"
              "too many requests, please try again later"
              (set_header "Retry-After" (itoa (pos s)) (fresh_reply allowed.1)))
rate_limit-Counted_example =
    rate_limit-Counted platform counter_view counters web "login" 2 60_000_000_000 me asking
      (fresh_reply no_tokens) (omega arith) allows

-- A handler that leaves the headers alone.
abbrev silent : Handler Memory
silent r a = a

abbrev cross_origin : Reply Memory
cross_origin =
    cors web platform.lib ("https://app" ∷ []) ("GET" ∷ []) [] true silent asking
      (fresh_reply no_tokens)

cors-IsListed_example :
    (allowed_origin web cross_origin ≡ allowed_origin web (fresh_reply no_tokens))
    ⊎ (IsListed platform.lib (trim_space (Headers.get "Origin" asking.header)) ("https://app" ∷ [])
        × (trim_space (Headers.get "Origin" asking.header) ≢ "")
        × (allowed_origin web cross_origin ≡ trim_space (Headers.get "Origin" asking.header)))
cors-IsListed_example =
    cors-IsListed web platform.lib ("https://app" ∷ []) ("GET" ∷ []) [] true silent asking
      (fresh_reply no_tokens) (λ s b. refl)
