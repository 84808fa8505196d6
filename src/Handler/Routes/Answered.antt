-- ===== src/Handler/Routes/Answered.antt =====
-- What every response of Routes has, whatever the handler behind the middleware does.
use auth_login_load_balancin.Prelude.{
  ◌<◌, String, ◌≡◌, ◌≢◌, refl, ◌∙◌, true, ◌==◌, none, inl, inr, Bool-cases, eq_iff,
}
use auth_login_load_balancin.Go.Strings.{trim_space}
use auth_login_load_balancin.Go.Strings.Split.{has_prefix}
use auth_login_load_balancin.Config.{Config}
use auth_login_load_balancin.Platform.{Platform, World, total_os}
use auth_login_load_balancin.Http.{Request, Reply, Handler, set_header, attend}
use auth_login_load_balancin.Http.Headers
use auth_login_load_balancin.Http.Headers.{canonical}
use auth_login_load_balancin.Http.Response.{Writer}
use auth_login_load_balancin.Http.Library.{Web}
use auth_login_load_balancin.Middleware.{chain}
use auth_login_load_balancin.Middleware.Basic.{request_id, instance_header, security_headers}
use auth_login_load_balancin.Middleware.Passed.{Sendable}
use auth_login_load_balancin.Middleware.Carried.{Leads-get, set-Carries, set_same-Carries}
use auth_login_load_balancin.Handler.{HandlerConfig}
use auth_login_load_balancin.Handler.Routes.{middlewares, known_routes, routes}
use auth_login_load_balancin.Handler.Routes.Sendable.{MuxSends, known_routes-Sendable}
use auth_login_load_balancin.Handler.Routes.Secured.{
  outer_headers, inner, security_headers-Carries, security_headers-Secured,
  security_headers-Answers,
}

-- The headers that are sent with a response, where `fresh` is a new identifier.
pub record Stamped (cfg : Config) (r : Request) (fresh : String) (w : Writer) : Type 0 where
  pub request_id :
      trim_space (Headers.get "X-Request-ID" r.header) ≢ ""
      → Headers.get "X-Request-ID" w.sent ≡ trim_space (Headers.get "X-Request-ID" r.header)
  pub generated :
      trim_space (Headers.get "X-Request-ID" r.header) ≡ ""
      → Headers.get "X-Request-ID" w.sent ≡ fresh
  pub instance_name : Headers.get "X-App-Instance" w.sent ≡ cfg.instance_name
  pub content_type_options : Headers.get "X-Content-Type-Options" w.sent ≡ "nosniff"
  pub frame_options : Headers.get "X-Frame-Options" w.sent ≡ "DENY"
  pub referrer_policy : Headers.get "Referrer-Policy" w.sent ≡ "no-referrer"
  pub cache_control :
      has_prefix r.path "/auth/" ≡ true → Headers.get "Cache-Control" w.sent ≡ "no-store"

module _ {S D O : Type 0} (p : Platform S D O) (web : Web (World S D O)) (h : HandlerConfig)
    (next : Handler (World S D O)) where
  middlewares-eq :
      (r : Request) (a : Reply (World S D O))
      → chain next (middlewares p web h) r a
        ≡ request_id p
            (instance_header h.config.instance_name (security_headers (inner p web h next)))
            r
            a
  unfolding middlewares chain
  middlewares-eq r a = refl

  -- What RequestID and InstanceHeader make of a request: an identifier, which is the client's where
  -- it has sent one, and a new one otherwise.
  middlewares-eq-identified :
      (r : Request) (a : Reply (World S D O))
      → (id : String) × (w : World S D O) × (trim_space (Headers.get "X-Request-ID" r.header) ≢ ""
          → id ≡ trim_space (Headers.get "X-Request-ID" r.header))
        × (trim_space (Headers.get "X-Request-ID" r.header) ≡ ""
            → id ≡ (p.os.new_uuid a.world.os).0)
        × (chain next (middlewares p web h) r a
            ≡ security_headers
                (inner p web h next)
                (record r { request_id = id })
                (set_header "X-App-Instance" h.config.instance_name
                  (set_header "X-Request-ID" id (record a { world = w }))))
  unfolding request_id instance_header attend total_os
  middlewares-eq-identified r a =
      elim (Bool-cases (trim_space (Headers.get "X-Request-ID" r.header) == "")) [
        | inl blank ↦ (
          (p.os.new_uuid a.world.os).0,
          record a.world { os = (p.os.new_uuid a.world.os).1 },
          λ differ. absurd (differ ((eq_iff _ "").0 blank)),
          λ _. refl,
          middlewares-eq r a ∙ rw blank refl,
        )
        | inr filled ↦ (
          trim_space (Headers.get "X-Request-ID" r.header),
          a.world,
          λ differ. refl,
          λ e. absurd (cc (filled, (eq_iff _ "").1 e)),
          middlewares-eq r a ∙ rw filled refl,
        )
      ]

  -- If the handler of a route gives a response without a status only one that net/http accepts, or
  -- none, whether it panics or not, then a request that comes in while no panic is under way gets a
  -- response: the middleware of Routes ends without a panic and with a status that is written.
  pub middlewares-Answers :
      (r : Request) (a : Reply (World S D O))
      → Sendable next
      → a.panic ≡ none
      → ((chain next (middlewares p web h) r a).panic ≡ none)
        × (0 < (chain next (middlewares p web h) r a).writer.status)
  middlewares-Answers r a sendable quiet =
      let (id, w, _, _, e) = middlewares-eq-identified r a in
      rw e ((security_headers-Answers p web h next sendable).at _ _ quiet)

  middlewares-Stamped :
      (r : Request) (a : Reply (World S D O))
      → a.writer.status ≡ 0
      → 0 < (chain next (middlewares p web h) r a).writer.status
      → Stamped h.config r
          (p.os.new_uuid a.world.os).0
          (chain next (middlewares p web h) r a).writer
  unfolding canonical
  middlewares-Stamped r a fresh status =
      let (id, w, own, new, e) = middlewares-eq-identified r a in
      let b =
        set_header "X-App-Instance" h.config.instance_name
          (set_header "X-Request-ID" id (record a { world = w })) in
      let r' : Request = record r { request_id = id } in
      let sent = rw e at status in
      let (options, frames, referrer, cache) = security_headers-Secured p web h next r' b fresh in
      let names =
        security_headers-Carries p web h next _ id outer_headers.0 (refl, refl, refl, refl, refl) r'
          b (set-Carries _ id _ _ _ refl (set_same-Carries "X-Request-ID" id a.writer fresh)) in
      let instance =
        security_headers-Carries p web h next _ h.config.instance_name outer_headers.1
          (refl, refl, refl, refl, refl) r' b
          (set_same-Carries "X-App-Instance" h.config.instance_name _ fresh) in
      rw e (record {
        request_id = λ differ. rw (← own differ) (Leads-get "X-Request-ID" id _ (names.sent sent));
        generated = λ blank. rw (← new blank) (Leads-get "X-Request-ID" id _ (names.sent sent));
        instance_name = Leads-get "X-App-Instance" _ _ (instance.sent sent);
        content_type_options = Leads-get "X-Content-Type-Options" _ _ (options.sent sent);
        frame_options = Leads-get "X-Frame-Options" _ _ (frames.sent sent);
        referrer_policy = Leads-get "Referrer-Policy" _ _ (referrer.sent sent);
        cache_control = λ auth. Leads-get "Cache-Control" _ _ ((cache auth).sent sent);
      })

module _ {S D O : Type 0} (p : Platform S D O) (web : Web (World S D O)) (h : HandlerConfig) where
  -- If no status was written before, every response of Routes whose status is written is sent with
  -- the identifier of the request, which is the client's own where it has sent one that is not blank
  -- and a new UUID otherwise, the name of the instance and the headers against the guessing of types,
  -- framing and referrers; under /auth/ it may not be stored. The headers of the handlers cannot
  -- replace these.
  pub routes-Stamped :
      (r : Request) (a : Reply (World S D O))
      → a.writer.status ≡ 0
      → 0 < (routes p web h r a).writer.status
      → Stamped h.config r (p.os.new_uuid a.world.os).0 (routes p web h r a).writer
  unfolding routes
  routes-Stamped = middlewares-Stamped p web h (known_routes p web h)

  -- If the mux's own answers have a status that net/http accepts, then a request that comes in while
  -- no panic is under way gets a response from Routes, without a panic and with a status that is
  -- written.
  pub routes-Answers :
      (r : Request) (a : Reply (World S D O))
      → MuxSends p web h
      → a.panic ≡ none
      → ((routes p web h r a).panic ≡ none) × (0 < (routes p web h r a).writer.status)
  unfolding routes
  routes-Answers r a answers =
      middlewares-Answers p web h (known_routes p web h) r a (known_routes-Sendable p web h answers)
