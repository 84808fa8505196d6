-- ===== src/Handler/Routes/Protected.antt =====
-- The routes that need an access token.
use auth_login_load_balancin.Prelude.{String, ◌≡◌, refl, ◌⊎◌, inl, inr, some, Bool-cases, arith}
use auth_login_load_balancin.Model.{AuthIdentity}
use auth_login_load_balancin.Platform.{Platform, World}
use auth_login_load_balancin.Platform.Laws.{Views, Laws}
use auth_login_load_balancin.Http.{Request, Reply, Handler}
use auth_login_load_balancin.Http.Library.{Web}
use auth_login_load_balancin.Middleware.Guards.{require_auth}
use auth_login_load_balancin.Middleware.Guarded.{Authorized, require_auth-Authorized}
use auth_login_load_balancin.Handler.{HandlerConfig}
use auth_login_load_balancin.Handler.Success.{ok_lt, write_error-status-ne}
use auth_login_load_balancin.Handler.Accounts.{handle_me}
use auth_login_load_balancin.Handler.Tokens.{
  handle_logout_all, handle_sessions, handle_session_by_id,
}
use auth_login_load_balancin.Handler.Routes.{
  is_known, patterns_of, handler_of, serve_mux, mux, known_routes,
}

-- The patterns of the routes for users that are logged in.
abbrev pub IsProtected : String → Type 0
IsProtected pattern =
    (pattern ≡ "/auth/logout-all")
    ⊎ (pattern ≡ "/auth/sessions")
    ⊎ (pattern ≡ "/auth/sessions/")
    ⊎ (pattern ≡ "/auth/me")

module _ {S D O : Type 0} (p : Platform S D O) (v : Views S D O) (l : Laws p v)
    (web : Web (World S D O)) (h : HandlerConfig) where
  guarded :
      (pattern : String)
      → IsProtected pattern
      → (next : Handler (World S D O)) × (handler_of web (mux p web h) pattern
          ≡ some (require_auth p web h.token_service next))
  unfolding mux
  guarded pattern (inl e) = (handle_logout_all p web h, rw e refl)
  guarded pattern (inr (inl e)) = (handle_sessions p web h, rw e refl)
  guarded pattern (inr (inr (inl e))) = (handle_session_by_id p web h, rw e refl)
  guarded pattern (inr (inr (inr e))) = (handle_me p web h, rw e refl)

  -- A request for which the mux chooses one of the routes for users that are logged in is answered
  -- with 200, on a response that had no status yet, only if it carries a bearer token that the token service has accepted.
  pub known_routes-Authorized :
      (r : Request) (a : Reply (World S D O)) {pattern : String}
      → web.route (patterns_of web (mux p web h)) r ≡ some pattern
      → IsProtected pattern
      → a.writer.status ≡ 0
      → (known_routes p web h r a).writer.status ≡ 200
      → (i : AuthIdentity) × (t : World S D O) × Authorized p v l web h.token_service r i a.world t
  unfolding known_routes serve_mux
  known_routes-Authorized r a {pattern} routes protects fresh h200 =
      elim (Bool-cases (is_known r.path)) [
        | inr unknown ↦ absurd (
            write_error-status-ne web 200 ok_lt r 404 _ _ a (omega arith) fresh
              (rw unknown at h200))
        | inl known ↦
            let (next, is) = guarded pattern protects in
            let at = rw known at h200 in
            let at = rw routes at at in
            let at = rw is at at in
            let (i, t, authorized, _) =
              require_auth-Authorized p v l web h.token_service next r a fresh at in
            (i, t, authorized)
      ]
