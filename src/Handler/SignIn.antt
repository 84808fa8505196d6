-- ===== src/Handler/SignIn.antt =====
-- handleLogin and handleRegister, where they answer with success.
use auth_login_load_balancin.Prelude.{
  ◌≤◌, String, ◌≡◌, refl, ◌∙◌, arith, inl, inr, ◌==◌, ◌||◌, Bool-cases,
}
use auth_login_load_balancin.Errors.{Error}
use auth_login_load_balancin.Go.Strings.{trim_space}
use auth_login_load_balancin.Go.Strings.Trim.{trim_space_idem}
use auth_login_load_balancin.Model.{User, LoginRequest}
use auth_login_load_balancin.Platform.{Platform, World}
use auth_login_load_balancin.Platform.Laws.{Views, Laws}
use auth_login_load_balancin.Service.Revoked.{record_at_of_cache}
use auth_login_load_balancin.Service.Auth.Login.{Known, Opened, login-Opened}
use auth_login_load_balancin.Http.{Request, Reply}
use auth_login_load_balancin.Http.Library.{Web, Decoded, end_of_body, malformed, decoded}
use auth_login_load_balancin.Handler.{HandlerConfig}
use auth_login_load_balancin.Handler.Accounts.{
  login_status, login_with, login_decoded, handle_login,
}
use auth_login_load_balancin.Handler.Success.{ok_lt, only-eq, attend-eq-ok, write_error-status-ne}
use auth_login_load_balancin.Handler.Cookies.{TokenCookie, granted-TokenCookie, granted-world}

pub login_status-ge : (e : Error) → 400 ≤ login_status e
unfolding login_status
login_status-ge Error.invalid_login_input = omega arith
login_status-ge Error.invalid_credentials = omega arith
login_status-ge _ = omega arith

module _ {S D O : Type 0} (p : Platform S D O) (v : Views S D O) where
  Opened-of_state :
      (user_id token : String) (t u : World S D O)
      → u.cache ≡ t.cache
      → u.db ≡ t.db
      → Opened p v user_id token t
      → Opened p v user_id token u
  Opened-of_state user_id token t u cache db x = record {
    session = x.session;
    stored = rw db x.stored;
    is_active = x.is_active;
    of_user = x.of_user;
    fresh = x.fresh;
    at = record_at_of_cache p v t u token cache ∙ x.at;
    token_active = x.token_active;
    token_user = x.token_user;
    token_session = x.token_session;
  }

  known_trimmed :
      (email password : String) (w : World S D O) {u : User}
      → Known p v (trim_space (trim_space email)) (trim_space (trim_space password)) w u
      → Known p v (trim_space email) (trim_space password) w u
  known_trimmed email password w k =
      let once = rw (trim_space_idem email) at k in rw (trim_space_idem password) at once

  -- What a login that is answered with success has done.
  pub record LoggedIn (cfg : HandlerConfig) (web : Web (World S D O)) (request : LoginRequest)
      (w : World S D O) (b : Reply (World S D O)) : Type 0 where
    pub user : User
    pub token : String
    pub is_known : Known p v (trim_space request.email) (trim_space request.password) w user
    pub opened : Opened p v user.id token b.world
    pub cookie : TokenCookie web cfg.config token b

  module _ (l : Laws p v) (web : Web (World S D O)) (h : HandlerConfig) where
    login_with-LoggedIn :
        (r : Request) (request : LoginRequest) (a : Reply (World S D O))
        → a.writer.status ≡ 0
        → (login_with p web h r request a).writer.status ≡ 200
        → LoggedIn h web request a.world (login_with p web h r request a)
    unfolding login_with
    login_with-LoggedIn r request a fresh h200 =
        elim (Bool-cases (trim_space request.email == "" || trim_space request.password == "")) [
          | inl blank ↦ absurd (
              write_error-status-ne web 200 ok_lt r 400 _ _ a (omega arith) fresh
                (rw blank at h200))
          | inr filled ↦
              let (x, t, runs, ends) =
                attend-eq-ok web 200 ok_lt _ _ _ a
                  (λ e b fresh.
                    write_error-status-ne web 200 ok_lt r (login_status e) _ _ b (login_status-ge e)
                      fresh)
                  fresh (rw filled at h200) in
              let (cache, db) =
                granted-world p web h.config x.refresh_token 200 _ (record a { world = t }) in
              let (user, known, opened) =
                login-Opened p v l h.auth_service (trim_space request.email)
                  (trim_space request.password) _ a.world runs in
              rw filled (
                rw ends (record {
                  user = user;
                  token = x.refresh_token;
                  is_known = known_trimmed request.email request.password a.world known;
                  opened = Opened-of_state _ _ t _ cache db opened;
                  cookie = granted-TokenCookie p web h.config x.refresh_token 200 _ _;
                }))
        ]

    login_decoded-LoggedIn :
        (r : Request) (body : Decoded LoginRequest) (a : Reply (World S D O))
        → a.writer.status ≡ 0
        → (login_decoded p web h r body a).writer.status ≡ 200
        → (request : LoginRequest) × (body ≡ decoded request)
          × LoggedIn h web request a.world (login_decoded p web h r body a)
    login_decoded-LoggedIn r end_of_body a fresh h200 =
        absurd (write_error-status-ne web 200 ok_lt r 400 _ _ a (omega arith) fresh h200)
    login_decoded-LoggedIn r malformed a fresh h200 =
        absurd (write_error-status-ne web 200 ok_lt r 400 _ _ a (omega arith) fresh h200)
    login_decoded-LoggedIn r (decoded request) a fresh h200 =
        (request, refl, login_with-LoggedIn r request a fresh h200)

    -- A login that is answered with 200, on a response that had no status yet, was sent the email of an account and a password that matches
    -- its hash; there is now an ACTIVE session of that account, and the response sets the cookie to a
    -- refresh token that is ACTIVE, for that account and that session.
    pub handle_login-LoggedIn :
        (r : Request) (a : Reply (World S D O))
        → a.writer.status ≡ 0
        → (handle_login p web h r a).writer.status ≡ 200
        → (request : LoginRequest) × (web.decode_login r.body ≡ decoded request)
          × LoggedIn h web request a.world (handle_login p web h r a)
    unfolding handle_login
    handle_login-LoggedIn r a fresh h200 =
        let same = only-eq web 200 ok_lt "POST" _ r a fresh h200 in
        rw same (login_decoded-LoggedIn r (web.decode_login r.body) a fresh (rw same at h200))
