-- ===== src/Handler/Grants.antt =====
-- handleRefresh, where it answers with success.
use auth_login_load_balancin.Prelude.{◌≤◌, String, ◌≡◌, refl, ◌∙◌, Option, none, some, arith}
use auth_login_load_balancin.Errors.{Error}
use auth_login_load_balancin.Go.Strings.{trim_space}
use auth_login_load_balancin.Platform.{Platform, World}
use auth_login_load_balancin.Platform.Laws.{Views, Laws}
use auth_login_load_balancin.Service.Revoked.{record_at_of_cache}
use auth_login_load_balancin.Service.Auth.Refresh.Rotation.{Rotated, refresh_access_token-Rotated}
use auth_login_load_balancin.Http.{Request, Reply}
use auth_login_load_balancin.Http.Library.{Web}
use auth_login_load_balancin.Handler.{HandlerConfig, read_refresh_token_cookie}
use auth_login_load_balancin.Handler.Tokens.{refresh_status, refresh_with, handle_refresh}
use auth_login_load_balancin.Handler.Success.{ok_lt, only-eq, attend-eq-ok, write_error-status-ne}
use auth_login_load_balancin.Handler.Cookies.{TokenCookie, granted-TokenCookie, granted-world}

pub refresh_status-ge : (e : Error) → 400 ≤ refresh_status e
unfolding refresh_status
refresh_status-ge Error.invalid_refresh_token = omega arith
refresh_status-ge Error.refresh_token_reuse_detected = omega arith
refresh_status-ge _ = omega arith

module _ {S D O : Type 0} (p : Platform S D O) (v : Views S D O) where
  Rotated-of_cache :
      (value new : String) (w t u : World S D O)
      → u.cache ≡ t.cache
      → Rotated p v value new w t
      → Rotated p v value new w u
  Rotated-of_cache value new w t u e x = record {
    old = x.old;
    found = x.found;
    was_active = x.was_active;
    was_live = x.was_live;
    fresh = x.fresh;
    stored = record_at_of_cache p v t u new e ∙ x.stored;
    is_active = x.is_active;
    same_user = x.same_user;
    same_session = x.same_session;
    spent = λ differ. rw (record_at_of_cache p v t u value e) (x.spent differ);
  }

  module _ (l : Laws p v) (web : Web (World S D O)) (h : HandlerConfig) where
    refresh_with-Rotated :
        (r : Request) (cookie : Option String) (a : Reply (World S D O))
        → a.writer.status ≡ 0
        → (refresh_with p web h r cookie a).writer.status ≡ 200
        → (value token : String) × (cookie ≡ some value)
          × Rotated p v (trim_space value) token a.world (refresh_with p web h r cookie a).world
          × TokenCookie web h.config token (refresh_with p web h r cookie a)
    refresh_with-Rotated r none a fresh h200 =
        absurd (write_error-status-ne web 200 ok_lt r 401 _ _ a (omega arith) fresh h200)
    refresh_with-Rotated r (some value) a fresh h200 =
        let (x, t, runs, ends) =
          attend-eq-ok web 200 ok_lt _ _ _ a
            (λ e b fresh.
              write_error-status-ne web 200 ok_lt r (refresh_status e) _ _ b (refresh_status-ge e)
                fresh)
            fresh h200 in
        let (cache, _) =
          granted-world p web h.config x.refresh_token 200 _ (record a { world = t }) in
        (
          value,
          x.refresh_token,
          refl,
          rw ends (
              Rotated-of_cache _ _ a.world t _ cache
                (refresh_access_token-Rotated p v l h.auth_service value _ a.world runs)),
          rw ends (granted-TokenCookie p web h.config x.refresh_token 200 _ _),
        )

    -- A refresh that is answered with 200, on a response that had no status yet, has exchanged the token of the cookie for a new one, which
    -- the response sets as the cookie, out of the reach of scripts: the old token was ACTIVE and had
    -- not expired, and is now USED (or has expired); the new one is ACTIVE and belongs to the same
    -- user and session.
    pub handle_refresh-Rotated :
        (r : Request) (a : Reply (World S D O))
        → a.writer.status ≡ 0
        → (handle_refresh p web h r a).writer.status ≡ 200
        → (value token : String) × (read_refresh_token_cookie r ≡ some value)
          × Rotated p v (trim_space value) token a.world (handle_refresh p web h r a).world
          × TokenCookie web h.config token (handle_refresh p web h r a)
    unfolding handle_refresh
    handle_refresh-Rotated r a fresh h200 =
        let same = only-eq web 200 ok_lt "POST" _ r a fresh h200 in
        rw same (refresh_with-Rotated r (read_refresh_token_cookie r) a fresh (rw same at h200))
