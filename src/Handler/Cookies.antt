-- ===== src/Handler/Cookies.antt =====
-- The cookie that a response sets.
use mathlib.Core.List.{Memᴰ}
use mathlib.Core.List.Memᴰ
use auth_login_load_balancin.Prelude.{
  ℕ, String, ◌≡◌, ◌≢◌, refl, none, some, ==-eq-false_of_ne, [], ◌∷◌, true,
}
use auth_login_load_balancin.Prelude.Int.{negsuc, scale_64}
use auth_login_load_balancin.Go.Time
use auth_login_load_balancin.Config.{Config}
use auth_login_load_balancin.Platform.{Platform, World, total_os}
use auth_login_load_balancin.Repository.Clock.{current_time}
use auth_login_load_balancin.Http.{Reply, attend}
use auth_login_load_balancin.Http.Headers
use auth_login_load_balancin.Http.Headers.{values_of, values_of-put}
use auth_login_load_balancin.Http.Response.{Writer}
use auth_login_load_balancin.Http.Library.{Payload, Web, Cookie}
use auth_login_load_balancin.Middleware.Status.{write_encoded-header}
use auth_login_load_balancin.Handler.{
  set_cookie, refresh_token_cookie, set_refresh_token_cookie, clear_refresh_token_cookie,
}
use auth_login_load_balancin.Handler.Response.{write_json}

module _ {W : Type 0} (web : Web W) where
  -- A cookie that is valid is among those that the response sets.
  abbrev pub Sets : Cookie → Reply W → Type 0
  Sets cookie a =
      web.cookie_text cookie ≢ ""
      → Memᴰ (web.cookie_text cookie) (values_of "Set-Cookie" a.writer.header)

  -- A response in JSON keeps the cookies that were set before.
  pub write_json-Sets :
      (cookie : Cookie) (code : ℕ) (x : Payload) (a : Reply W) (w : Writer)
      → Sets cookie (write_json web code x (record a { writer = set_cookie web cookie w }))
  unfolding write_json set_cookie Headers.set Headers.add Headers.canonical
  write_json-Sets cookie code x a w filled =
      let header = write_encoded-header code (web.encode x) (set_cookie web cookie w) in
      rw header (
        rw (==-eq-false_of_ne _ _ filled) (
          rw (values_of-put "Content-Type" "Set-Cookie" ("application/json" ∷ []) _) (
            rw (values_of-put "Set-Cookie" "Set-Cookie" _ w.header)
              (Memᴰ.append_right _ (Memᴰ.head refl)))))

-- The response sets the refresh-token cookie to a token, out of the reach of scripts.
pub record TokenCookie {W : Type 0} (web : Web W) (cfg : Config) (token : String) (b : Reply W)
    : Type 0 where
  pub cookie : Cookie
  pub is_named : cookie.name ≡ "refresh_token"
  pub holds : cookie.value ≡ token
  pub is_http_only : cookie.http_only ≡ true
  pub is_secure : cookie.secure ≡ cfg.cookie_secure
  pub lasts : cookie.max_age ≡ scale_64 cfg.refresh_token_ttl_hours 3600
  pub is_set : Sets web cookie b

module _ {S D O : Type 0} (p : Platform S D O) (web : Web (World S D O)) (cfg : Config) where
  -- A successful answer with a new refresh token.
  pub granted-TokenCookie :
      (token : String) (code : ℕ) (x : Payload) (a : Reply (World S D O))
      → TokenCookie web cfg token
          (write_json web code x (set_refresh_token_cookie p web cfg token a))
  unfolding set_refresh_token_cookie attend current_time total_os refresh_token_cookie
  granted-TokenCookie token code x a = record {
    cookie =
        refresh_token_cookie p.lib cfg token (scale_64 cfg.refresh_token_ttl_hours 3600)
          (some (Time.add (p.os.now a.world.os).0 (Time.hours cfg.refresh_token_ttl_hours)));
    is_named = refl;
    holds = refl;
    is_http_only = refl;
    is_secure = refl;
    lasts = refl;
    is_set =
        write_json-Sets web _ code x
          (record a { world = record a.world { os = (p.os.now a.world.os).1 } }) a.writer;
  }

  -- It reads the clock and leaves the cache and the database alone.
  pub granted-world :
      (token : String) (code : ℕ) (x : Payload) (a : Reply (World S D O))
      → let end = (write_json web code x (set_refresh_token_cookie p web cfg token a)).world in
        (end.cache ≡ a.world.cache) × (end.db ≡ a.world.db)
  unfolding set_refresh_token_cookie attend current_time total_os write_json
  granted-world token code x a = (refl, refl)

  -- The response clears the cookie.
  pub cleared-Sets :
      (code : ℕ) (x : Payload) (a : Reply (World S D O))
      → Sets web
          (refresh_token_cookie p.lib cfg "" (negsuc 0) none)
          (write_json web code x (clear_refresh_token_cookie p web cfg a))
  unfolding clear_refresh_token_cookie
  cleared-Sets code x a = write_json-Sets web _ code x a a.writer

  pub cleared-world :
      (code : ℕ) (x : Payload) (a : Reply (World S D O))
      → (write_json web code x (clear_refresh_token_cookie p web cfg a)).world ≡ a.world
  unfolding clear_refresh_token_cookie write_json
  cleared-world code x a = refl
