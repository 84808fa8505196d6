-- ===== src/Handler/Routes/Sends.antt =====
-- What the handlers do to a reply keeps its status one that net/http accepts.
use auth_login_load_balancin.Prelude.{
  ℕ, ◌≤◌, String, ◌==◌, Bool, Option, none, some, arith, inl, inr, Bool-cases, if◌then◌else◌,
}
use auth_login_load_balancin.Prelude.Exec.{Exec, Result, ok, err}
use auth_login_load_balancin.Errors.{Error}
use auth_login_load_balancin.Model.{AuthIdentity}
use auth_login_load_balancin.Platform.{Platform, World}
use auth_login_load_balancin.Config.{Config}
use auth_login_load_balancin.Http.{Request, Reply, Handler, attend, on_writer, set_header}
use auth_login_load_balancin.Http.Library.{Payload, Web}
use auth_login_load_balancin.Middleware.Passed.{IsSendable, write_encoded-IsSendable}
use auth_login_load_balancin.Middleware.Response as MiddlewareResponse
use auth_login_load_balancin.Handler.{
  Cookie, set_cookie, cookie_until, set_refresh_token_cookie, clear_refresh_token_cookie,
}
use auth_login_load_balancin.Handler.Response.{
  write_json, write_error, only, with_identity, respond,
}

pub record Sends {W : Type 0} (f : Reply W → Reply W) : Type 0 where
  pub at : (a : Reply W) → IsSendable a.writer.status → IsSendable (f a).writer.status

-- A status that a handler gives.
abbrev pub IsStatus : ℕ → Type 0
IsStatus code = (100 ≤ code) × (code ≤ 999)

module _ {W : Type 0} (web : Web W) where
  pub write_json-Sends : (code : ℕ) (x : Payload) → IsStatus code → Sends (write_json web code x)
  unfolding write_json
  write_json-Sends code x is = record {
    at = λ a s. write_encoded-IsSendable code _ a.writer is.0 is.1 s;
  }

  pub write_error-Sends :
      (r : Request) (code : ℕ) (c message : String)
      → IsStatus code
      → Sends (write_error web r code c message)
  unfolding write_error
  write_error-Sends r code c message is = write_json-Sends code _ is

  -- writeError of the middleware.
  pub refuse-Sends :
      (r : Request) (code : ℕ) (c message : String)
      → IsStatus code
      → Sends (MiddlewareResponse.write_error web r code c message)
  unfolding MiddlewareResponse.write_error MiddlewareResponse.write_json
  refuse-Sends r code c message is = record {
    at = λ a s. write_encoded-IsSendable code _ a.writer is.0 is.1 s;
  }

  pub only-Sends :
      (method : String) (next : Handler W)
      → ((r : Request) → Sends (next r))
      → (r : Request) → Sends (only web method next r)
  unfolding only
  only-Sends method next sends r = record {
    at = λ a s. elim (Bool-cases (r.method == method)) [
      | inl same ↦ rw same ((sends r).at a s)
      | inr other ↦ rw other ((write_error-Sends r 405 _ _ (omega arith, omega arith)).at a s)
    ];
  }

  pub with_identity-Sends :
      (r : Request) (next : AuthIdentity → Reply W → Reply W) (o : Option AuthIdentity)
      → ((i : AuthIdentity) → Sends (next i))
      → Sends (with_identity web r next o)
  with_identity-Sends r next none sends = record {
    at = (write_error-Sends r 401 _ _ (omega arith, omega arith)).at;
  }
  with_identity-Sends r next (some i) sends = record { at = (sends i).at }

  pub respond-Sends :
      {A : Type 0} (good : A → Reply W → Reply W) (bad : Error → Reply W → Reply W) (o : Result A)
      → ((a : A) → Sends (good a))
      → ((e : Error) → Sends (bad e))
      → Sends (respond web good bad o)
  respond-Sends good bad (ok a) g b = record { at = (g a).at }
  respond-Sends good bad (err e) g b = record { at = (b e).at }

module _ {W : Type 0} where
  pub attend-Sends :
      {A : Type 0} (m : Exec W A) (next : Result A → Reply W → Reply W)
      → ((o : Result A) → Sends (next o))
      → Sends (attend m next)
  unfolding attend
  attend-Sends m next sends = record {
    at = λ a s. (sends (m a.world).0).at (record a { world = (m a.world).1 }) s;
  }

  pub if-Sends :
      (b : Bool) (f g : Reply W → Reply W) → Sends f → Sends g → Sends (if b then f else g)
  if-Sends b f g first second = elim (Bool-cases b) [ inl e ↦ rw e first | inr e ↦ rw e second ]

  pub then-Sends : (f g : Reply W → Reply W) → Sends f → Sends g → Sends (λ a. g (f a))
  then-Sends f g first second = record { at = λ a s. second.at (f a) (first.at a s) }

  pub set_header-Sends : (key x : String) → Sends (set_header {W = W} key x)
  set_header-Sends key x = record { at = λ a s. s }

module _ {S D O : Type 0} (p : Platform S D O) (web : Web (World S D O)) (cfg : Config) where
  set_cookie-Sends : (cookie : Cookie) → Sends (on_writer {W = World S D O} (set_cookie web cookie))
  unfolding set_cookie
  set_cookie-Sends cookie = record {
    at =
        λ a s. elim (Bool-cases (web.cookie_text cookie == "")) [ inl e ↦ rw e s | inr e ↦ rw e s ];
  }

  until-Sends : (token : String) (o : Result ℕ) → Sends (cookie_until p web cfg token o)
  until-Sends token (err e) = record { at = λ a s. s }
  until-Sends token (ok now) = record { at = (set_cookie-Sends _).at }

  pub set_refresh_token_cookie-Sends :
      (token : String) → Sends (set_refresh_token_cookie p web cfg token)
  unfolding set_refresh_token_cookie
  set_refresh_token_cookie-Sends token = attend-Sends _ _ (until-Sends token)

  pub clear_refresh_token_cookie-Sends : Sends (clear_refresh_token_cookie p web cfg)
  unfolding clear_refresh_token_cookie
  clear_refresh_token_cookie-Sends = set_cookie-Sends _
