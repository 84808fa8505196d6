-- ===== src/Http.antt =====
-- What the program uses of net/http: a request as the server hands it over, the headers of a
-- message, and a writer of a response.
pub mod Headers
pub mod Library
pub mod Response
use auth_login_load_balancin.Prelude.{
  ℕ, String, List, [], ◌∷◌, Option, none, some, if◌then◌else◌, ◌==◌,
}
use auth_login_load_balancin.Prelude.Exec.{Exec, Result}
use auth_login_load_balancin.Model.{AuthIdentity}
use auth_login_load_balancin.Http.Headers.{Header}
use auth_login_load_balancin.Http.Response.{Writer}

-- *http.Request, with the two values that the middleware puts into its context. `cookies` are those
-- that net/http reads from the Cookie header.
pub record Request : Type 0 where
  pub method : String
  pub path : String
  pub header : Header
  pub remote_addr : String
  pub cookies : List (String × String)
  pub body : String
  pub request_id : String
  pub auth_identity : Option AuthIdentity

-- r.Cookie(name)
abbrev pub cookie_named : String → List (String × String) → Option String
cookie_named name [] = none
cookie_named name ((n, x) ∷ cookies) = if n == name then some x else cookie_named name cookies

-- A line of the request log; the duration is left out.
pub record LogEntry : Type 0 where
  pub request_id : String
  pub method : String
  pub path : String
  pub remote_addr : String
  pub status_code : ℕ

-- What a handler works on: its writer, the state outside the process, the panic that is under way,
-- if there is one, and the request log.
pub record Reply (W : Type 0) : Type 0 where
  pub writer : Writer
  pub world : W
  pub panic : Option String
  pub log : List LogEntry

-- http.Handler
abbrev pub Handler : Type 0 → Type 0
Handler W = Request → Reply W → Reply W

module _ {W : Type 0} where
  -- A change of the writer.
  abbrev pub on_writer : (Writer → Writer) → Reply W → Reply W
  on_writer f a = record a { writer = f a.writer }

  -- w.Header().Set(key, value)
  abbrev pub set_header : String → String → Reply W → Reply W
  set_header key value = on_writer (λ w. record w { header = Headers.set key value w.header })

  -- A call of a service, and what is done with its result.
  unfoldable pub attend :
      {A : Type 0} → Exec W A → (Result A → Reply W → Reply W) → Reply W → Reply W
  attend m next a = let (r, world) = m a.world in next r (record a { world = world })
