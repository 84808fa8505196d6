-- ===== src/Middleware/Status.antt =====
-- The status of a response in JSON.
use auth_login_load_balancin.Prelude.{
  ℕ, ◌<◌, ◌≤◌, String, ◌≡◌, ◌≢◌, ◌⊎◌, inl, inr, refl, Option, none, some, arith,
}
use auth_login_load_balancin.Http.{Request, Reply}
use auth_login_load_balancin.Http.Headers
use auth_login_load_balancin.Http.Response.{Writer, write_header, write}
use auth_login_load_balancin.Http.Library.{error_body, Web}
use auth_login_load_balancin.Middleware.Response.{write_encoded, write_json, write_error}

-- A status that is not written yet becomes the given one, or 500 where the payload has no encoding.
pub write_encoded-status :
    (code : ℕ) (o : Option String) (w : Writer)
    → 0 < code
    → w.status ≡ 0
    → ((write_encoded code o w).status ≡ code) ⊎ ((write_encoded code o w).status ≡ 500)
unfolding write_encoded write_header write
write_encoded-status code none w h e = inr (rw e refl)
write_encoded-status code (some text) w h e = inl (ground (arith, h, e))

module _ {W : Type 0} (web : Web W) (k : ℕ) (success : k < 400) where
  pub write_error-status-ne :
      (r : Request) (code : ℕ) (c message : String) (a : Reply W)
      → 400 ≤ code
      → a.writer.status ≡ 0
      → (write_error web r code c message a).writer.status ≢ k
  unfolding write_error write_json
  write_error-status-ne r code c message a error fresh h =
      elim (write_encoded-status code
        (web.encode (
          error_body
            (record { error = record { code = c; message = message }; request_id = r.request_id })))
        a.writer (omega (arith, error)) fresh) [
          | inl e ↦ omega (arith, e, h, error, success)
          | inr e ↦ omega (arith, e, h, success)
        ]

-- Once a status is written, it is not 0.
pub write_header-pos : (code : ℕ) (w : Writer) → 0 < code → 0 < (write_header code w).status
unfolding write_header
write_header-pos code w sent = ground (arith, sent)

pub write-pos : (text : String) (w : Writer) → 0 < w.status → 0 < (write text w).status
unfolding write
write-pos text w sent = ground (arith, sent)

pub write_encoded-pos :
    (code : ℕ) (o : Option String) (w : Writer) → 0 < code → 0 < (write_encoded code o w).status
unfolding write_encoded
write_encoded-pos code none w sent = write-pos _ _ (write_header-pos 500 _ (omega arith))
write_encoded-pos code (some text) w sent = write-pos _ _ (write_header-pos code _ sent)

-- The headers of a response in JSON.
pub write_encoded-header :
    (code : ℕ) (o : Option String) (w : Writer)
    → (write_encoded code o w).header ≡ Headers.set "Content-Type" "application/json" w.header
unfolding write_encoded write_header write
write_encoded-header code none w = ground arith
write_encoded-header code (some text) w = ground arith

pub write_header-header : (code : ℕ) (w : Writer) → (write_header code w).header ≡ w.header
unfolding write_header
write_header-header code w = ground arith
