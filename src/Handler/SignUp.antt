-- ===== src/Handler/SignUp.antt =====
-- handleRegister, where it answers with success.
use auth_login_load_balancin.Prelude.{◌≤◌, ◌≡◌, refl, arith, inl, inr, ◌==◌, ◌||◌, Bool-cases}
use auth_login_load_balancin.Errors.{Error}
use auth_login_load_balancin.Go.Strings.{trim_space}
use auth_login_load_balancin.Go.Strings.Trim.{trim_space_idem, IsLowerTable}
use auth_login_load_balancin.Model.{RegisterRequest, RegisterResponse}
use auth_login_load_balancin.Platform.{Platform, World}
use auth_login_load_balancin.Platform.Laws.{Views, Laws}
use auth_login_load_balancin.Service.Auth.Register.{Registered, register-Registered}
use auth_login_load_balancin.Http.{Request, Reply}
use auth_login_load_balancin.Http.Library.{Web, Decoded, end_of_body, malformed, decoded}
use auth_login_load_balancin.Handler.{HandlerConfig}
use auth_login_load_balancin.Handler.Accounts.{
  register_status, register_with, register_decoded, handle_register,
}
use auth_login_load_balancin.Handler.Response.{write_json}
use auth_login_load_balancin.Handler.Success.{
  created_lt, only-eq, attend-eq-ok, write_error-status-ne,
}

register_status-ge : (e : Error) → 400 ≤ register_status e
unfolding register_status
register_status-ge Error.invalid_login_input = omega arith
register_status-ge Error.email_already_exists = omega arith
register_status-ge _ = omega arith

module _ {S D O : Type 0} (p : Platform S D O) (v : Views S D O) (l : Laws p v)
    (lower : IsLowerTable p.lib.lower_table) (web : Web (World S D O)) (h : HandlerConfig) where
  register_with-Registered :
      (r : Request) (request : RegisterRequest) (a : Reply (World S D O))
      → a.writer.status ≡ 0
      → (register_with p web h r request a).writer.status ≡ 201
      → (response : RegisterResponse) × Registered p v
          (trim_space request.email)
          (trim_space request.password)
          response
          a.world
          (register_with p web h r request a).world
  unfolding register_with write_json
  register_with-Registered r request a fresh h201 =
      elim (Bool-cases (trim_space request.email == "" || trim_space request.password == "")) [
        | inl blank ↦ absurd (
            write_error-status-ne web 201 created_lt r 400 _ _ a (omega arith) fresh
              (rw blank at h201))
        | inr filled ↦
            let (x, t, runs, ends) =
              attend-eq-ok web 201 created_lt _ _ _ a
                (λ e b fresh.
                  write_error-status-ne web 201 created_lt r (register_status e) _ _ b
                    (register_status-ge e) fresh)
                fresh (rw filled at h201) in
            let done =
              register-Registered p v l h.auth_service lower (trim_space request.email)
                (trim_space request.password) _ a.world runs in
            (x, rw filled (rw ends (rw (trim_space_idem request.password) at done)))
      ]

  register_decoded-Registered :
      (r : Request) (body : Decoded RegisterRequest) (a : Reply (World S D O))
      → a.writer.status ≡ 0
      → (register_decoded p web h r body a).writer.status ≡ 201
      → (request : RegisterRequest) × (body ≡ decoded request)
        × (response : RegisterResponse) × Registered p v
            (trim_space request.email)
            (trim_space request.password)
            response
            a.world
            (register_decoded p web h r body a).world
  register_decoded-Registered r end_of_body a fresh h201 =
      absurd (write_error-status-ne web 201 created_lt r 400 _ _ a (omega arith) fresh h201)
  register_decoded-Registered r malformed a fresh h201 =
      absurd (write_error-status-ne web 201 created_lt r 400 _ _ a (omega arith) fresh h201)
  register_decoded-Registered r (decoded request) a fresh h201 =
      let (response, done) = register_with-Registered r request a fresh h201 in
      (request, refl, response, done)

  -- If lower case is stable in Go's tables and makes and removes no space, then a registration that
  -- is answered with 201, on a response that had no status yet, has added one account for the email of the body, in lower case, with
  -- bcrypt's hash of its password, both trimmed; no account had this email, and sessions and tokens
  -- are untouched.
  pub handle_register-Registered :
      (r : Request) (a : Reply (World S D O))
      → a.writer.status ≡ 0
      → (handle_register p web h r a).writer.status ≡ 201
      → (request : RegisterRequest) × (web.decode_register r.body ≡ decoded request)
        × (response : RegisterResponse) × Registered p v
            (trim_space request.email)
            (trim_space request.password)
            response
            a.world
            (handle_register p web h r a).world
  unfolding handle_register
  handle_register-Registered r a fresh h201 =
      let same = only-eq web 201 created_lt "POST" _ r a fresh h201 in
      rw same (register_decoded-Registered r (web.decode_register r.body) a fresh (rw same at h201))
