-- ===== src/Handler/Success.antt =====
-- The call behind a response whose status is that of a success.
use auth_login_load_balancin.Prelude.{
  ℕ, ◌<◌, ◌≤◌, String, ◌≡◌, ◌≢◌, inl, inr, refl, ◌==◌, Option, none, some, arith, Bool-cases,
}
use auth_login_load_balancin.Prelude.Exec.{Result, ok, err, Exec}
use auth_login_load_balancin.Errors.{Error}
use auth_login_load_balancin.Model.{AuthIdentity}
use auth_login_load_balancin.Http.{Request, Reply, Handler, attend}
use auth_login_load_balancin.Http.Library.{error_body, Web}
use auth_login_load_balancin.Middleware.Status.{write_encoded-status}
use auth_login_load_balancin.Handler.Response.{
  write_json, write_error, only, with_identity, respond,
}

module _ {W : Type 0} (web : Web W) (k : ℕ) (success : k < 400) where
  pub write_error-status-ne :
      (r : Request) (code : ℕ) (c message : String) (a : Reply W)
      → 400 ≤ code
      → a.writer.status ≡ 0
      → (write_error web r code c message a).writer.status ≢ k
  unfolding write_error write_json
  write_error-status-ne r code c message a error fresh h =
      elim (write_encoded-status code
        (web.encode (
          error_body
            (record { error = record { code = c; message = message }; request_id = r.request_id })))
        a.writer (omega (arith, error)) fresh) [
          | inl e ↦ omega (arith, e, h, error, success)
          | inr e ↦ omega (arith, e, h, success)
        ]

  -- The method is the expected one.
  pub only-eq :
      (method : String) (next : Handler W) (r : Request) (a : Reply W)
      → a.writer.status ≡ 0
      → (only web method next r a).writer.status ≡ k
      → only web method next r a ≡ next r a
  unfolding only
  only-eq method next r a fresh h = elim (Bool-cases (r.method == method)) [
    | inl same ↦ rw same refl
    | inr differ ↦ absurd (write_error-status-ne r 405 _ _ a (omega arith) fresh (rw differ at h))
  ]

  -- The middleware has found an identity.
  pub with_identity-eq :
      (r : Request) (next : AuthIdentity → Reply W → Reply W) (o : Option AuthIdentity)
      (a : Reply W)
      → a.writer.status ≡ 0
      → (with_identity web r next o a).writer.status ≡ k
      → (i : AuthIdentity) × (o ≡ some i) × (with_identity web r next o a ≡ next i a)
  with_identity-eq r next none a fresh h =
      absurd (write_error-status-ne r 401 _ _ a (omega arith) fresh h)
  with_identity-eq r next (some i) a fresh h = (i, refl, refl)

  -- The call has succeeded.
  pub attend-eq-ok :
      {A : Type 0} (m : Exec W A) (good : A → Reply W → Reply W) (bad : Error → Reply W → Reply W)
      (a : Reply W)
      → ((e : Error) (b : Reply W) → b.writer.status ≡ 0 → (bad e b).writer.status ≢ k)
      → a.writer.status ≡ 0
      → (attend m (respond web good bad) a).writer.status ≡ k
      → (x : A) × (t : W) × (m a.world ≡ (ok x, t))
        × (attend m (respond web good bad) a ≡ good x (record a { world = t }))
  unfolding attend
  attend-eq-ok {A} m good bad a refused fresh h = by_result (m a.world).0 (m a.world).1 refl h
    where
      by_result :
          (r : Result A) (t : W)
          → m a.world ≡ (r, t)
          → (respond web good bad r (record a { world = t })).writer.status ≡ k
          → (x : A) × (t' : W) × (m a.world ≡ (ok x, t'))
            × (respond web good bad (m a.world).0 (record a { world = (m a.world).1 })
                ≡ good x (record a { world = t' }))
      by_result (ok x) t e h = (x, t, e, rw e refl)
      by_result (err x) t e h = absurd (refused x _ fresh h)

pub ok_lt : 200 < 400
ok_lt = omega arith

pub created_lt : 201 < 400
created_lt = omega arith
