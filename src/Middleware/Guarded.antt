-- ===== src/Middleware/Guarded.antt =====
-- What RequireAuth has checked of a request that reaches its handler.
use Prim.Native.Char.{Char}
use auth_login_load_balancin.Prelude.{
  ℕ, ◌≤◌, ◌<◌, String, ◌≡◌, ◌≢◌, ◌==◌, ◌||◌, not, refl, sym, ◌∙◌, Option, none, some, arith, inl,
  inr, Bool-cases, true, or-eq-false_iff, not-eq-false, eq_iff,
}
use auth_login_load_balancin.Prelude.Exec.{Result, ok, err}
use auth_login_load_balancin.Go.Strings.{trim_space}
use auth_login_load_balancin.Go.Strings.Split.{split_in_two}
use auth_login_load_balancin.Go.Strings.Fold.{equal_fold}
use auth_login_load_balancin.Model.{AuthIdentity}
use auth_login_load_balancin.Platform.{Platform, World}
use auth_login_load_balancin.Platform.Laws.{Views, Laws}
use auth_login_load_balancin.Service.Token.{
  TokenConfig, keyfunc, parse_options, validate_access_token,
}
use auth_login_load_balancin.Service.Token.Identity.{Accepted, validate_access_token-Accepted}
use auth_login_load_balancin.Http.{Request, Reply, Handler, attend}
use auth_login_load_balancin.Http.Headers
use auth_login_load_balancin.Http.Library.{Web}
use auth_login_load_balancin.Middleware.Guards.{bearer, authorized, with_bearer, require_auth}
use auth_login_load_balancin.Middleware.Status.{write_error-status-ne}

ok_lt : 200 < 400
ok_lt = omega arith

bearer-eq-some :
    (table : Char → Char) (parts : Option (String × String)) {token : String}
    → bearer table parts ≡ some token
    → (scheme rest : String) × (parts ≡ some (scheme, rest))
      × (equal_fold table scheme "Bearer" ≡ true)
      × (token ≡ trim_space rest)
      × (token ≢ "")
bearer-eq-some table none h = absurd cc
bearer-eq-some table (some (scheme, rest)) {token} h =
    elim (Bool-cases (not (equal_fold table scheme "Bearer") || trim_space rest == "")) [
      | inl refuses ↦ absurd (cc (rw refuses at h))
      | inr passes ↦
          let (scheme_is, filled) =
            (or-eq-false_iff (not (equal_fold table scheme "Bearer")) (trim_space rest == "")).0
              passes in
          let same : trim_space rest ≡ token = cc (rw passes at h) in
          (
            scheme,
            rest,
            refl,
            not-eq-false _ scheme_is,
            sym same,
            λ e. cc (filled, (eq_iff (trim_space rest) "").1 (same ∙ e)),
          )
    ]

module _ {S D O : Type 0} (p : Platform S D O) (v : Views S D O) (l : Laws p v)
    (web : Web (World S D O)) (c : TokenConfig) where
  -- The request carries a bearer token that the token service has accepted for the identity.
  pub record Authorized (r : Request) (i : AuthIdentity) (w t : World S D O) : Type 0 where
    pub token : String
    pub scheme : String
    pub rest : String
    pub parts :
        split_in_two (trim_space (Headers.get "Authorization" r.header)) b' ' ≡ some (scheme, rest)
    pub is_bearer : equal_fold p.lib.fold_table scheme "Bearer" ≡ true
    pub is_token : token ≡ trim_space rest
    pub now : ℕ
    pub from : v.time w.os ≤ now
    pub to : now ≤ v.time t.os
    pub accepted : Accepted i (p.lib.jwt_parse now token (keyfunc c) (parse_options c))

  authorized-eq :
      (next : Handler (World S D O)) (r : Request) (token : String) (a : Reply (World S D O))
      → a.writer.status ≡ 0
      → (attend (validate_access_token p c token) (authorized p web next r) a).writer.status ≡ 200
      → (i : AuthIdentity) × (t : World S D O) × (validate_access_token p c token a.world
          ≡ (ok i, t))
        × (attend (validate_access_token p c token) (authorized p web next r) a
            ≡ next (record r { auth_identity = some i }) (record a { world = t }))
  unfolding attend
  authorized-eq next r token a fresh h200 =
      by_result (validate_access_token p c token a.world).0
        (validate_access_token p c token a.world).1 refl h200
    where
      by_result :
          (o : Result AuthIdentity) (t : World S D O)
          → validate_access_token p c token a.world ≡ (o, t)
          → (authorized p web next r o (record a { world = t })).writer.status ≡ 200
          → (i : AuthIdentity) × (t' : World S D O) × (validate_access_token p c token a.world
              ≡ (ok i, t'))
            × (authorized p web next r
                  (validate_access_token p c token a.world).0
                  (record a { world = (validate_access_token p c token a.world).1 })
                ≡ next (record r { auth_identity = some i }) (record a { world = t' }))
      by_result (ok i) t e h = (i, t, e, rw e refl)
      by_result (err x) t e h =
          absurd (write_error-status-ne web 200 ok_lt r 401 _ _ _ (omega arith) fresh h)

  with_bearer-Authorized :
      (next : Handler (World S D O)) (r : Request) (o : Option String) (a : Reply (World S D O))
      → bearer p.lib.fold_table
          (split_in_two (trim_space (Headers.get "Authorization" r.header)) b' ')
        ≡ o
      → a.writer.status ≡ 0
      → (with_bearer p web c next r o a).writer.status ≡ 200
      → (i : AuthIdentity) × (t : World S D O) × Authorized r i a.world t
        × (with_bearer p web c next r o a
            ≡ next (record r { auth_identity = some i }) (record a { world = t }))
  with_bearer-Authorized next r none a is fresh h200 =
      absurd (write_error-status-ne web 200 ok_lt r 401 _ _ a (omega arith) fresh h200)
  with_bearer-Authorized next r (some token) a is fresh h200 =
      let (i, t, runs, ends) = authorized-eq next r token a fresh h200 in
      let (scheme, rest, parts, bears, same, _) = bearer-eq-some p.lib.fold_table _ is in
      let (now, from, to, accepted) = validate_access_token-Accepted p v l c token a.world runs in
      (
        i,
        t,
        record {
          token = token;
          scheme = scheme;
          rest = rest;
          parts = parts;
          is_bearer = bears;
          is_token = same;
          now = now;
          from = from;
          to = to;
          accepted = accepted;
        },
        ends,
      )

  -- A response with 200 behind RequireAuth, which had no status before, is that of the handler, for the identity of a bearer
  -- token that the token service has accepted at a moment of the call.
  pub require_auth-Authorized :
      (next : Handler (World S D O)) (r : Request) (a : Reply (World S D O))
      → a.writer.status ≡ 0
      → (require_auth p web c next r a).writer.status ≡ 200
      → (i : AuthIdentity) × (t : World S D O) × Authorized r i a.world t
        × (require_auth p web c next r a
            ≡ next (record r { auth_identity = some i }) (record a { world = t }))
  unfolding require_auth
  require_auth-Authorized next r a fresh h200 =
      elim (Bool-cases (trim_space (Headers.get "Authorization" r.header) == "")) [
        | inl blank ↦
            absurd (
              write_error-status-ne web 200 ok_lt r 401 _ _ a (omega arith) fresh
                (rw blank at h200))
        | inr filled ↦
            let (i, t, authorized, ends) =
              with_bearer-Authorized next r _ a refl fresh (rw filled at h200) in
            (i, t, authorized, rw filled ends)
      ]
