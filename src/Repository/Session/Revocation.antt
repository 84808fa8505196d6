-- ===== src/Repository/Session/Revocation.antt =====
-- What the UPDATE statements of the session repository leave in the sessions table.
use auth_login_load_balancin.Prelude.{
  String, ◌≡◌, ◌≢◌, refl, ◌==◌, ◌&&◌, List, [], ◌∷◌, All, Bool-cases, inl, inr, eq_iff,
}
use auth_login_load_balancin.Prelude.Exec.{ok}
use auth_login_load_balancin.Model.{Session}
use auth_login_load_balancin.Platform.{Platform, World}
use auth_login_load_balancin.Platform.Laws.{Views, Laws, updated}
use auth_login_load_balancin.Platform.Reads.{on_db_eq}
use auth_login_load_balancin.Repository.Session.{revoke_all_by_user_id, update_status}

-- No session of the user is ACTIVE.
abbrev pub NoneActive : String → List Session → Type 0
NoneActive user_id = All (λ s. s.user_id ≡ user_id → s.status ≢ "ACTIVE")

revoked-ne-active : ◌≢◌ {A = String} "REVOKED" "ACTIVE"
revoked-ne-active q = cc ((eq_iff "REVOKED" "ACTIVE").1 q)

updated-NoneActive :
    (user_id : String) (ss : List Session)
    → NoneActive user_id (
        updated
          (λ s. s.user_id == user_id && s.status == "ACTIVE")
          (λ s. record s { status = "REVOKED" })
          ss)
updated-NoneActive user_id [] = tt
updated-NoneActive user_id (s ∷ ss) = (
  elim (Bool-cases (s.user_id == user_id && s.status == "ACTIVE")) [
    | inl e ↦ rw e (λ mine. revoked-ne-active)
    | inr e ↦ rw e (λ mine active.
        cc (e, (eq_iff s.user_id user_id).1 mine, (eq_iff s.status "ACTIVE").1 active))
  ],
  updated-NoneActive user_id ss,
)

-- The session with the id has the status.
abbrev pub HasStatus : String → String → List Session → Type 0
HasStatus id status = All (λ s. s.id ≡ id → s.status ≡ status)

updated-HasStatus :
    (id status : String) (ss : List Session)
    → HasStatus id status (updated (λ s. s.id == id) (λ s. record s { status = status }) ss)
updated-HasStatus id status [] = tt
updated-HasStatus id status (s ∷ ss) = (
  elim (Bool-cases (s.id == id)) [
    | inl e ↦ rw e (λ mine. refl)
    | inr e ↦ rw e (λ mine. absurd (cc (e, (eq_iff s.id id).1 mine)))
  ],
  updated-HasStatus id status ss,
)

module _ {S D O : Type 0} (p : Platform S D O) (v : Views S D O) (l : Laws p v) where
  -- After a RevokeAllByUserID that reports success no session of the user is ACTIVE; the cache and
  -- the clock are untouched.
  pub revoke_all_by_user_id-NoneActive :
      (user_id : String) (w : World S D O) {t : World S D O}
      → revoke_all_by_user_id p user_id w ≡ (ok tt, t)
      → NoneActive user_id (v.postgres.sessions t.db) × (t.cache ≡ w.cache) × (t.os ≡ w.os)
  unfolding revoke_all_by_user_id
  revoke_all_by_user_id-NoneActive user_id w h =
      let (done, cache, os) = on_db_eq _ h in
      (rw (l.postgres.update_sessions_ok _ _ _ done) (updated-NoneActive user_id _), cache, os)

  -- After an UpdateStatus of a session that reports success every session with the id has the status;
  -- the cache and the clock are untouched.
  pub update_status-HasStatus :
      (id status : String) (w : World S D O) {t : World S D O}
      → update_status p id status w ≡ (ok tt, t)
      → HasStatus id status (v.postgres.sessions t.db) × (t.cache ≡ w.cache) × (t.os ≡ w.os)
  unfolding update_status
  update_status-HasStatus id status w h =
      let (done, cache, os) = on_db_eq _ h in
      (rw (l.postgres.update_sessions_ok _ _ _ done) (updated-HasStatus id status _), cache, os)
