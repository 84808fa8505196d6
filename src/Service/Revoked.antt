-- ===== src/Service/Revoked.antt =====
-- Revoking everything of a user: the two calls that LogoutAll and the detection of a reused token
-- make, one after the other.
use auth_login_load_balancin.Prelude.{String, ◌≡◌, some, arith, inl, inr, sym, ◌∙◌}
use auth_login_load_balancin.Prelude.Exec.{ok}
use auth_login_load_balancin.Prelude.Exec.Keeps.{Keeps-after}
use auth_login_load_balancin.Platform.{Platform, World, RefreshTokenRecord}
use auth_login_load_balancin.Platform.Laws.{Views, Laws}
use auth_login_load_balancin.Platform.Reads.{Reads}
use auth_login_load_balancin.Platform.Quiet.{Quiet}
use auth_login_load_balancin.Repository.RefreshToken.{revoke_all_by_user}
use auth_login_load_balancin.Repository.RefreshToken.View.{record_at, Reads-record_at}
use auth_login_load_balancin.Repository.RefreshToken.Revocation.{
  IsDead, Reads-Revoking, revoke_all_by_user-Revoking,
}
use auth_login_load_balancin.Repository.RefreshToken.Index.{IsIndexed, revoke_all_by_user_complete}
use auth_login_load_balancin.Repository.Session.{revoke_all_by_user_id}
use auth_login_load_balancin.Repository.Session.Revocation.{
  NoneActive, revoke_all_by_user_id-NoneActive,
}

module _ {S D O : Type 0} (p : Platform S D O) (v : Views S D O) where
  -- Every token of the user is dead, and no session of the user is ACTIVE.
  pub record LoggedOut (user_id : String) (before after : World S D O) : Type 0 where
    pub tokens :
        (token : String) (r : RefreshTokenRecord)
        → record_at p v before token ≡ some r
        → r.user_id ≡ user_id
        → IsDead p v after token
    pub sessions : NoneActive user_id (v.postgres.sessions after.db)
    pub dead : (token : String) → IsDead p v before token → IsDead p v after token

  -- The records are a matter of the cache alone.
  pub record_at_of_cache :
      (w t : World S D O) (token : String)
      → t.cache ≡ w.cache
      → record_at p v t token ≡ record_at p v w token
  unfolding record_at
  record_at_of_cache w t token e = rw e

  pub IsDead-of_cache :
      (w t : World S D O) (token : String)
      → t.cache ≡ w.cache
      → t.os ≡ w.os
      → IsDead p v w token
      → IsDead p v t token
  IsDead-of_cache w t token e os dead r at =
      rw os (dead r (sym (record_at_of_cache w t token e) ∙ at))

  -- What is dead stays dead while only the clock and the audit log move.
  pub Quiet-IsDead :
      {w t : World S D O} → Quiet v w t → (token : String) → IsDead p v w token → IsDead p v t token
  Quiet-IsDead {w} {t} q token dead r at =
      ground (arith, q.clock, dead r (cc (record_at_of_cache w t token q.cache, at)))

  pub Quiet-LoggedOut :
      {user_id : String} {w t u : World S D O}
      → LoggedOut user_id w t
      → Quiet v t u
      → LoggedOut user_id w u
  Quiet-LoggedOut {user_id} h q = record {
    tokens = λ token r at mine. Quiet-IsDead q token (h.tokens token r at mine);
    sessions = rw q.sessions h.sessions;
    dead = λ token d. Quiet-IsDead q token (h.dead token d);
  }

  pub Reads-LoggedOut :
      {user_id : String} {w t u : World S D O}
      → Reads v w t
      → LoggedOut user_id t u
      → LoggedOut user_id w u
  Reads-LoggedOut {w} {t} reads h = record {
    tokens = λ token r at mine. elim (Reads-record_at p v w t token reads) [
      | inl same ↦ h.tokens token r (cc (same, at)) mine
      | inr gone ↦ h.dead token (λ q found. absurd (cc (gone, found)))
    ];
    sessions = h.sessions;
    dead = λ token d. h.dead token ((Reads-Revoking p v reads).dead token d);
  }

  -- The two calls, if both succeed.
  pub revoked_LoggedOut :
      (l : Laws p v) (user_id : String) (w t : World S D O) {u : World S D O}
      → IsIndexed p v w
      → revoke_all_by_user p user_id w ≡ (ok tt, t)
      → revoke_all_by_user_id p user_id t ≡ (ok tt, u)
      → LoggedOut user_id w u
  revoked_LoggedOut l user_id w t {u} indexed revokes ends =
      let (none_active, cache, os) = revoke_all_by_user_id-NoneActive p v l user_id t ends in
      record {
        tokens = λ token r at mine q found.
            let dead =
              revoke_all_by_user_complete p v l user_id w indexed revokes token r at mine q
                (cc (record_at_of_cache t u token cache, found)) in
            rw os dead;
        sessions = none_active;
        dead = λ token d q found. rw os (
            (Keeps-after (revoke_all_by_user-Revoking p v l user_id) w revokes).dead token d q
              (cc (record_at_of_cache t u token cache, found)));
      }
