-- ===== src/Service/Auth/Logout/OneSession.antt =====
-- RevokeSession: only the owner of a session can revoke it, and its tokens go with it.
use mathlib.Core.List.{Memᴰ}
use auth_login_load_balancin.Prelude.{
  String, ◌≡◌, ◌==◌, sym, ap, some, inl, inr, Bool-cases, eq_iff, List, [], ◌∷◌, ◌∙◌,
}
use auth_login_load_balancin.Prelude.Exec.{ok, ran, >>=-eq-ok, pure-eq-ok, lift-eq-ok, raise-ne-ok}
use auth_login_load_balancin.Prelude.Exec.Keeps.{Keeps-after}
use auth_login_load_balancin.Go.Strings.{trim_space}
use auth_login_load_balancin.Model.{Session as Device, SessionDeleteResponse}
use auth_login_load_balancin.Platform.{Platform, World, RefreshTokenRecord}
use auth_login_load_balancin.Platform.Laws.{Views, Laws}
use auth_login_load_balancin.Platform.Reads.{on_db_eq}
use auth_login_load_balancin.Repository.Session
use auth_login_load_balancin.Repository.Session.Revocation.{HasStatus, update_status-HasStatus}
use auth_login_load_balancin.Repository.RefreshToken.View.{record_at}
use auth_login_load_balancin.Repository.RefreshToken.Revocation.{IsDead}
use auth_login_load_balancin.Repository.RefreshToken.Index.{
  IsIndexed, revoke_all_by_session_complete,
}
use auth_login_load_balancin.Service.Auth.{AuthConfig}
use auth_login_load_balancin.Service.Quiet.{find_session_by_id-Quiet}
use auth_login_load_balancin.Service.Revoked.{record_at_of_cache, IsDead-of_cache}
use auth_login_load_balancin.Service.Auth.Logout.{revoke_session}

module _ {S D O : Type 0} (p : Platform S D O) (v : Views S D O) where
  -- The text is read as the id of a session of the user, which is now REVOKED, and its tokens are
  -- dead.
  pub record SessionRevoked (user_id session_id : String) (w t : World S D O) : Type 0 where
    pub session : Device
    pub stored : Memᴰ session (v.postgres.sessions w.db)
    pub is_named : p.postgres.uuid_in session_id ≡ ok session.id
    pub is_owned : session.user_id ≡ user_id
    pub revoked : HasStatus session.id "REVOKED" (v.postgres.sessions t.db)
    pub tokens :
        (token : String) (r : RefreshTokenRecord)
        → record_at p v w token ≡ some r
        → r.session_id ≡ session.id
        → IsDead p v t token

  IsIndexed-of_cache : (w t : World S D O) → t.cache ≡ w.cache → IsIndexed p v w → IsIndexed p v t
  IsIndexed-of_cache w t e h x r at = rw e (h x r (sym (record_at_of_cache p v w t x e) ∙ at))

  first_session-Memᴰ :
      (ss : List Device) (w : World S D O) {s : Device} {t : World S D O}
      → Session.first_session p ss w ≡ (ok s, t)
      → Memᴰ s ss
  first_session-Memᴰ [] w h = absurd (raise-ne-ok _ w h)
  first_session-Memᴰ (x ∷ ss) w h = let (same, _) = pure-eq-ok _ w h in Memᴰ.head (sym same)

  module _ (l : Laws p v) (c : AuthConfig) where
    find_session_by_id-eq-ok :
        (id : String) (w : World S D O) {s : Device} {t : World S D O}
        → Session.find_by_id p id w ≡ (ok s, t)
        → Memᴰ s (v.postgres.sessions w.db) × (p.postgres.uuid_in id ≡ ok s.id)
    unfolding Session.find_by_id
    find_session_by_id-eq-ok id w {s} h = elim (>>=-eq-ok _ _ w h) [
      | ran canonical t₁ reads h₁ ↦ elim (>>=-eq-ok _ _ t₁ h₁) [
        | ran rows t₂ selects first ↦
            let (is, same) = lift-eq-ok _ w reads in
            let (at, passes) =
              (l.postgres.select_sessions_ok _ _ (on_db_eq _ selects).0 s).0
                (first_session-Memᴰ rows t₂ first) in
            (rw same at, is ∙ ap ok (sym ((eq_iff s.id canonical).0 passes)))
      ]
    ]

    -- If every record is in the sets of its user and session, then a RevokeSession that reports
    -- success was given a text that the database reads as the id of a session of its user; the session is
    -- now REVOKED, and every token that had a record of that session is dead.
    pub revoke_session-SessionRevoked :
        (user_id session_id : String) (w : World S D O) {r : SessionDeleteResponse}
        {t : World S D O}
        → IsIndexed p v w
        → revoke_session p c user_id session_id w ≡ (ok r, t)
        → SessionRevoked (trim_space user_id) (trim_space session_id) w t
    unfolding revoke_session
    revoke_session-SessionRevoked user_id session_id w {r} {t} indexed h =
        elim (>>=-eq-ok _ _ w h) [
          | ran found t₁ finds h₁ ↦ elim (Bool-cases (found.user_id == trim_space user_id)) [
            | inr other ↦ absurd (raise-ne-ok _ t₁ (rw other at h₁))
            | inl owned ↦ elim (>>=-eq-ok _ _ t₁ (rw owned at h₁)) [
              | ran _ t₂ revokes h₂ ↦ elim (>>=-eq-ok _ _ t₂ h₂) [
                | ran _ t₃ marks h₃ ↦
                    let (_, ends) = pure-eq-ok _ t₃ h₃ in
                    let (stored, named) =
                      find_session_by_id-eq-ok (trim_space session_id) w finds in
                    let same =
                      (Keeps-after (find_session_by_id-Quiet p v l (trim_space session_id)) w
                        finds).cache in
                    let (status, cache, os) = update_status-HasStatus p v l _ _ t₂ marks in
                    record {
                      session = found;
                      stored = stored;
                      is_named = named;
                      is_owned = (eq_iff _ _).0 owned;
                      revoked = rw (← ends) status;
                      tokens = λ token rec at mine. rw (← ends) (
                          IsDead-of_cache p v t₂ t₃ token cache os (
                            revoke_all_by_session_complete p v l found.id t₁
                              (IsIndexed-of_cache w t₁ same indexed) revokes token rec
                              (record_at_of_cache p v w t₁ token same ∙ at) mine));
                    }
              ]
            ]
          ]
        ]
