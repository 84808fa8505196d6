-- ===== src/Service/Auth/Refresh/Lookup.antt =====
-- The look-up of the token that RefreshAccessToken is given.
use auth_login_load_balancin.Prelude.{String, ◌≡◌, some, inl, inr, Bool-cases}
use auth_login_load_balancin.Prelude.Exec.{ok, catch, ran, >>=-eq-ok, catch-eq-ok, raise-ne-ok}
use auth_login_load_balancin.Prelude.Exec.Keeps.{Keeps-after}
use auth_login_load_balancin.Errors.{is_refresh_token_not_found}
use auth_login_load_balancin.Model.{RefreshToken, RequestMetadata}
use auth_login_load_balancin.Platform.{Platform, World}
use auth_login_load_balancin.Platform.Laws.{Views, Laws}
use auth_login_load_balancin.Platform.Reads.{Reads}
use auth_login_load_balancin.Repository.RefreshToken.{find_by_token, to_record}
use auth_login_load_balancin.Repository.RefreshToken.View.{
  record_at, find_by_token-Reads, find_by_token-record_at,
}
use auth_login_load_balancin.Service.Auth.{AuthConfig}
use auth_login_load_balancin.Service.Auth.Refresh.{unknown_token}

module _ {S D O : Type 0} (p : Platform S D O) (v : Views S D O) (l : Laws p v)
    (c : AuthConfig) where
  -- A look-up that succeeds has found the record of its token, and has only read.
  pub lookup_found :
      (value : String) (m : RequestMetadata) (w : World S D O) {token : RefreshToken}
      {t : World S D O}
      → catch (find_by_token p value) (unknown_token p c m) w ≡ (ok token, t)
      → (record_at p v w value ≡ some (to_record token)) × (token.token ≡ value) × Reads v w t
  lookup_found value m w h = elim (catch-eq-ok _ _ w h) [
    | inl finds ↦
        let (at, same) = find_by_token-record_at p v l value w finds in
        (at, same, Keeps-after (find_by_token-Reads p v l value) w finds)
    | inr (e, u, failed, rescued) ↦ elim (Bool-cases (is_refresh_token_not_found e)) [
      | inl own ↦ elim (>>=-eq-ok _ _ u (rw own at rescued)) [
        | ran _ x logs raised ↦ absurd (raise-ne-ok _ x raised)
      ]
      | inr foreign ↦ absurd (raise-ne-ok _ u (rw foreign at rescued))
    ]
  ]
