-- ===== src/Service/Token/Fresh.antt =====
-- A new refresh token belongs to its user and is ACTIVE.
use auth_login_load_balancin.Prelude.{String, ◌≡◌, sym, ap}
use auth_login_load_balancin.Prelude.Exec.{ok, ran, >>=-eq-ok, pure-eq-ok}
use auth_login_load_balancin.Model.{RefreshToken}
use auth_login_load_balancin.Platform.{Platform, World}
use auth_login_load_balancin.Service.Token.{TokenConfig, generate_refresh_token}

pub generate_refresh_token-eq-ok :
    {S D O : Type 0} (p : Platform S D O) (c : TokenConfig) (user_id : String) (w : World S D O)
    {fresh : RefreshToken} {t : World S D O}
    → generate_refresh_token p c user_id w ≡ (ok fresh, t)
    → (fresh.user_id ≡ user_id) × (fresh.status ≡ "ACTIVE")
unfolding generate_refresh_token
generate_refresh_token-eq-ok p c user_id w h = elim (>>=-eq-ok _ _ w h) [
  | ran bytes t₁ reads h₁ ↦ elim (>>=-eq-ok _ _ t₁ h₁) [
    | ran now t₂ timed h₂ ↦
        let (same, _) = pure-eq-ok _ t₂ h₂ in
        (
          sym (ap (λ (x : RefreshToken). x.user_id) same),
          sym (ap (λ (x : RefreshToken). x.status) same),
        )
  ]
]
