-- ===== src/Service/Auth/Sequence.antt =====
-- Sequences of calls of the authentication service, by whomever, and what they can do to a refresh
-- token that is spent.
use auth_login_load_balancin.Prelude.{String, ◌≡◌, ◌≢◌, inl, inr, arith}
use auth_login_load_balancin.Prelude.Exec.{Exec, ok}
use auth_login_load_balancin.Prelude.Exec.Keeps.{Keeps}
use auth_login_load_balancin.Go.Strings.{trim_space}
use auth_login_load_balancin.Model.{RequestMetadata, RefreshTokenResponse}
use auth_login_load_balancin.Platform.{Platform, World}
use auth_login_load_balancin.Platform.Laws.{Views, Laws}
use auth_login_load_balancin.Platform.Reads.{Reads}
use auth_login_load_balancin.Repository.RefreshToken.View.{Reads-record_at}
use auth_login_load_balancin.Service.Auth.{AuthConfig, login, register}
use auth_login_load_balancin.Service.Auth.Refresh.{refresh_access_token}
use auth_login_load_balancin.Service.Auth.Refresh.Rotation.{refresh_access_token-Rotated}
use auth_login_load_balancin.Service.Auth.Logout.{logout, logout_all, list_sessions, revoke_session}
use auth_login_load_balancin.Service.Spent.{IsSpent, NeverAgain, Spends, Faded-IsSpent}
use auth_login_load_balancin.Service.Auth.Spending.{
  Retains, Retains-of_Spends, login-Retains, register-Spends,
}
use auth_login_load_balancin.Service.Auth.Refresh.Spending.{refresh_access_token-Retains}
use auth_login_load_balancin.Service.Auth.Logout.Spending.{
  logout-Spends, logout_all-Spends, list_sessions-Spends, revoke_session-Spends,
}

-- A call of a method of AuthService.
pub data Call : Type 0 where
  logs_in registers : (email password : String) → RequestMetadata → Call
  refreshes logs_out logs_out_all : String → RequestMetadata → Call
  lists : String → Call
  revokes : (user_id session_id : String) → Call

module _ {S D O : Type 0} (p : Platform S D O) (c : AuthConfig) where
  -- The state after a call, whatever it has answered.
  abbrev pub perform : Call → World S D O → World S D O
  perform (logs_in email password m) w = (login p c email password m w).1
  perform (registers email password m) w = (register p c email password m w).1
  perform (refreshes value m) w = (refresh_access_token p c value m w).1
  perform (logs_out value m) w = (logout p c value m w).1
  perform (logs_out_all user_id m) w = (logout_all p c user_id m w).1
  perform (lists user_id) w = (list_sessions p c user_id w).1
  perform (revokes user_id session_id) w = (revoke_session p c user_id session_id w).1

module _ {S D O : Type 0} (p : Platform S D O) (v : Views S D O) (c : AuthConfig) where
  -- Calls one after the other; keys may expire after each.
  pub data Sequence : World S D O → World S D O → Type 0 where
    stops : (w : World S D O) → Sequence w w
    calls :
        (w : World S D O) (x : Call) (u t : World S D O)
        → Reads v (perform p c x w) u
        → u.os ≡ (perform p c x w).os
        → Sequence u t
        → Sequence w t

module _ {S D O : Type 0} (p : Platform S D O) (v : Views S D O) (l : Laws p v) (k : String)
    (gone : O → Type 0) (never : NeverAgain p v k gone) (c : AuthConfig) where
  Retains-after :
      {A : Type 0} (m : Exec (World S D O) A)
      → Keeps (Spends p v k gone) m
      → (w : World S D O) → Retains p v l k gone never c w (m w).1
  Retains-after m kept = (Retains-of_Spends p v l k gone never c m kept).at

  perform-Retains : (x : Call) (w : World S D O) → Retains p v l k gone never c w (perform p c x w)
  perform-Retains (logs_in email password m) w =
      (login-Retains p v l k gone never c email password m).at w
  perform-Retains (registers email password m) w =
      Retains-after _ (register-Spends p v l k gone never c email password m) w
  perform-Retains (refreshes value m) w =
      (refresh_access_token-Retains p v l k gone never c value m).at w
  perform-Retains (logs_out value m) w =
      Retains-after _ (logout-Spends p v l k gone never c value m) w
  perform-Retains (logs_out_all user_id m) w =
      Retains-after _ (logout_all-Spends p v l k gone never c user_id m) w
  perform-Retains (lists user_id) w =
      Retains-after _ (list_sessions-Spends p v l k gone never c user_id) w
  perform-Retains (revokes user_id session_id) w =
      Retains-after _ (revoke_session-Spends p v l k gone never c user_id session_id) w

  -- If the entropy of the machine never gives a token again, and the token is spent (it has no
  -- record, one that is not ACTIVE, or one that has expired), then it is spent after any sequence of
  -- calls of the authentication service, successful or not.
  pub Sequence-IsSpent :
      (w t : World S D O) → Sequence p v c w t → gone w.os → IsSpent p v k w → IsSpent p v k t
  Sequence-IsSpent w t (stops _) g spent = spent
  Sequence-IsSpent w t (calls _ x u _ expires same rest) g spent =
      let (g', kept) = perform-Retains x w (g, spent) in
      Sequence-IsSpent u t rest (rw same g') (
        Faded-IsSpent p v l k gone never (perform p c x w) u (Reads-record_at p v _ u k expires)
          expires.clock kept)

  -- If the entropy of the machine never gives the token again, then a refresh token that has been
  -- exchanged once, for another one, is not exchanged again, whatever calls of the authentication
  -- service come in between.
  pub refresh_access_token-once :
      (value : String) (m n : RequestMetadata) (w t u x : World S D O) (r s : RefreshTokenResponse)
      → trim_space value ≡ k
      → k ≢ r.refresh_token
      → gone t.os
      → refresh_access_token p c value m w ≡ (ok r, t)
      → Sequence p v c t u
      → ¬ (refresh_access_token p c value n u ≡ (ok s, x))
  refresh_access_token-once value m n w t u x r s is other g first between second =
      let e = refresh_access_token-Rotated p v l c value m w first in
      let spent : IsSpent p v k t = λ q at. elim (e.spent (rw is other)) [
        | inl used ↦ inl (λ active. cc (used, at, is, active))
        | inr nothing ↦ absurd (cc (nothing, at, is))
      ] in
      let later = Sequence-IsSpent t u between g spent in
      let f = refresh_access_token-Rotated p v l c value n u second in
      elim (later f.old (rw is at f.found)) [
        | inl ended ↦ absurd (ended f.was_active)
        | inr expired ↦ let live = f.was_live in absurd (omega (arith, live, expired))
      ]
