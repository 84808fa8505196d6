-- ===== src/Service/Spent/Kept.antt =====
-- The methods of the refresh-token repository, as calls that leave a spent token spent.
use auth_login_load_balancin.Prelude.{ℕ, String, ◌≢◌, List, inl, inr}
use auth_login_load_balancin.Prelude.Exec.{Exec, for_each}
use auth_login_load_balancin.Prelude.Exec.Keeps.{
  IsPreorder, Keeps, Keeps-pure, Keeps-raise, Keeps-lift, Keeps-bind, Keeps-catch, Keeps-if,
  Keeps-for_each,
}
use auth_login_load_balancin.Model.{RefreshToken}
use auth_login_load_balancin.Platform.{Platform, World, on_cache, total_os}
use auth_login_load_balancin.Platform.Laws.{Views, Laws}
use auth_login_load_balancin.Repository.Clock.{current_time, time_until}
use auth_login_load_balancin.Repository.RefreshToken as RefreshTokenRepository
use auth_login_load_balancin.Repository.RefreshToken.Status.{update_status-Restated}
use auth_login_load_balancin.Service.Spent.{
  NeverAgain, Spends, Spends-preorder, Faded-IsSpent, now-Spends, on_cache-Spends, exec-Spends,
}

-- What becomes of the machine alone.
abbrev Machine : {S D O : Type 0} → (O → Type 0) → World S D O → World S D O → Type 0
Machine gone w t = gone w.os → gone t.os

module _ {S D O : Type 0} (p : Platform S D O) (v : Views S D O) (l : Laws p v) (k : String)
    (gone : O → Type 0) (never : NeverAgain p v k gone) where
  Machine-preorder : IsPreorder {S = World S D O} (Machine gone)
  Machine-preorder = record { refl = λ w g. g; trans = λ w t u a b g. b (a g) }

  Machine-on_cache : {A : Type 0} (m : Exec S A) → Keeps (Machine gone) (on_cache {D = D} {O = O} m)
  unfolding on_cache
  Machine-on_cache m = record { at = λ w g. g }

  Machine-now : Keeps (Machine gone) (total_os {S = S} {D = D} p.os.now)
  unfolding total_os
  Machine-now = record { at = λ w. never.now w.os }

  ruleset kept_rules = (Keeps-pure, Keeps-raise, Keeps-lift, Keeps-bind, Keeps-catch, Keeps-if)

  find_by_token-Machine :
      (token : String) → Keeps (Machine gone) (RefreshTokenRepository.find_by_token p token)
  unfolding RefreshTokenRepository.find_by_token
  find_by_token-Machine token = search (Machine-preorder, kept_rules, Machine-on_cache)

  time_until-Machine : (t : ℕ) → Keeps (Machine gone) (time_until p t)
  unfolding time_until current_time
  time_until-Machine t = search (Machine-preorder, kept_rules, Machine-now)

  update_status-Machine :
      (token status : String)
      → Keeps (Machine gone) (RefreshTokenRepository.update_status p token status)
  unfolding RefreshTokenRepository.update_status
  update_status-Machine token status =
      search
        (Machine-preorder, kept_rules, Machine-on_cache, find_by_token-Machine, time_until-Machine)
        depth 9

  pub update_status-Spends :
      (token status : String)
      → status ≢ "ACTIVE"
      → Keeps (Spends p v k gone) (RefreshTokenRepository.update_status p token status)
  update_status-Spends token status other = record {
    at = λ w.
        let r = update_status-Restated p v l token status w in
        record {
          machine = (update_status-Machine token status).at w;
          token = λ spent. elim (r.records k) [
            | inl faded ↦ Faded-IsSpent p v l k gone never w _ faded r.clock spent
            | inr (_, (old, _, now)) ↦ λ q at. inl (λ active. other (cc (at, now, active)))
          ];
        };
  }

  pub find_by_token-Spends :
      (token : String) → Keeps (Spends p v k gone) (RefreshTokenRepository.find_by_token p token)
  unfolding RefreshTokenRepository.find_by_token
  find_by_token-Spends token = search (
    Spends-preorder p v l k gone never,
    kept_rules,
    on_cache-Spends p v l k gone never,
    l.redis.get_reads,
  )

  pub current_time-Spends : Keeps (Spends p v k gone) (current_time p)
  unfolding current_time
  current_time-Spends = now-Spends p v l k gone never

  pub time_until-Spends : (t : ℕ) → Keeps (Spends p v k gone) (time_until p t)
  unfolding time_until
  time_until-Spends t = search (Spends-preorder p v l k gone never, kept_rules, current_time-Spends)

  pub create-Spends :
      (token : RefreshToken)
      → token.token ≢ k
      → Keeps (Spends p v k gone) (RefreshTokenRepository.create p token)
  unfolding RefreshTokenRepository.create
  create-Spends token differ = search (
    Spends-preorder p v l k gone never,
    kept_rules,
    time_until-Spends,
    exec-Spends p v l k gone never,
    differ,
  )

  revoked_ne : ◌≢◌ {A = String} "REVOKED" "ACTIVE"
  revoked_ne e = cc e

  revoke_listed-Spends :
      (token : String) → Keeps (Spends p v k gone) (RefreshTokenRepository.revoke_listed p token)
  unfolding RefreshTokenRepository.revoke_listed
  revoke_listed-Spends token = search (
    Spends-preorder p v l k gone never,
    kept_rules,
    find_by_token-Spends,
    update_status-Spends,
    revoked_ne,
  )

  loop-Spends :
      (tokens : List String)
      → Keeps (Spends p v k gone) (for_each tokens (RefreshTokenRepository.revoke_listed p))
  loop-Spends tokens =
      Keeps-for_each (Spends-preorder p v l k gone never) tokens _ revoke_listed-Spends

  pub revoke_all_by_user-Spends :
      (user : String) → Keeps (Spends p v k gone) (RefreshTokenRepository.revoke_all_by_user p user)
  unfolding RefreshTokenRepository.revoke_all_by_user
  revoke_all_by_user-Spends user =
      Keeps-bind (Spends-preorder p v l k gone never) _ _
        (on_cache-Spends p v l k gone never _ (l.redis.smembers_reads _)) loop-Spends

  pub revoke_all_by_session-Spends :
      (session : String)
      → Keeps (Spends p v k gone) (RefreshTokenRepository.revoke_all_by_session p session)
  unfolding RefreshTokenRepository.revoke_all_by_session
  revoke_all_by_session-Spends session =
      Keeps-bind (Spends-preorder p v l k gone never) _ _
        (on_cache-Spends p v l k gone never _ (l.redis.smembers_reads _)) loop-Spends
