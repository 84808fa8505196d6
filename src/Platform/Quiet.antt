-- ===== src/Platform/Quiet.antt =====
-- Calls that leave the cache, the users and the sessions alone: the clock, the entropy, the audit
-- log, and queries.
use auth_login_load_balancin.Prelude.{◌≤◌, ◌≡◌, refl, ◌∙◌, arith}
use auth_login_load_balancin.Prelude.Exec.{Exec}
use auth_login_load_balancin.Prelude.Exec.Keeps.{IsPreorder, Keeps}
use auth_login_load_balancin.Platform.{World, on_db, on_os, total_os}
use auth_login_load_balancin.Platform.Laws.{Views}

module _ {S D O : Type 0} (v : Views S D O) where
  pub record Quiet (w t : World S D O) : Type 0 where
    pub cache : t.cache ≡ w.cache
    pub users : v.postgres.users t.db ≡ v.postgres.users w.db
    pub sessions : v.postgres.sessions t.db ≡ v.postgres.sessions w.db
    pub clock : v.time w.os ≤ v.time t.os

  pub Quiet-preorder : IsPreorder Quiet
  Quiet-preorder = record {
    refl = λ w. record { cache = refl; users = refl; sessions = refl; clock = omega arith };
    trans = λ w t u a b. record {
      cache = b.cache ∙ a.cache;
      users = b.users ∙ a.users;
      sessions = b.sessions ∙ a.sessions;
      clock = omega arith;
    };
  }

  pub Quiet-on_os :
      {A : Type 0} (m : Exec O A) → ((o : O) → v.time o ≤ v.time (m o).1) → Keeps Quiet (on_os m)
  unfolding on_os
  Quiet-on_os m h = record {
    at = λ w. record { cache = refl; users = refl; sessions = refl; clock = h w.os };
  }

  pub Quiet-total_os :
      {A : Type 0} (f : O → A × O)
      → ((o : O) → v.time o ≤ v.time (f o).1)
      → Keeps Quiet (total_os f)
  unfolding total_os
  Quiet-total_os f h = record {
    at = λ w. record { cache = refl; users = refl; sessions = refl; clock = h w.os };
  }

  pub Quiet-on_db :
      {A : Type 0} (m : Exec D A)
      → ((d : D) → v.postgres.users (m d).1 ≡ v.postgres.users d)
      → ((d : D) → v.postgres.sessions (m d).1 ≡ v.postgres.sessions d)
      → Keeps Quiet (on_db m)
  unfolding on_db
  Quiet-on_db m hu hs = record {
    at = λ w. record { cache = refl; users = hu w.db; sessions = hs w.db; clock = omega arith };
  }
