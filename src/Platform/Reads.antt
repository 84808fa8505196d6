-- ===== src/Platform/Reads.antt =====
-- Calls that only read: keys may expire and the clock moves on, nothing else changes.
use auth_login_load_balancin.Prelude.{◌≤◌, String, ◌≡◌, refl, ◌∙◌, inl, [], Option, arith}
use auth_login_load_balancin.Prelude.Exec.{Result, Exec}
use auth_login_load_balancin.Prelude.Exec.Keeps.{IsPreorder, Keeps}
use auth_login_load_balancin.Platform.{World, on_cache, on_db, on_os, total_os}
use auth_login_load_balancin.Platform.Laws.{Applied, Aged, Views}

pub Aged-trans : (a b c : Option String) → Aged a b → Aged b c → Aged a c
Aged-trans a b c h k = ground arith

module _ {S D O : Type 0} (v : Views S D O) where
  pub record Reads (w t : World S D O) : Type 0 where
    pub cache : Applied v.redis [] w.cache t.cache
    pub db : t.db ≡ w.db
    pub clock : v.time w.os ≤ v.time t.os

  Applied-refl : (s : S) → Applied v.redis [] s s
  Applied-refl s = record { values = λ k. inl refl; kept = λ k m h. h; added = λ k m h. elim h [ ] }

  Applied-trans :
      (s t u : S) → Applied v.redis [] s t → Applied v.redis [] t u → Applied v.redis [] s u
  Applied-trans s t u a b = record {
    values = λ k. Aged-trans _ _ _ (a.values k) (b.values k);
    kept = λ k m h. b.kept k m (a.kept k m h);
    added = λ k m h. elim h [ ];
  }

  pub Reads-preorder : IsPreorder Reads
  Reads-preorder = record {
    refl = λ w. record { cache = Applied-refl w.cache; db = refl; clock = omega arith };
    trans = λ w t u a b. record {
      cache = Applied-trans _ _ _ a.cache b.cache;
      db = b.db ∙ a.db;
      clock = omega arith;
    };
  }

  pub Reads-on_cache :
      {A : Type 0} (m : Exec S A)
      → ((s : S) → Applied v.redis [] s (m s).1)
      → Keeps Reads (on_cache m)
  unfolding on_cache
  Reads-on_cache m h = record {
    at = λ w. record { cache = h w.cache; db = refl; clock = omega arith };
  }

  pub Reads-on_os :
      {A : Type 0} (m : Exec O A) → ((o : O) → v.time o ≤ v.time (m o).1) → Keeps Reads (on_os m)
  unfolding on_os
  Reads-on_os m h = record {
    at = λ w. record { cache = Applied-refl w.cache; db = refl; clock = h w.os };
  }

  pub Reads-total_os :
      {A : Type 0} (f : O → A × O)
      → ((o : O) → v.time o ≤ v.time (f o).1)
      → Keeps Reads (total_os f)
  unfolding total_os
  Reads-total_os f h = record {
    at = λ w. record { cache = Applied-refl w.cache; db = refl; clock = h w.os };
  }

-- The parts of the state after a lifted call.
module _ {S D O A : Type 0} {r : Result A} {w t : World S D O} where
  pub on_cache_eq :
      (m : Exec S A)
      → on_cache m w ≡ (r, t)
      → (m w.cache ≡ (r, t.cache)) × (t.db ≡ w.db) × (t.os ≡ w.os)
  unfolding on_cache
  on_cache_eq m h = (cc, cc, cc)

  pub on_db_eq :
      (m : Exec D A)
      → on_db m w ≡ (r, t)
      → (m w.db ≡ (r, t.db)) × (t.cache ≡ w.cache) × (t.os ≡ w.os)
  unfolding on_db
  on_db_eq m h = (cc, cc, cc)

  pub on_os_eq :
      (m : Exec O A)
      → on_os m w ≡ (r, t)
      → (m w.os ≡ (r, t.os)) × (t.cache ≡ w.cache) × (t.db ≡ w.db)
  unfolding on_os
  on_os_eq m h = (cc, cc, cc)
