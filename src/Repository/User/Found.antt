-- ===== src/Repository/User/Found.antt =====
-- What a look-up of a user reports: a row of the table with the key that was asked for.
use mathlib.Core.List.{Memᴰ}
use auth_login_load_balancin.Prelude.{String, ◌≡◌, true, Bool, List, [], ◌∷◌, eq_iff}
use auth_login_load_balancin.Prelude.Exec.{ok, ran, >>=-eq-ok, pure-eq-ok, raise-ne-ok}
use auth_login_load_balancin.Model.{User}
use auth_login_load_balancin.Platform.{Platform, World, on_db}
use auth_login_load_balancin.Platform.Laws.{Views, Laws}
use auth_login_load_balancin.Platform.Reads.{on_db_eq}
use auth_login_load_balancin.Repository.User.{
  first_user, find_by_id, find_by_email, normalized_email,
}

module _ {S D O : Type 0} (p : Platform S D O) where
  first_user-Memᴰ :
      (us : List User) (w : World S D O) {u : User} {t : World S D O}
      → first_user p us w ≡ (ok u, t)
      → Memᴰ u us
  first_user-Memᴰ [] w h = absurd (raise-ne-ok _ w h)
  first_user-Memᴰ (x ∷ us) w h = let (same, _) = pure-eq-ok _ w h in Memᴰ.head (cc same)

  module _ (v : Views S D O) (l : Laws p v) where
    select_found :
        (test : User → Bool) (rows : List User) (w t₁ : World S D O) {u : User} {t : World S D O}
        → on_db (p.postgres.select_users test) w ≡ (ok rows, t₁)
        → first_user p rows t₁ ≡ (ok u, t)
        → Memᴰ u (v.postgres.users w.db) × (test u ≡ true)
    select_found test rows w t₁ {u} selects first =
        (l.postgres.select_users_ok test _ (on_db_eq _ selects).0 u).0
          (first_user-Memᴰ rows t₁ first)

    pub find_by_id-eq-ok :
        (id : String) (w : World S D O) {u : User} {t : World S D O}
        → find_by_id p id w ≡ (ok u, t)
        → Memᴰ u (v.postgres.users w.db) × (u.id ≡ id)
    unfolding find_by_id
    find_by_id-eq-ok id w {u} h = elim (>>=-eq-ok _ _ w h) [
      | ran rows t₁ selects first ↦
          let (at, passes) = select_found _ rows w t₁ selects first in
          (at, (eq_iff u.id id).0 passes)
    ]

    -- A user that FindByEmail returns is a row of the table whose email is the given one, trimmed and
    -- in lower case.
    pub find_by_email-eq-ok :
        (email : String) (w : World S D O) {u : User} {t : World S D O}
        → find_by_email p email w ≡ (ok u, t)
        → Memᴰ u (v.postgres.users w.db) × (u.email ≡ normalized_email p email)
    unfolding find_by_email
    find_by_email-eq-ok email w {u} h = elim (>>=-eq-ok _ _ w h) [
      | ran rows t₁ selects first ↦
          let (at, passes) = select_found _ rows w t₁ selects first in
          (at, (eq_iff u.email _).0 passes)
    ]
