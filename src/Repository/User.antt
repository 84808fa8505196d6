-- ===== src/Repository/User.antt =====
-- internal/repository/user_repository.go: the users table.
pub mod Found
use auth_login_load_balancin.Prelude.{String, ◌==◌, List, [], ◌∷◌, if◌then◌else◌, Bool, false}
use auth_login_load_balancin.Prelude.Exec.{Exec, pure, raise, catch, ◌>>=◌}
use auth_login_load_balancin.Errors.{Error, no_rows, duplicate_email, pq_error}
use auth_login_load_balancin.Go.Strings.{trim_space, to_lower}
use auth_login_load_balancin.Model.{User}
use auth_login_load_balancin.Platform.{Platform, World, on_db}

-- errors.As(err, &pqError) && pqError.Code == "23505"
abbrev pub is_unique_violation : Error → Bool
is_unique_violation (pq_error code message) = code == "23505"
is_unique_violation _ = false

module _ {S D O : Type 0} (p : Platform S D O) where
  -- `QueryRow(…).Scan(…)`: the first row, or sql.ErrNoRows.
  abbrev pub first_user : List User → Exec (World S D O) User
  first_user [] = raise no_rows
  first_user (u ∷ us) = pure u

  -- strings.ToLower(strings.TrimSpace(email))
  abbrev pub normalized_email : String → String
  normalized_email email = to_lower p.lib.lower_table (trim_space email)

  -- SELECT … FROM users WHERE email = $1
  unfoldable pub find_by_email : String → Exec (World S D O) User
  find_by_email email = do
    rows ← on_db (p.postgres.select_users (λ u. u.email == normalized_email email))
    first_user rows

  -- SELECT … FROM users WHERE id = $1
  unfoldable pub find_by_id : String → Exec (World S D O) User
  find_by_id id = do rows ← on_db (p.postgres.select_users (λ u. u.id == id)); first_user rows

  abbrev pub duplicate_of_violation : Error → Exec (World S D O) User
  duplicate_of_violation e = if is_unique_violation e then raise duplicate_email else raise e

  -- INSERT INTO users … RETURNING …
  unfoldable pub create_user : User → Exec (World S D O) User
  create_user user =
      catch (on_db (p.postgres.insert_user (record user { email = normalized_email user.email })))
        duplicate_of_violation
