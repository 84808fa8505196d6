-- ===== src/Service/Auth.antt =====
-- internal/service/auth_service.go. Each method is a computation over the shared state; a block
-- behind `if err != nil` is the handler of a `catch`. The proofs are in the modules below.
pub mod Refresh
pub mod Logout
pub mod Login
pub mod Register
pub mod Spending
pub mod Sequence
use auth_login_load_balancin.Prelude.{
  String, Bool, false, ◌==◌, ◌||◌, List, [], ◌∷◌, Option, none, some, if◌then◌else◌,
}
use auth_login_load_balancin.Prelude.Exec.{Exec, pure, raise, lift, catch, ◌>>=◌, ◌>>◌}
use auth_login_load_balancin.Errors.{
  Error, invalid_credentials, invalid_login_input, email_already_exists, error_text, is_no_rows,
  is_duplicate_email,
}
use auth_login_load_balancin.Go.Strings.{trim_space, to_lower}
use auth_login_load_balancin.Model.{User, Session, RequestMetadata, LoginResponse, RegisterResponse}
use auth_login_load_balancin.Platform.{Platform, World, on_os, total_os}
use auth_login_load_balancin.Repository.Clock.{current_time}
use auth_login_load_balancin.Repository.User
use auth_login_load_balancin.Repository.Session as SessionRepository
use auth_login_load_balancin.Repository.RefreshToken as RefreshTokenRepository
use auth_login_load_balancin.Service.Token as TokenService
use auth_login_load_balancin.Service.Token.{TokenConfig}
use auth_login_load_balancin.Service.Audit as AuditService

-- The fields of AuthService that can differ: the token service, and whether there is an audit
-- service.
pub record AuthConfig : Type 0 where
  pub tokens : TokenConfig
  pub audited : Bool

-- "unknown device" for a device with no name.
abbrev pub device_name_of : String → String
device_name_of name = if name == "" then "unknown device" else name

module _ {S D O : Type 0} (p : Platform S D O) (c : AuthConfig) where
  unfoldable pub log_auth_event :
      Option String
      → String
      → RequestMetadata
      → List (String × String)
      → Exec (World S D O) (Unit {0})
  log_auth_event user_id event_type metadata extra =
      if c.audited then AuditService.log_auth_event p user_id event_type metadata extra else pure tt

  abbrev pub login_failure :
      RequestMetadata → Option String → String → Error → Exec (World S D O) User
  login_failure metadata user_id email e = do
    log_auth_event user_id "login_failure" metadata
        (("email", email) ∷ ("reason", error_text e) ∷ [])
    raise e

  -- Login, up to the check of the password: the account of the credentials.
  unfoldable pub login_user : String → String → RequestMetadata → Exec (World S D O) User
  login_user email password metadata = do
    user ← catch (User.find_by_email p email) (λ e.
        if is_no_rows e then login_failure metadata none email invalid_credentials else raise e)
    catch (lift (p.lib.compare_hash_and_password user.hashed_password password) >> pure user)
        (λ e. login_failure metadata (some user.id) user.email invalid_credentials)

  -- Login, from there: the session, the two tokens and the audit entry.
  unfoldable pub open_session : User → RequestMetadata → Exec (World S D O) LoginResponse
  open_session user metadata = do
    now ← current_time p
    id ← total_os p.os.new_uuid
    let session : Session = record {
      id = id;
      user_id = user.id;
      device_name = device_name_of (trim_space metadata.device_name);
      ip_address = trim_space metadata.ip_address;
      status = "ACTIVE";
      created_at = now;
      last_used_at = now;
    }
    SessionRepository.create p session
    access ← TokenService.generate_access_token p c.tokens user.id user.email
    fresh ← TokenService.generate_refresh_token p c.tokens user.id
    RefreshTokenRepository.create p (record fresh { session_id = session.id })
    log_auth_event (some user.id) "login_success" metadata
        (("email", user.email) ∷ ("session_id", session.id) ∷ [])
    pure (record {
      message = "login successful";
      access_token = access.0;
      refresh_token = fresh.token;
      token_type = "Bearer";
      expires_in = access.1;
    })

  unfoldable pub login : String → String → RequestMetadata → Exec (World S D O) LoginResponse
  login email password metadata =
      let email = trim_space email in
      let password = trim_space password in
      if email == "" || password == ""
      then (do
        log_auth_event none "login_failure" metadata
            (("email", email) ∷ ("reason", error_text invalid_login_input) ∷ [])
        raise invalid_login_input)
      else (do user ← login_user email password metadata; open_session user metadata)

  -- Register, with an email and a password that are not empty.
  unfoldable pub register_user :
      String → String → RequestMetadata → Exec (World S D O) RegisterResponse
  register_user email password metadata = do
    password_hash ← on_os (p.os.generate_from_password password)
    now ← current_time p
    id ← total_os p.os.new_uuid
    created ←
        catch
          (User.create_user p (record {
            id = id;
            email = to_lower p.lib.lower_table email;
            hashed_password = password_hash;
            is_email_verified = false;
            created_at = now;
            updated_at = now;
          }))
          (λ e.
            if is_duplicate_email e
            then (do
              log_auth_event none "register_failure" metadata
                  (("email", email) ∷ ("reason", error_text email_already_exists) ∷ [])
              raise email_already_exists)
            else raise e)
    log_auth_event (some created.id) "register_success" metadata (("email", created.email) ∷ [])
    pure (record {
      message = "registration successful";
      user_id = created.id;
      email = created.email;
      is_email_verified = created.is_email_verified;
    })

  unfoldable pub register : String → String → RequestMetadata → Exec (World S D O) RegisterResponse
  register email password metadata =
      let email = trim_space email in
      let password = trim_space password in
      if email == "" || password == ""
      then (do
        log_auth_event none "register_failure" metadata
            (("email", email) ∷ ("reason", error_text invalid_login_input) ∷ [])
        raise invalid_login_input)
      else register_user email password metadata
