-- ===== src/Handler/Routes/Written.antt =====
-- The handlers of the routes keep the status of a reply one that net/http accepts.
use auth_login_load_balancin.Prelude.{String, Option, none, some, arith}
use auth_login_load_balancin.Errors.{Error}
use auth_login_load_balancin.Platform.{Platform, World}
use auth_login_load_balancin.Http.{Request}
use auth_login_load_balancin.Http.Library.{Web, Decoded, end_of_body, malformed, decoded}
use auth_login_load_balancin.Handler.{HandlerConfig}
use auth_login_load_balancin.Handler.Accounts.{
  register_status, login_status, handle_root, handle_health, handle_me, register_with,
  register_decoded, handle_register, login_with, login_decoded, handle_login,
}
use auth_login_load_balancin.Handler.Tokens.{
  refresh_status, revoke_session_status, refresh_with, handle_refresh, handle_logout,
  handle_logout_all, handle_sessions, revoke_session_of, handle_session_by_id,
}
use auth_login_load_balancin.Handler.Routes.Sends.{
  Sends, IsStatus, write_json-Sends, write_error-Sends, only-Sends, with_identity-Sends,
  respond-Sends, attend-Sends, if-Sends, then-Sends, set_refresh_token_cookie-Sends,
  clear_refresh_token_cookie-Sends,
}

register_status-IsStatus : (e : Error) → IsStatus (register_status e)
unfolding register_status
register_status-IsStatus Error.invalid_login_input = (omega arith, omega arith)
register_status-IsStatus Error.email_already_exists = (omega arith, omega arith)
register_status-IsStatus _ = (omega arith, omega arith)

login_status-IsStatus : (e : Error) → IsStatus (login_status e)
unfolding login_status
login_status-IsStatus Error.invalid_login_input = (omega arith, omega arith)
login_status-IsStatus Error.invalid_credentials = (omega arith, omega arith)
login_status-IsStatus _ = (omega arith, omega arith)

refresh_status-IsStatus : (e : Error) → IsStatus (refresh_status e)
unfolding refresh_status
refresh_status-IsStatus Error.invalid_refresh_token = (omega arith, omega arith)
refresh_status-IsStatus Error.refresh_token_reuse_detected = (omega arith, omega arith)
refresh_status-IsStatus _ = (omega arith, omega arith)

revoke_session_status-IsStatus : (e : Error) → IsStatus (revoke_session_status e)
unfolding revoke_session_status
revoke_session_status-IsStatus Error.invalid_refresh_token = (omega arith, omega arith)
revoke_session_status-IsStatus _ = (omega arith, omega arith)

-- The statuses that the handlers write as constants.
pub fixed :
    (IsStatus 200 × IsStatus 201 × IsStatus 400 × IsStatus 401)
    × (IsStatus 404 × IsStatus 429 × IsStatus 500)
fixed = (
  (
    (omega arith, omega arith),
    (omega arith, omega arith),
    (omega arith, omega arith),
    (omega arith, omega arith),
  ),
  ((omega arith, omega arith), (omega arith, omega arith), (omega arith, omega arith)),
)

module _ {S D O : Type 0} (p : Platform S D O) (web : Web (World S D O)) (h : HandlerConfig) where
  pub handle_root-Sends : (r : Request) → Sends (handle_root p web h r)
  unfolding handle_root
  handle_root-Sends = only-Sends web _ _ (λ r. write_json-Sends web 200 _ fixed.0.0)

  pub handle_health-Sends : (r : Request) → Sends (handle_health p web h r)
  unfolding handle_health
  handle_health-Sends = only-Sends web _ _ (λ r. attend-Sends _ _ (λ o.
      respond-Sends web _ _ o (λ status. write_json-Sends web 200 _ fixed.0.0)
        (λ e. record { at = λ a s. s })))

  pub handle_me-Sends : (r : Request) → Sends (handle_me p web h r)
  unfolding handle_me
  handle_me-Sends =
      only-Sends web _ _
        (λ r. with_identity-Sends web r _ _ (λ i. write_json-Sends web 200 _ fixed.0.0))

  register_decoded-Sends :
      (r : Request) (body : Decoded _) → Sends (register_decoded p web h r body)
  unfolding register_with
  register_decoded-Sends r end_of_body = record {
    at = (write_error-Sends web r 400 _ _ fixed.0.2).at;
  }
  register_decoded-Sends r malformed = record {
    at = (write_error-Sends web r 400 _ _ fixed.0.2).at;
  }
  register_decoded-Sends r (decoded request) =
      if-Sends _ _ _ (write_error-Sends web r 400 _ _ fixed.0.2) (
        attend-Sends _ _ (λ o.
          respond-Sends web _ _ o (λ response. write_json-Sends web 201 _ fixed.0.1)
            (λ e. write_error-Sends web r _ _ _ (register_status-IsStatus e))))

  pub handle_register-Sends : (r : Request) → Sends (handle_register p web h r)
  unfolding handle_register
  handle_register-Sends = only-Sends web _ _ (λ r. register_decoded-Sends r _)

  login_decoded-Sends : (r : Request) (body : Decoded _) → Sends (login_decoded p web h r body)
  unfolding login_with
  login_decoded-Sends r end_of_body = record { at = (write_error-Sends web r 400 _ _ fixed.0.2).at }
  login_decoded-Sends r malformed = record { at = (write_error-Sends web r 400 _ _ fixed.0.2).at }
  login_decoded-Sends r (decoded request) =
      if-Sends _ _ _ (write_error-Sends web r 400 _ _ fixed.0.2) (
        attend-Sends _ _ (λ o.
          respond-Sends web _ _ o
            (λ response.
              then-Sends _ _ (set_refresh_token_cookie-Sends p web h.config _)
                (write_json-Sends web 200 _ fixed.0.0))
            (λ e. write_error-Sends web r _ _ _ (login_status-IsStatus e))))

  pub handle_login-Sends : (r : Request) → Sends (handle_login p web h r)
  unfolding handle_login
  handle_login-Sends = only-Sends web _ _ (λ r. login_decoded-Sends r _)

  refresh_with-Sends : (r : Request) (o : Option String) → Sends (refresh_with p web h r o)
  refresh_with-Sends r none = write_error-Sends web r 401 _ _ fixed.0.3
  refresh_with-Sends r (some token) = attend-Sends _ _ (λ o.
      respond-Sends web _ _ o
        (λ response.
          then-Sends _ _ (set_refresh_token_cookie-Sends p web h.config _)
            (write_json-Sends web 200 _ fixed.0.0))
        (λ e. write_error-Sends web r _ _ _ (refresh_status-IsStatus e)))

  pub handle_refresh-Sends : (r : Request) → Sends (handle_refresh p web h r)
  unfolding handle_refresh
  handle_refresh-Sends = only-Sends web _ _ (λ r. refresh_with-Sends r _)

  pub handle_logout-Sends : (r : Request) → Sends (handle_logout p web h r)
  unfolding handle_logout
  handle_logout-Sends = only-Sends web _ _ (λ r. attend-Sends _ _ (λ o.
      respond-Sends web _ _ o
        (λ response.
          then-Sends _ _ (clear_refresh_token_cookie-Sends p web h.config)
            (write_json-Sends web 200 _ fixed.0.0))
        (λ e. write_error-Sends web r 500 _ _ fixed.1.2)))

  pub handle_logout_all-Sends : (r : Request) → Sends (handle_logout_all p web h r)
  unfolding handle_logout_all
  handle_logout_all-Sends = only-Sends web _ _ (λ r. with_identity-Sends web r _ _ (λ i.
      attend-Sends _ _ (λ o.
        respond-Sends web _ _ o
          (λ response.
            then-Sends _ _ (clear_refresh_token_cookie-Sends p web h.config)
              (write_json-Sends web 200 _ fixed.0.0))
          (λ e. write_error-Sends web r 500 _ _ fixed.1.2))))

  pub handle_sessions-Sends : (r : Request) → Sends (handle_sessions p web h r)
  unfolding handle_sessions
  handle_sessions-Sends = only-Sends web _ _ (λ r. with_identity-Sends web r _ _ (λ i.
      attend-Sends _ _ (λ o.
        respond-Sends web _ _ o (λ response. write_json-Sends web 200 _ fixed.0.0)
          (λ e. write_error-Sends web r 500 _ _ fixed.1.2))))

  revoke_session_of-Sends :
      (r : Request) (user_id session_id : String)
      → Sends (revoke_session_of p web h r user_id session_id)
  unfolding revoke_session_of
  revoke_session_of-Sends r user_id session_id =
      if-Sends _ _ _ (write_error-Sends web r 400 _ _ fixed.0.2) (
        attend-Sends _ _ (λ o.
          respond-Sends web _ _ o (λ response. write_json-Sends web 200 _ fixed.0.0)
            (λ e. write_error-Sends web r _ _ _ (revoke_session_status-IsStatus e))))

  pub handle_session_by_id-Sends : (r : Request) → Sends (handle_session_by_id p web h r)
  unfolding handle_session_by_id
  handle_session_by_id-Sends =
      only-Sends web _ _
        (λ r. with_identity-Sends web r _ _ (λ i. revoke_session_of-Sends r i.user_id _))
