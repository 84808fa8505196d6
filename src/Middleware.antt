-- ===== src/Middleware.antt =====
-- internal/middleware: Middleware and Chain, and internal/middleware/context.go. The middleware
-- itself is in the modules below.
pub mod Response
pub mod Basic
pub mod Guards
pub mod Timeout
pub mod Status
pub mod Guarded
pub mod Limited
pub mod Carried
pub mod Passed
pub mod Origins
use auth_login_load_balancin.Prelude.{String, List, [], ◌∷◌, Option}
use auth_login_load_balancin.Model.{AuthIdentity}
use auth_login_load_balancin.Http.{Request, Handler}

abbrev pub Middleware : Type 0 → Type 0
Middleware W = Handler W → Handler W

-- The first middleware is the outermost.
unfoldable pub chain : {W : Type 0} → Handler W → List (Middleware W) → Handler W
chain handler [] = handler
chain handler (m ∷ middlewares) = m (chain handler middlewares)

abbrev pub get_request_id : Request → String
get_request_id r = r.request_id

abbrev pub get_auth_identity : Request → Option AuthIdentity
get_auth_identity r = r.auth_identity
