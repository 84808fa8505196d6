-- ===== src/Middleware/Basic.antt =====
-- RequestID, InstanceHeader, SecurityHeaders, CORS, RequestLogger and Recoverer of
-- internal/middleware/middleware.go.
use auth_login_load_balancin.Prelude.{
  String, Bool, true, false, ◌==◌, ◌||◌, List, [], ◌∷◌, ◌++◌, none, some, Option, if◌then◌else◌,
  is_empty,
}
use auth_login_load_balancin.Prelude.Exec.{Result, ok, err}
use auth_login_load_balancin.Go.Strings.{trim_space}
use auth_login_load_balancin.Go.Strings.Split.{join, has_prefix}
use auth_login_load_balancin.Go.Strings.Fold.{equal_fold}
use auth_login_load_balancin.Platform.{Platform, World, Libraries, total_os}
use auth_login_load_balancin.Http.{Request, Reply, Handler, LogEntry, on_writer, set_header, attend}
use auth_login_load_balancin.Http.Headers
use auth_login_load_balancin.Http.Response.{write_header}
use auth_login_load_balancin.Http.Library.{Web}
use auth_login_load_balancin.Middleware.{Middleware, get_request_id}
use auth_login_load_balancin.Middleware.Response.{write_error}

unfoldable pub is_origin_allowed : Libraries → String → List String → Bool
is_origin_allowed lib origin [] = false
is_origin_allowed lib origin (allowed ∷ rest) =
    let others = is_origin_allowed lib origin rest in
    if allowed == "*" || equal_fold lib.fold_table origin allowed then true else others

module _ {W : Type 0} where
  -- Where a handler ends: what the deferred function or the log line makes of a panic.
  abbrev pub recovered : Option String → (Reply W → Reply W) → Reply W → Reply W
  recovered none write a = a
  recovered (some reason) write a = write (record a { panic = none })

  abbrev pub logged : Option String → LogEntry → Reply W → Reply W
  logged none entry a = record a { log = a.log ++ entry ∷ [] }
  logged (some reason) entry a = a

  -- The rest of RequestID, with the identifier.
  abbrev pub identified : Handler W → Request → String → Reply W → Reply W
  identified next r request_id a =
      next (record r { request_id = request_id }) (set_header "X-Request-ID" request_id a)

  abbrev pub with_new_id : Handler W → Request → Result String → Reply W → Reply W
  with_new_id next r (ok new_id) a = identified next r new_id a
  with_new_id next r (err e) a = a

  unfoldable pub instance_header : String → Middleware W
  instance_header instance_name next r a = next r (set_header "X-App-Instance" instance_name a)

  abbrev pub no_store : Request → Reply W → Reply W
  no_store r a = if has_prefix r.path "/auth/" then set_header "Cache-Control" "no-store" a else a

  unfoldable pub security_headers : Middleware W
  security_headers next r a = next r (
      no_store r (
        set_header "X-XSS-Protection" "0" (
          set_header "Referrer-Policy" "no-referrer" (
            set_header "X-Frame-Options" "DENY"
              (set_header "X-Content-Type-Options" "nosniff" a)))))

  -- The recorder starts at 200. A handler that panics is not logged.
  unfoldable pub request_logger : Middleware W
  request_logger next r a =
      let b = next r (on_writer (λ w. record w { recorded = 200 }) a) in
      logged b.panic
        (record {
          request_id = get_request_id r;
          method = r.method;
          path = r.path;
          remote_addr = r.remote_addr;
          status_code = b.writer.recorded;
        })
        b

module _ {W : Type 0} (web : Web W) where
  unfoldable pub recoverer : Middleware W
  recoverer next r a =
      let b = next r a in
      recovered b.panic (write_error web r 500 "internal_server_error" "internal server error") b

  -- The headers for an origin that is allowed.
  unfoldable pub allow_origin : String → List String → List String → Bool → Reply W → Reply W
  allow_origin origin methods headers credentials a =
      let b = set_header "Access-Control-Allow-Headers" (join headers ", ") (
        set_header "Access-Control-Allow-Methods" (join methods ", ")
          (set_header "Vary" "Origin" (set_header "Access-Control-Allow-Origin" origin a))) in
      if credentials then set_header "Access-Control-Allow-Credentials" "true" b else b

  unfoldable pub cors : Libraries → List String → List String → List String → Bool → Middleware W
  cors lib allowed_origins allowed_methods allowed_headers allow_credentials next r a =
      let origin = trim_space (Headers.get "Origin" r.header) in
      if origin == "" || is_empty allowed_origins
      then next r a
      else if is_origin_allowed lib origin allowed_origins
      then (let b = allow_origin origin allowed_methods allowed_headers allow_credentials a in
          if r.method == "OPTIONS" then on_writer (write_header 204) b else next r b)
      else if r.method == "OPTIONS"
      then write_error web r 403 "cors_origin_denied" "origin is not allowed" a
      else next r a

module _ {S D O : Type 0} (p : Platform S D O) where
  unfoldable pub request_id : Middleware (World S D O)
  request_id next r a =
      let id = trim_space (Headers.get "X-Request-ID" r.header) in
      if id == ""
      then attend (total_os p.os.new_uuid) (with_new_id next r) a
      else identified next r id a
