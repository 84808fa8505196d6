-- ===== src/Middleware/Timeout.antt =====
-- Timeout and copyHeader of internal/middleware/middleware.go. The inner handler writes to a buffer;
-- `select` takes what it has written, or answers that the time is up, and the handler's changes
-- outside the process stay either way.
use auth_login_load_balancin.Prelude.{
  String, List, [], ◌∷◌, Option, none, some, nat_eq, if◌then◌else◌,
}
use auth_login_load_balancin.Prelude.Int.{ℤ}
use auth_login_load_balancin.Http.{Request, Reply}
use auth_login_load_balancin.Http.Headers
use auth_login_load_balancin.Http.Headers.{Header}
use auth_login_load_balancin.Http.Response.{Writer, new_writer, is_refused, write_header, write}
use auth_login_load_balancin.Http.Library.{Web}
use auth_login_load_balancin.Middleware.{Middleware}
use auth_login_load_balancin.Middleware.Response.{write_error}

abbrev pub add_values : String → List String → Header → Header
add_values key [] dst = dst
add_values key (value ∷ values) dst = add_values key values (Headers.add key value dst)

unfoldable pub copy_header : Header → Header → Header
copy_header dst [] = dst
copy_header dst ((key, values) ∷ src) = copy_header (add_values key values dst) src

-- The buffered response, written out. net/http panics on a status that is none, and the body is not
-- written then.
unfoldable pub release : {W : Type 0} → Writer → Reply W → Reply W
release buffered a =
    let status = if nat_eq buffered.status 0 then 200 else buffered.status in
    let w = record a.writer { header = copy_header a.writer.header buffered.header } in
    if is_refused status w
    then (record a {
      writer = record w { recorded = status };
      panic = some "invalid WriteHeader code";
    })
    else (record a { writer = write buffered.body (write_header status w) })

module _ {W : Type 0} (web : Web W) where
  -- A panic in the handler's goroutine ends the process; nothing is written.
  abbrev pub settled : ℤ → Request → Writer → Reply W → Option String → Reply W
  settled limit r w b (some reason) = record b { writer = w }
  settled limit r w b none =
      if web.deadline_first limit b.world
      then write_error web r 504 "request_timeout" "request timed out" (record b { writer = w })
      else release b.writer (record b { writer = w })

  unfoldable pub timeout : ℤ → Middleware W
  timeout limit next r a =
      let b = next r (record a { writer = new_writer }) in settled limit r a.writer b b.panic
