-- ===== src/Http/Response.antt =====
-- http.ResponseWriter: what a handler has written of its response.
use Prim.Native.String.{◌++◌}
use auth_login_load_balancin.Prelude.{ℕ, String, Bool, ◌&&◌, ◌||◌, [], nat_eq, ltb, if◌then◌else◌}
use auth_login_load_balancin.Http.Headers.{Header}

-- A writer of a response: its headers, the status (0 before it is written), the headers that were
-- sent with the status, the body, and the status that a recorder around the writer has seen.
pub record Writer : Type 0 where
  pub header : Header
  pub status : ℕ
  pub sent : Header
  pub body : String
  pub recorded : ℕ

abbrev pub new_writer : Writer
new_writer = record { header = []; status = 0; sent = []; body = ""; recorded = 200 }

-- The codes that net/http panics on, where no status is written yet.
abbrev pub is_refused : ℕ → Writer → Bool
is_refused code w = nat_eq w.status 0 && (ltb code 100 || ltb 999 code)

-- WriteHeader: only the first call counts. A recorder sees every call. The buffer of Timeout accepts
-- any code, and net/http those that are not refused; a code that is no constant reaches net/http in
-- Timeout alone, which has the panic.
unfoldable pub write_header : ℕ → Writer → Writer
write_header code w =
    if nat_eq w.status 0
    then (record w { status = code; sent = w.header; recorded = code })
    else (record w { recorded = code })

-- Write, which sends the status 200 where none has been.
unfoldable pub write : String → Writer → Writer
write text w =
    if nat_eq w.status 0
    then (record w { status = 200; sent = w.header; body = w.body ++ text })
    else (record w { body = w.body ++ text })
