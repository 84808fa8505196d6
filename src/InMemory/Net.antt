-- ===== src/InMemory/Net.antt =====
-- The web library of the platform in memory: a fixed text for JSON, a body that is the password of
-- one account, no deadline that passes.
use Prim.Native.String.{◌++◌}
use auth_login_load_balancin.Prelude.{
  String, false, ◌==◌, List, [], ◌∷◌, Option, none, some, if◌then◌else◌,
}
use auth_login_load_balancin.Model.{LoginRequest, RegisterRequest}
use auth_login_load_balancin.InMemory.{Memory}
use auth_login_load_balancin.Http.Response.{write_header}
use auth_login_load_balancin.Http.Library.{Decoded, end_of_body, decoded, Web}

abbrev login_of : String → Decoded LoginRequest
login_of body =
    if body == "" then end_of_body else decoded (record { email = "a@b.c"; password = body })

abbrev register_of : String → Decoded RegisterRequest
register_of body =
    if body == "" then end_of_body else decoded (record { email = "New@b.c"; password = body })

-- The pattern that is the path itself.
abbrev exact : String → List String → Option String
exact path [] = none
exact path (pattern ∷ patterns) = if pattern == path then some pattern else exact path patterns

abbrev pub web : Web Memory
web = record {
  encode = λ payload. some "{}";
  decode_login = login_of;
  decode_register = register_of;
  cookie_text = λ cookie. cookie.name ++ "=" ++ cookie.value;
  split_host_port = λ addr. some addr;
  route = λ patterns r. exact r.path patterns;
  mux_answer = λ r w. write_header 404 w;
  deadline_first = λ limit w. false;
}
