-- ===== src/Platform.antt =====
-- What the service calls and the repository does not hold: the Redis and PostgreSQL servers behind
-- their drivers, the operating system's clock and entropy, github.com/google/uuid, bcrypt,
-- github.com/golang-jwt/jwt/v5, encoding/json and Go's Unicode tables. All of it is a parameter of
-- the model. The laws that are asked of it are in Platform/Laws.antt.
pub mod Laws
pub mod Reads
pub mod Quiet
use Prim.Native.Char.{Char}
use auth_login_load_balancin.Prelude.{ℕ, String, Bool, List, Option}
use auth_login_load_balancin.Prelude.Exec.{Result, ok, Exec}
use auth_login_load_balancin.Prelude.Int.{ℤ}
use auth_login_load_balancin.Model.{User, Session, AuditLog}

-- A command that a transaction pipeline queues.
pub data Command : Type 0 where
  set : (key value : String) (ttl : ℤ) → Command
  sadd : (key member : String) → Command

-- *redis.Client. `get` answers `redis.Nil` for a key that is not there; `exec` is MULTI … EXEC.
pub record Redis (S : Type 0) : Type 0 where
  pub get : String → Exec S String
  pub set : (key value : String) (ttl : ℤ) → Exec S (Unit {0})
  pub exec : List Command → Exec S (Unit {0})
  pub smembers : String → Exec S (List String)
  pub incr : String → Exec S ℕ
  pub expire : (key : String) (ttl : ℤ) → Exec S (Unit {0})
  pub ttl : String → Exec S ℤ

-- *sql.DB for the three tables of db/schema.sql. A WHERE clause is its test of a row, a SET clause
-- its change of a row. `select_*` returns the rows, `insert_*` the row that RETURNING reads back.
-- `uuid_in` is the server's reading of a text as a UUID: the canonical text of the UUID, or an error.
pub record Postgres (D : Type 0) : Type 0 where
  pub uuid_in : String → Result String
  pub select_users : (User → Bool) → Exec D (List User)
  pub insert_user : User → Exec D User
  pub select_sessions : (Session → Bool) → Exec D (List Session)
  pub select_sessions_newest_first : (Session → Bool) → Exec D (List Session)
  pub insert_session : Session → Exec D Session
  pub update_sessions : (Session → Bool) → (Session → Session) → Exec D (Unit {0})
  pub insert_audit_log : AuditLog → Exec D (Unit {0})

-- time.Now, uuid.NewString and crypto/rand.Read behind base64.RawURLEncoding.
pub record Os (O : Type 0) : Type 0 where
  pub now : O → ℕ × O
  pub new_uuid : O → String × O
  pub rand_read : ℕ → Exec O (List ℕ)
  pub generate_from_password : String → Exec O String

-- A value in a jwt.MapClaims.
pub data Claim : Type 0 where
  text : String → Claim
  texts : List String → Claim
  number : ℕ → Claim
  other : Claim

-- The `Method` of a token that is being parsed.
pub data SigningMethod : Type 0 where
  hmac : String → SigningMethod
  another_method : String → SigningMethod

-- *jwt.Token after a parse; `none` where its claims are no jwt.MapClaims.
pub record ParsedToken : Type 0 where
  pub valid : Bool
  pub claims : Option (List (String × Claim))

-- The options that `jwt.Parse` is given; the leeway is in nanoseconds.
pub record ParseOptions : Type 0 where
  pub valid_methods : List String
  pub issuer : String
  pub audience : String
  pub leeway : ℕ

-- refreshTokenRecord of internal/repository/refresh_token_repository.go.
pub record RefreshTokenRecord : Type 0 where
  pub user_id : String
  pub session_id : String
  pub status : String
  pub created_at : ℕ
  pub expires_at : ℕ

-- The functions among the libraries that keep no state. A time enters `jwt_parse` as an argument.
pub record Libraries : Type 0 where
  pub marshal_record : RefreshTokenRecord → Result String
  pub unmarshal_record : String → Result RefreshTokenRecord
  pub marshal_extra : List (String × String) → Result String
  pub raw_url_encode : List ℕ → String
  pub compare_hash_and_password : (hash password : String) → Result (Unit {0})
  pub signed_string : List (String × Claim) → (secret : String) → Result String
  pub jwt_parse :
      (now : ℕ) (token : String) (keyfunc : SigningMethod → Result String) (options : ParseOptions)
      → Result ParsedToken
  pub lower_table : Char → Char
  pub upper_table : Char → Char
  pub fold_table : Char → Char

pub record Platform (S D O : Type 0) : Type 0 where
  pub redis : Redis S
  pub postgres : Postgres D
  pub os : Os O
  pub lib : Libraries

-- The state outside a process: all application instances share it.
pub record World (S D O : Type 0) : Type 0 where
  pub cache : S
  pub db : D
  pub os : O

module _ {S D O A : Type 0} where
  unfoldable pub on_cache : Exec S A → Exec (World S D O) A
  on_cache m w = let (r, s) = m w.cache in (r, record w { cache = s })

  unfoldable pub on_db : Exec D A → Exec (World S D O) A
  on_db m w = let (r, d) = m w.db in (r, record w { db = d })

  unfoldable pub on_os : Exec O A → Exec (World S D O) A
  on_os m w = let (r, o) = m w.os in (r, record w { os = o })

  -- A call that cannot fail.
  unfoldable pub total_os : (O → A × O) → Exec (World S D O) A
  total_os f w = let (a, o) = f w.os in (ok a, record w { os = o })
