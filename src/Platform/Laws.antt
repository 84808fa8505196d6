-- ===== src/Platform/Laws.antt =====
-- What the service relies on in the servers and libraries of Platform.antt: documented behaviour,
-- stated through a view of each server's hidden state. A call may fail at any time, keys may expire
-- between any two commands, and a failed write may or may not have been applied.
use auth_login_load_balancin.Prelude.{
  ℕ, suc, ◌^◌, ◌<◌, ◌≤◌, String, ◌≡◌, ◌≢◌, ◌⊎◌, ◌↔◌, ◌==◌, Bool, true, List, [], ◌∷◌, map, Option,
  none, some, if◌then◌else◌,
}
use mathlib.Core.List.{Memᴰ}
use auth_login_load_balancin.Prelude.Exec.{ok, err}
use auth_login_load_balancin.Prelude.Exec.Fails.{Foreign}
use auth_login_load_balancin.Prelude.Int.{ℤ}
use auth_login_load_balancin.Errors.{Error, IsForeign, redis_nil, pq_error}
use auth_login_load_balancin.Model.{User, Session, AuditLog}
use auth_login_load_balancin.Platform.{
  Command, set, sadd, Redis, Postgres, Os, Libraries, RefreshTokenRecord, Platform, Claim,
}

-- What a Redis server holds now: the text of a key, and the members of a set.
pub record RedisView (S : Type 0) : Type 1 where
  pub value : S → String → Option String
  pub member : S → String → String → Type 0

-- A key keeps its text, or has expired.
abbrev pub Aged : Option String → Option String → Type 0
Aged before after = (after ≡ before) ⊎ (after ≡ none)

-- The text of a key after some commands.
abbrev pub overwritten : List Command → String → Option String → Option String
overwritten [] k old = old
overwritten (set j x d ∷ cs) k old = overwritten cs k (if j == k then some x else old)
overwritten (sadd j m ∷ cs) k old = overwritten cs k old

abbrev pub Queued : String → String → List Command → Type 0
Queued k m [] = ⊥
Queued k m (set j x d ∷ cs) = Queued k m cs
Queued k m (sadd j n ∷ cs) = ((j ≡ k) × (n ≡ m)) ⊎ Queued k m cs

-- The commands have taken effect between two states; keys may have expired meanwhile.
pub record Applied {S : Type 0} (v : RedisView S) (cs : List Command) (s t : S) : Type 0 where
  pub values : (k : String) → Aged (overwritten cs k (v.value s k)) (v.value t k)
  pub kept : (k m : String) → v.member s k m → v.member t k m
  pub added : (k m : String) → Queued k m cs → v.member t k m

pub record RedisLaws {S : Type 0} (r : Redis S) (v : RedisView S) : Type 0 where
  pub get_text :
      (k : String) (s : S) {x : String} {t : S} → r.get k s ≡ (ok x, t) → v.value s k ≡ some x
  pub get_nil : (k : String) (s : S) {t : S} → r.get k s ≡ (err redis_nil, t) → v.value t k ≡ none
  -- The driver's errors are none of the program's own.
  pub get_foreign : (k : String) → Foreign (r.get k)
  pub set_foreign : (k x : String) (d : ℤ) → Foreign (r.set k x d)
  pub exec_foreign : (cs : List Command) → Foreign (r.exec cs)
  pub smembers_foreign : (k : String) → Foreign (r.smembers k)
  pub get_reads : (k : String) (s : S) → Applied v [] s (r.get k s).1
  pub set_writes :
      (k x : String) (d : ℤ) (s : S)
      → Applied v [] s (r.set k x d s).1 ⊎ Applied v (set k x d ∷ []) s (r.set k x d s).1
  pub set_ok :
      (k x : String) (d : ℤ) (s : S) {t : S}
      → r.set k x d s ≡ (ok tt, t)
      → Applied v (set k x d ∷ []) s t × (v.value t k ≡ some x)
  -- MULTI … EXEC is atomic.
  pub exec_writes :
      (cs : List Command) (s : S) → Applied v [] s (r.exec cs s).1 ⊎ Applied v cs s (r.exec cs s).1
  pub exec_ok :
      (cs : List Command) (s : S) {t : S}
      → r.exec cs s ≡ (ok tt, t)
      → Applied v cs s t × ((k x : String) → overwritten cs k none ≡ some x → v.value t k ≡ some x)
  pub smembers_all :
      (k m : String) (s : S) {ms : List String} {t : S}
      → r.smembers k s ≡ (ok ms, t)
      → v.member s k m
      → Memᴰ m ms
  pub smembers_reads : (k : String) (s : S) → Applied v [] s (r.smembers k s).1

-- The counters that a Redis server holds, 0 for a key that is not there, and the duration that the
-- last EXPIRE of a key has set.
pub record CounterView (S : Type 0) : Type 0 where
  pub counter : S → String → ℕ
  pub window : S → String → Option ℤ

-- A counter is as before, or has expired.
abbrev pub LeftAlone : {S : Type 0} → CounterView S → S → S → String → Type 0
LeftAlone v s t k =
    ((v.counter t k ≡ v.counter s k) × (v.window t k ≡ v.window s k)) ⊎ (v.counter t k ≡ 0)

-- INCR adds one to a counter, or starts a new one where there is none or it has expired; a counter is
-- a 64-bit signed integer. A command on one key leaves the others alone, and any key may expire.
pub record CounterLaws {S : Type 0} (r : Redis S) (v : CounterView S) : Type 0 where
  pub incr_ok :
      (k : String) (s : S) {n : ℕ} {t : S}
      → r.incr k s ≡ (ok n, t)
      → ((n ≡ suc (v.counter s k)) ⊎ (n ≡ 1))
        × (n < 2 ^ 63)
        × ((v.counter t k ≡ n) ⊎ (v.counter t k ≡ 0))
        × ((j : String) → j ≢ k → LeftAlone v s t j)
  pub expire_ok :
      (k : String) (d : ℤ) (s : S) {t : S}
      → r.expire k d s ≡ (ok tt, t)
      → (((v.counter t k ≡ v.counter s k) × (v.window t k ≡ some d)) ⊎ (v.counter t k ≡ 0))
        × ((j : String) → j ≢ k → LeftAlone v s t j)
  pub ttl_reads : (k : String) (s : S) (j : String) → LeftAlone v s (r.ttl k s).1 j

-- The rows of the tables, in an order of the reader's choice.
pub record PostgresView (D : Type 0) : Type 0 where
  pub users : D → List User
  pub sessions : D → List Session
  pub audit_logs : D → List AuditLog

-- A statement on one table leaves the others alone.
pub record SameTables {D : Type 0} (v : PostgresView D) (d e : D) : Type 0 where
  pub users : v.users e ≡ v.users d
  pub sessions : v.sessions e ≡ v.sessions d
  pub audit_logs : v.audit_logs e ≡ v.audit_logs d

-- The UPDATE of the rows that pass a test.
abbrev pub updated : (Session → Bool) → (Session → Session) → List Session → List Session
updated p f = map (λ s. if p s then f s else s)

-- The row that is stored for a user: timestamps have microseconds only.
pub record StoredUser (u row : User) : Type 0 where
  pub id : row.id ≡ u.id
  pub email : row.email ≡ u.email
  pub hashed_password : row.hashed_password ≡ u.hashed_password
  pub is_email_verified : row.is_email_verified ≡ u.is_email_verified

pub record StoredSession (s row : Session) : Type 0 where
  pub id : row.id ≡ s.id
  pub user_id : row.user_id ≡ s.user_id
  pub device_name : row.device_name ≡ s.device_name
  pub ip_address : row.ip_address ≡ s.ip_address
  pub status : row.status ≡ s.status

pub record PostgresLaws {D : Type 0} (p : Postgres D) (v : PostgresView D) : Type 0 where
  pub select_users_ok :
      (test : User → Bool) (d : D) {rows : List User} {e : D}
      → p.select_users test d ≡ (ok rows, e)
      → (u : User) → Memᴰ u rows ↔ (Memᴰ u (v.users d) × (test u ≡ true))
  pub select_users_foreign : (test : User → Bool) → Foreign (p.select_users test)
  pub insert_user_foreign : (u : User) → Foreign (p.insert_user u)
  pub select_sessions_foreign : (test : Session → Bool) → Foreign (p.select_sessions test)
  pub insert_session_foreign : (s : Session) → Foreign (p.insert_session s)
  pub update_sessions_foreign :
      (test : Session → Bool) (f : Session → Session) → Foreign (p.update_sessions test f)
  pub select_users_reads : (test : User → Bool) (d : D) → SameTables v d (p.select_users test d).1
  -- UNIQUE (email)
  pub insert_user_ok :
      (u : User) (d : D) {row : User} {e : D}
      → p.insert_user u d ≡ (ok row, e)
      → StoredUser u row
        × (v.users e ≡ row ∷ v.users d)
        × (v.sessions e ≡ v.sessions d)
        × ((other : User) → Memᴰ other (v.users d) → other.email ≢ u.email)
  pub insert_user_violation :
      (u : User) (d : D) {m : String} {e : D}
      → p.insert_user u d ≡ (err (pq_error "23505" m), e)
      → SameTables v d e
  pub select_sessions_ok :
      (test : Session → Bool) (d : D) {rows : List Session} {e : D}
      → p.select_sessions test d ≡ (ok rows, e)
      → (s : Session) → Memᴰ s rows ↔ (Memᴰ s (v.sessions d) × (test s ≡ true))
  pub select_sessions_reads :
      (test : Session → Bool) (d : D) → SameTables v d (p.select_sessions test d).1
  pub select_sessions_newest_first_ok :
      (test : Session → Bool) (d : D) {rows : List Session} {e : D}
      → p.select_sessions_newest_first test d ≡ (ok rows, e)
      → (s : Session) → Memᴰ s rows ↔ (Memᴰ s (v.sessions d) × (test s ≡ true))
  pub select_sessions_newest_first_reads :
      (test : Session → Bool) (d : D) → SameTables v d (p.select_sessions_newest_first test d).1
  pub insert_session_ok :
      (s : Session) (d : D) {row : Session} {e : D}
      → p.insert_session s d ≡ (ok row, e)
      → StoredSession s row × (v.sessions e ≡ row ∷ v.sessions d) × (v.users e ≡ v.users d)
  pub update_sessions_users :
      (test : Session → Bool) (f : Session → Session) (d : D)
      → v.users (p.update_sessions test f d).1 ≡ v.users d
  pub update_sessions_ok :
      (test : Session → Bool) (f : Session → Session) (d : D) {e : D}
      → p.update_sessions test f d ≡ (ok tt, e)
      → v.sessions e ≡ updated test f (v.sessions d)
  -- A statement is atomic.
  pub update_sessions_atomic :
      (test : Session → Bool) (f : Session → Session) (d : D)
      → (v.sessions (p.update_sessions test f d).1 ≡ v.sessions d)
        ⊎ (v.sessions (p.update_sessions test f d).1 ≡ updated test f (v.sessions d))
  pub insert_audit_log_users :
      (a : AuditLog) (d : D) → v.users (p.insert_audit_log a d).1 ≡ v.users d
  pub insert_audit_log_sessions :
      (a : AuditLog) (d : D) → v.sessions (p.insert_audit_log a d).1 ≡ v.sessions d

-- The wall clock does not go back.
pub record OsLaws {O : Type 0} (os : Os O) (time : O → ℕ) : Type 0 where
  pub now_after : (o : O) → time o ≤ (os.now o).0
  pub now_before : (o : O) → (os.now o).0 ≤ time (os.now o).1
  pub new_uuid_time : (o : O) → time o ≤ time (os.new_uuid o).1
  pub rand_read_time : (n : ℕ) (o : O) → time o ≤ time (os.rand_read n o).1
  pub rand_read_foreign : (n : ℕ) → Foreign (os.rand_read n)
  pub generate_foreign : (p : String) → Foreign (os.generate_from_password p)
  pub generate_time : (p : String) (o : O) → time o ≤ time (os.generate_from_password p o).1

-- json.Unmarshal gives back what json.Marshal was given, and their errors are not the program's own.
pub record JsonLaws (lib : Libraries) : Type 0 where
  pub roundtrip :
      (r : RefreshTokenRecord) {text : String}
      → lib.marshal_record r ≡ ok text
      → lib.unmarshal_record text ≡ ok r
  pub marshal_foreign :
      (r : RefreshTokenRecord) (e : Error) → lib.marshal_record r ≡ err e → IsForeign e
  pub unmarshal_foreign :
      (text : String) (e : Error) → lib.unmarshal_record text ≡ err e → IsForeign e
  pub signed_foreign :
      (claims : List (String × Claim)) (secret : String) (e : Error)
      → lib.signed_string claims secret ≡ err e
      → IsForeign e

-- The views and the laws of one platform.
pub record Views (S D O : Type 0) : Type 1 where
  pub redis : RedisView S
  pub postgres : PostgresView D
  pub time : O → ℕ

pub record Laws {S D O : Type 0} (p : Platform S D O) (v : Views S D O) : Type 0 where
  pub redis : RedisLaws p.redis v.redis
  pub postgres : PostgresLaws p.postgres v.postgres
  pub os : OsLaws p.os v.time
  pub json : JsonLaws p.lib
