-- ===== src/InMemory/Database.antt =====
-- The three tables in memory: lists of rows, the latest first.
use mathlib.Core.List.Memᴰ
use mathlib.Core.List.{Memᴰ}
use auth_login_load_balancin.Prelude.{
  String, ◌≡◌, ◌≢◌, ◌↔◌, refl, List, [], ◌∷◌, Bool, true, false, inl, inr, ◌==◌, if◌then◌else◌,
  Bool-cases, eq_iff, ap, sym,
}
use auth_login_load_balancin.Prelude.Exec.{Result, ok, err}
use auth_login_load_balancin.Go.Strings.{to_lower}
use auth_login_load_balancin.Errors.{Error, IsForeign, pq_error}
use auth_login_load_balancin.Model.{User, Session, AuditLog}
use auth_login_load_balancin.Platform.{Postgres}
use auth_login_load_balancin.Platform.Laws.{PostgresView, PostgresLaws, SameTables, updated}

pub record Tables : Type 0 where
  pub users : List User
  pub sessions : List Session
  pub audit_logs : List AuditLog

module _ {A : Type 0} where
  abbrev pub chosen : (A → Bool) → List A → List A
  chosen test [] = []
  chosen test (x ∷ xs) = let rest = chosen test xs in if test x then x ∷ rest else rest

  in_chosen :
      (test : A → Bool) (xs : List A) (a : A) → Memᴰ a xs → test a ≡ true → Memᴰ a (chosen test xs)
  in_chosen test [] a h e = absurd (Memᴰ.not-nil h)
  in_chosen test (x ∷ xs) a h e = elim (Memᴰ.cases_cons h) [
    | inl same ↦ let passes : test x ≡ true = rw same at e in rw passes (Memᴰ.head same)
    | inr later ↦ elim (Bool-cases (test x)) [
      | inl passes ↦ rw passes (Memᴰ.tail (in_chosen test xs a later e))
      | inr fails ↦ rw fails (in_chosen test xs a later e)
    ]
  ]

  from_chosen :
      (test : A → Bool) (xs : List A) (a : A)
      → Memᴰ a (chosen test xs)
      → Memᴰ a xs × (test a ≡ true)
  from_chosen test [] a h = absurd (Memᴰ.not-nil h)
  from_chosen test (x ∷ xs) a h = elim (Bool-cases (test x)) [
    | inl passes ↦ elim (Memᴰ.cases_cons (rw passes at h)) [
      | inl same ↦ (Memᴰ.head same, rw same passes)
      | inr later ↦ let (at, e) = from_chosen test xs a later in (Memᴰ.tail at, e)
    ]
    | inr fails ↦ let (at, e) = from_chosen test xs a (rw fails at h) in (Memᴰ.tail at, e)
  ]

  chosen_iff :
      (test : A → Bool) (xs : List A) (a : A)
      → Memᴰ a (chosen test xs) ↔ (Memᴰ a xs × (test a ≡ true))
  chosen_iff test xs a = (from_chosen test xs a, λ h. in_chosen test xs a h.0 h.1)

abbrev taken : String → List User → Bool
taken email [] = false
taken email (u ∷ us) = let rest = taken email us in if u.email == email then true else rest

taken-false :
    (email : String) (us : List User)
    → taken email us ≡ false
    → (u : User) → Memᴰ u us
    → u.email ≢ email
taken-false email [] h u at = absurd (Memᴰ.not-nil at)
taken-false email (x ∷ us) h u at = elim (Bool-cases (x.email == email)) [
  | inl same ↦ absurd (cc (rw same at h))
  | inr differ ↦ elim (Memᴰ.cases_cons at) [
    | inl is ↦ λ q. cc (differ, (eq_iff x.email email).1 (rw is at q))
    | inr later ↦ taken-false email us (rw differ at h) u later
  ]
]

abbrev add_user : Bool → User → Tables → Result User × Tables
add_user true u d = (err (pq_error "23505" "duplicate key value violates unique constraint"), d)
add_user false u d = (ok u, record d { users = u ∷ d.users })

abbrev pub postgres : Postgres Tables
postgres = record {
  uuid_in = λ text. ok (to_lower (λ c. c) text);
  select_users = λ test d. (ok (chosen test d.users), d);
  insert_user = λ u d. add_user (taken u.email d.users) u d;
  select_sessions = λ test d. (ok (chosen test d.sessions), d);
  select_sessions_newest_first = λ test d. (ok (chosen test d.sessions), d);
  insert_session = λ s d. (ok s, record d { sessions = s ∷ d.sessions });
  update_sessions = λ test f d. (ok tt, record d { sessions = updated test f d.sessions });
  insert_audit_log = λ a d. (ok tt, record d { audit_logs = a ∷ d.audit_logs });
}

abbrev pub view : PostgresView Tables
view = record { users = λ d. d.users; sessions = λ d. d.sessions; audit_logs = λ d. d.audit_logs }

SameTables-refl : (d : Tables) → SameTables view d d
SameTables-refl d = record { users = refl; sessions = refl; audit_logs = refl }

add_user-IsForeign :
    (b : Bool) (u : User) (d : Tables) {e : Error} {t : Tables}
    → add_user b u d ≡ (err e, t)
    → IsForeign e
add_user-IsForeign true u d {e} h =
    let same : pq_error "23505" "duplicate key value violates unique constraint" ≡ e = cc in
    rw (← same) refl
add_user-IsForeign false u d h = absurd cc

add_user-violation :
    (b : Bool) (u : User) (d : Tables) {e : Error} {t : Tables}
    → add_user b u d ≡ (err e, t)
    → SameTables view d t
add_user-violation true u d h = rw (← (ap (λ q. q.1) h)) (SameTables-refl d)
add_user-violation false u d h = absurd cc

add_user-ok :
    (b : Bool) (u : User) (d : Tables) {row : User} {t : Tables}
    → add_user b u d ≡ (ok row, t)
    → (b ≡ false) × (row ≡ u) × (t ≡ record d { users = u ∷ d.users })
add_user-ok true u d h = absurd cc
add_user-ok false u d h = (refl, cc, sym (ap (λ q. q.1) h))

chosen_rows :
    {A : Type 0} (test : A → Bool) {xs rows : List A}
    → ok (chosen test xs) ≡ ok rows
    → (a : A) → Memᴰ a rows ↔ (Memᴰ a xs × (test a ≡ true))
chosen_rows test {xs} {rows} h a =
    let same : chosen test xs ≡ rows = cc in rw (← same) (chosen_iff test xs a)

pub laws : PostgresLaws postgres view
laws = record {
  select_users_ok = λ test d {rows} {e} h. chosen_rows test (ap (λ q. q.0) h);
  select_users_foreign = λ test. record { at = λ s e t h. absurd cc };
  insert_user_foreign =
      λ u. record { at = λ d e t h. add_user-IsForeign (taken u.email d.users) u d h };
  select_sessions_foreign = λ test. record { at = λ s e t h. absurd cc };
  insert_session_foreign = λ s. record { at = λ d e t h. absurd cc };
  update_sessions_foreign = λ test f. record { at = λ d e t h. absurd cc };
  select_users_reads = λ test d. SameTables-refl d;
  insert_user_ok = λ u d {row} {e} h.
      let (free, is, after) = add_user-ok (taken u.email d.users) u d h in
      rw (is, after)
        (
          record { id = refl; email = refl; hashed_password = refl; is_email_verified = refl },
          refl,
          refl,
          taken-false u.email d.users free,
        );
  insert_user_violation = λ u d {m} {e} h. add_user-violation (taken u.email d.users) u d h;
  select_sessions_ok = λ test d {rows} {e} h. chosen_rows test (ap (λ q. q.0) h);
  select_sessions_reads = λ test d. SameTables-refl d;
  select_sessions_newest_first_ok = λ test d {rows} {e} h. chosen_rows test (ap (λ q. q.0) h);
  select_sessions_newest_first_reads = λ test d. SameTables-refl d;
  insert_session_ok = λ s d {row} {e} h.
      let is : s ≡ row = cc in
      rw (← (ap (λ q. q.1) h), ← is)
        (
          record {
            id = refl;
            user_id = refl;
            device_name = refl;
            ip_address = refl;
            status = refl;
          },
          refl,
          refl,
        );
  update_sessions_users = λ test f d. refl;
  update_sessions_ok = λ test f d {e} h. rw (← (ap (λ q. q.1) h)) refl;
  update_sessions_atomic = λ test f d. inr refl;
  insert_audit_log_users = λ a d. refl;
  insert_audit_log_sessions = λ a d. refl;
}
