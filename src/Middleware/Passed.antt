-- ===== src/Middleware/Passed.antt =====
-- The middleware that passes headers on, and the responses that it ends with.
use auth_login_load_balancin.Prelude.{
  ℕ, ◌<◌, ◌≤◌, ◌⊎◌, nat_eq, if◌then◌else◌, String, ◌≡◌, refl, Bool, false, ◌==◌, ◌||◌, List, Option,
  none, some, arith, inl, inr, Bool-cases, is_empty,
}
use auth_login_load_balancin.Prelude.Int.{ℤ}
use auth_login_load_balancin.Go.Strings.{trim_space}
use auth_login_load_balancin.Platform.{Libraries}
use auth_login_load_balancin.Http.{Request, Reply, Handler, LogEntry}
use auth_login_load_balancin.Http.Headers
use auth_login_load_balancin.Http.Headers.{canonical}
use auth_login_load_balancin.Http.Response.{Writer, new_writer, is_refused, write_header, write}
use auth_login_load_balancin.Http.Library.{Web}
use auth_login_load_balancin.Middleware.Response.{write_encoded, write_json, write_error}
use auth_login_load_balancin.Middleware.Timeout.{copy_header, release, settled, timeout}
use auth_login_load_balancin.Middleware.Basic.{
  recovered, logged, recoverer, request_logger, is_origin_allowed, allow_origin, cors,
}
use auth_login_load_balancin.Middleware.Status.{write_header-pos, write-pos, write_encoded-pos}
use auth_login_load_balancin.Middleware.Carried.{
  Carries, write_header-Carries, set-Carries, write_encoded-Carries, release-Carries,
}

-- The header is none of those that the inner middleware sets.
abbrev pub Outer : String → Type 0
Outer key =
    ((canonical "Content-Type" == key) ≡ false)
    × ((canonical "Access-Control-Allow-Origin" == key) ≡ false)
    × ((canonical "Vary" == key) ≡ false)
    × ((canonical "Access-Control-Allow-Methods" == key) ≡ false)
    × ((canonical "Access-Control-Allow-Headers" == key) ≡ false)
    × ((canonical "Access-Control-Allow-Credentials" == key) ≡ false)

-- A handler that passes a header on, does not panic, and answers.
pub record Passes {W : Type 0} (key x : String) (next : Handler W) : Type 0 where
  pub at : (r : Request) (a : Reply W) → Carries key x a.writer → Carries key x (next r a).writer

pub record Calm {W : Type 0} (next : Handler W) : Type 0 where
  pub at : (r : Request) (a : Reply W) → a.panic ≡ none → (next r a).panic ≡ none

pub record Answers {W : Type 0} (next : Handler W) : Type 0 where
  pub at :
      (r : Request) (a : Reply W)
      → a.panic ≡ none
      → ((next r a).panic ≡ none) × (0 < (next r a).writer.status)

-- A status that is not written, or that net/http accepts.
abbrev pub IsSendable : ℕ → Type 0
IsSendable status = (status ≡ 0) ⊎ ((100 ≤ status) × (status ≤ 999))

-- A handler that gives such a status to a response that has none, whether it panics or not.
pub record Sendable {W : Type 0} (next : Handler W) : Type 0 where
  pub at : (r : Request) (a : Reply W) → a.writer.status ≡ 0 → IsSendable (next r a).writer.status

pub write_encoded-IsSendable :
    (code : ℕ) (o : Option String) (w : Writer)
    → 100 ≤ code
    → code ≤ 999
    → IsSendable w.status
    → IsSendable (write_encoded code o w).status
unfolding write_encoded write_header write
write_encoded-IsSendable code none w least most s = ground (arith, least, most, s)
write_encoded-IsSendable code (some text) w least most s = ground (arith, least, most, s)

-- A response whose status can be sent is written out.
release-Answers :
    {W : Type 0} (buffered : Writer) (a : Reply W)
    → a.panic ≡ none
    → IsSendable buffered.status
    → ((release buffered a).panic ≡ none) × (0 < (release buffered a).writer.status)
unfolding release
release-Answers buffered a quiet s =
    let w = record a.writer { header = copy_header a.writer.header buffered.header } in
    let status = if nat_eq buffered.status 0 then 200 else buffered.status in
    let accepted : is_refused status w ≡ false = ground (arith, s) in
    rw accepted (quiet, write-pos _ _ (write_header-pos _ _ (ground (arith, s))))

module _ {W : Type 0} (web : Web W) where
  pub recoverer-Sendable : (next : Handler W) → Sendable next → Sendable (recoverer web next)
  unfolding recoverer write_error write_json
  recoverer-Sendable next sendable = record {
    at = λ r a fresh. by_panic (next r a) r (next r a).panic (sendable.at r a fresh);
  }
    where
      by_panic :
          (b : Reply W) (r : Request) (o : Option String)
          → IsSendable b.writer.status
          → IsSendable
              (recovered o
                (write_error web r 500 "internal_server_error" "internal server error")
                b).writer.status
      by_panic b r none s = s
      by_panic b r (some reason) s =
          write_encoded-IsSendable 500 _ b.writer (omega arith) (omega arith) s

  pub recoverer-Calm : (next : Handler W) → Calm (recoverer web next)
  unfolding recoverer write_error write_json
  recoverer-Calm next = record { at = λ r a quiet. by_panic (next r a) r (next r a).panic refl }
    where
      by_panic :
          (b : Reply W) (r : Request) (o : Option String)
          → b.panic ≡ o
          → (recovered o
              (write_error web r 500 "internal_server_error" "internal server error")
              b).panic
            ≡ none
      by_panic b r none e = e
      by_panic b r (some reason) e = refl

  pub timeout-Answers :
      (limit : ℤ) (next : Handler W) → Calm next → Sendable next → Answers (timeout web limit next)
  unfolding timeout write_error write_json
  timeout-Answers limit next calm sendable = record {
    at = λ r a quiet.
        rw (calm.at r (record a { writer = new_writer }) quiet)
          (elim (Bool-cases
            (web.deadline_first limit (next r (record a { writer = new_writer })).world)) [
              | inl late ↦ rw late (refl, write_encoded-pos 504 _ _ (omega arith))
              | inr done ↦ rw done (release-Answers _ _ refl (sendable.at r _ refl))
            ]);
  }

  pub timeout-Passes :
      (key x : String)
      → Outer key
      → (limit : ℤ) (next : Handler W) → Passes key x (timeout web limit next)
  unfolding timeout write_error write_json
  timeout-Passes key x outer limit next = record {
    at = λ r a c.
        by_panic r a c (next r (record a { writer = new_writer }))
          (next r (record a { writer = new_writer })).panic;
  }
    where
      by_panic :
          (r : Request) (a : Reply W)
          → Carries key x a.writer
          → (b : Reply W) (o : Option String)
          → Carries key x (settled web limit r a.writer b o).writer
      by_panic r a c b (some reason) = c
      by_panic r a c b none = elim (Bool-cases (web.deadline_first limit b.world)) [
        | inl late ↦ rw late (write_encoded-Carries key x 504 _ a.writer outer.0 c)
        | inr done ↦ rw done (release-Carries key x b.writer (record b { writer = a.writer }) c)
      ]

  pub cors-Answers :
      (lib : Libraries) (origins methods headers : List String) (credentials : Bool)
      (next : Handler W)
      → Answers next
      → Answers (cors web lib origins methods headers credentials next)
  unfolding cors allow_origin write_error write_json
  cors-Answers lib origins methods headers credentials next answers = record {
    at = λ r a quiet.
        let origin = trim_space (Headers.get "Origin" r.header) in
        elim (Bool-cases (origin == "" || is_empty origins)) [
          | inl skips ↦ rw skips (answers.at r a quiet)
          | inr looks ↦ elim (Bool-cases (is_origin_allowed lib origin origins)) [
            | inl allowed ↦ elim (Bool-cases (r.method == "OPTIONS")) [
              | inl preflight ↦ elim (Bool-cases credentials) [
                | inl e ↦
                    rw looks (
                      rw allowed
                        (rw preflight (rw e (quiet, write_header-pos 204 _ (omega arith)))))
                | inr e ↦
                    rw looks (
                      rw allowed
                        (rw preflight (rw e (quiet, write_header-pos 204 _ (omega arith)))))
              ]
              | inr request ↦ elim (Bool-cases credentials) [
                | inl e ↦ rw looks (rw allowed (rw request (rw e (answers.at r _ quiet))))
                | inr e ↦ rw looks (rw allowed (rw request (rw e (answers.at r _ quiet))))
              ]
            ]
            | inr denied ↦ elim (Bool-cases (r.method == "OPTIONS")) [
              | inl preflight ↦
                  rw looks
                    (rw denied (rw preflight (quiet, write_encoded-pos 403 _ _ (omega arith))))
              | inr request ↦ rw looks (rw denied (rw request (answers.at r a quiet)))
            ]
          ]
        ];
  }

  allow_origin-Carries :
      (key x : String)
      → Outer key
      → (origin : String) (methods headers : List String) (credentials : Bool) (a : Reply W)
      → Carries key x a.writer
      → Carries key x (allow_origin web origin methods headers credentials a).writer
  unfolding allow_origin
  allow_origin-Carries key x outer origin methods headers credentials a c =
      let four = set-Carries key x _ _ _ outer.4 (
        set-Carries key x _ _ _ outer.3
          (set-Carries key x _ _ _ outer.2 (set-Carries key x _ origin _ outer.1 c))) in
      elim (Bool-cases credentials) [
        | inl e ↦ rw e (set-Carries key x _ "true" _ outer.5 four)
        | inr e ↦ rw e four
      ]

  pub cors-Passes :
      (key x : String)
      → Outer key
      → (lib : Libraries) (origins methods headers : List String) (credentials : Bool)
        (next : Handler W)
      → Passes key x next
      → Passes key x (cors web lib origins methods headers credentials next)
  unfolding cors write_error write_json
  cors-Passes key x outer lib origins methods headers credentials next passes = record {
    at = λ r a c.
        let origin = trim_space (Headers.get "Origin" r.header) in
        let set = allow_origin-Carries key x outer origin methods headers credentials a c in
        elim (Bool-cases (origin == "" || is_empty origins)) [
          | inl skips ↦ rw skips (passes.at r a c)
          | inr looks ↦ elim (Bool-cases (is_origin_allowed lib origin origins)) [
            | inl allowed ↦ elim (Bool-cases (r.method == "OPTIONS")) [
              | inl preflight ↦
                  rw looks (rw allowed (rw preflight (write_header-Carries key x 204 _ set)))
              | inr request ↦ rw looks (rw allowed (rw request (passes.at r _ set)))
            ]
            | inr denied ↦ elim (Bool-cases (r.method == "OPTIONS")) [
              | inl preflight ↦
                  rw looks (
                    rw denied (rw preflight (write_encoded-Carries key x 403 _ a.writer outer.0 c)))
              | inr request ↦ rw looks (rw denied (rw request (passes.at r a c)))
            ]
          ]
        ];
  }

module _ {W : Type 0} where
  pub request_logger-Answers : (next : Handler W) → Answers next → Answers (request_logger next)
  unfolding request_logger
  request_logger-Answers next answers = record {
    at = λ r a quiet.
        let (panic, sent) =
          answers.at r (record a { writer = record a.writer { recorded = 200 } }) quiet in
        rw panic (refl, sent);
  }

  pub request_logger-Passes :
      (key x : String) (next : Handler W) → Passes key x next → Passes key x (request_logger next)
  unfolding request_logger
  request_logger-Passes key x next passes = record {
    at = λ r a c.
        by_panic (next r (record a { writer = record a.writer { recorded = 200 } }))
          (next r (record a { writer = record a.writer { recorded = 200 } })).panic _
          (passes.at r _ (record { header = c.header; sent = c.sent }));
  }
    where
      by_panic :
          (b : Reply W) (o : Option String) (entry : LogEntry)
          → Carries key x b.writer
          → Carries key x (logged o entry b).writer
      by_panic b none entry c = c
      by_panic b (some reason) entry c = c
