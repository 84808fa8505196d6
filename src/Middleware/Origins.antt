-- ===== src/Middleware/Origins.antt =====
-- Which origins CORS lets in.
use mathlib.Core.List.{Memᴰ}
use auth_login_load_balancin.Prelude.{
  String, ◌≡◌, ◌≢◌, ◌⊎◌, refl, ap, ◌∙◌, Bool, true, false, ◌==◌, ◌||◌, List, [], ◌∷◌, eq_iff, inl,
  inr, Bool-cases, is_empty, or-eq-false_iff,
}
use auth_login_load_balancin.Go.Strings.{trim_space}
use auth_login_load_balancin.Go.Strings.Fold.{equal_fold}
use auth_login_load_balancin.Platform.{Libraries}
use auth_login_load_balancin.Http.{Request, Reply, Handler}
use auth_login_load_balancin.Http.Headers
use auth_login_load_balancin.Http.Headers.{canonical, get-set, get-set-ne}
use auth_login_load_balancin.Http.Library.{Web}
use auth_login_load_balancin.Middleware.Response.{write_json, write_error}
use auth_login_load_balancin.Middleware.Status.{write_encoded-header, write_header-header}
use auth_login_load_balancin.Middleware.Basic.{is_origin_allowed, allow_origin, cors}

-- The origin is one of the list's, up to case, or the list has the wildcard.
pub record IsListed (lib : Libraries) (origin : String) (origins : List String) : Type 0 where
  pub entry : String
  pub is_entry : Memᴰ entry origins
  pub matches : (entry ≡ "*") ⊎ (equal_fold lib.fold_table origin entry ≡ true)

or-eq-true : (a b : Bool) → (a || b) ≡ true → (a ≡ true) ⊎ (b ≡ true)
or-eq-true true b h = inl refl
or-eq-true false b h = inr h

is_origin_allowed-IsListed :
    (lib : Libraries) (origin : String) (origins : List String)
    → is_origin_allowed lib origin origins ≡ true
    → IsListed lib origin origins
unfolding is_origin_allowed
is_origin_allowed-IsListed lib origin [] h = absurd cc
is_origin_allowed-IsListed lib origin (allowed ∷ rest) h =
    elim (Bool-cases (allowed == "*" || equal_fold lib.fold_table origin allowed)) [
      | inl here ↦ record {
        entry = allowed;
        is_entry = Memᴰ.head refl;
        matches =
            elim (or-eq-true (allowed == "*") (equal_fold lib.fold_table origin allowed) here) [
              | inl star ↦ inl ((eq_iff allowed "*").0 star)
              | inr same ↦ inr same
            ];
      }
      | inr later ↦
          let found = is_origin_allowed-IsListed lib origin rest (rw later at h) in
          record {
            entry = found.entry;
            is_entry = Memᴰ.tail found.is_entry;
            matches = found.matches;
          }
    ]

module _ {W : Type 0} (web : Web W) where
  abbrev pub allowed_origin : Reply W → String
  allowed_origin a = Headers.get "Access-Control-Allow-Origin" a.writer.header

  allow_origin-eq :
      (origin : String) (methods headers : List String) (credentials : Bool) (a : Reply W)
      → allowed_origin (allow_origin web origin methods headers credentials a) ≡ origin
  unfolding allow_origin canonical
  allow_origin-eq origin methods headers credentials a =
      let four =
        get-set-ne "Access-Control-Allow-Origin" "Access-Control-Allow-Headers" _ _ refl
        ∙ get-set-ne "Access-Control-Allow-Origin" "Access-Control-Allow-Methods" _ _ refl
        ∙ get-set-ne "Access-Control-Allow-Origin" "Vary" _ _ refl
        ∙ get-set "Access-Control-Allow-Origin" origin a.writer.header in
      elim (Bool-cases credentials) [
        | inl e ↦ rw e (
            get-set-ne "Access-Control-Allow-Origin" "Access-Control-Allow-Credentials" _ _ refl
            ∙ four)
        | inr e ↦ rw e four
      ]

  -- If the next handler does not set Access-Control-Allow-Origin, then a response behind CORS has
  -- this header as before, or it names the origin of the request, trimmed and not blank, which is on
  -- the list of allowed origins up to case, or the list has the wildcard.
  pub cors-IsListed :
      (lib : Libraries) (origins methods headers : List String) (credentials : Bool)
      (next : Handler W) (r : Request) (a : Reply W)
      → ((s : Request) (b : Reply W) → allowed_origin (next s b) ≡ allowed_origin b)
      → (allowed_origin (cors web lib origins methods headers credentials next r a)
          ≡ allowed_origin a)
        ⊎ (IsListed lib (trim_space (Headers.get "Origin" r.header)) origins
            × (trim_space (Headers.get "Origin" r.header) ≢ "")
            × (allowed_origin (cors web lib origins methods headers credentials next r a)
                ≡ trim_space (Headers.get "Origin" r.header)))
  unfolding cors write_error write_json canonical
  cors-IsListed lib origins methods headers credentials next r a keeps =
      let origin = trim_space (Headers.get "Origin" r.header) in
      let named = allow_origin-eq origin methods headers credentials a in
      elim (Bool-cases (origin == "" || is_empty origins)) [
        | inl skips ↦ inl (rw skips (keeps r a))
        | inr looks ↦ elim (Bool-cases (is_origin_allowed lib origin origins)) [
          | inl allowed ↦
              let listed = is_origin_allowed-IsListed lib origin origins allowed in
              let filled : origin ≢ "" = λ e. cc (
                ((or-eq-false_iff (origin == "") (is_empty origins)).0 looks).0,
                (eq_iff origin "").1 e,
              ) in
              elim (Bool-cases (r.method == "OPTIONS")) [
                | inl preflight ↦ inr (
                  listed,
                  filled,
                  rw looks (
                      rw allowed (
                        rw preflight (
                          rw
                            (write_header-header 204
                              (allow_origin web origin methods headers credentials a).writer)
                            named))),
                )
                | inr request ↦
                    inr (listed, filled, rw looks (rw allowed (rw request (keeps r _ ∙ named))))
              ]
          | inr denied ↦ elim (Bool-cases (r.method == "OPTIONS")) [
            | inl preflight ↦ inl (
                rw looks (
                  rw denied (
                    rw preflight (
                      ap (Headers.get "Access-Control-Allow-Origin")
                        (write_encoded-header 403 _ a.writer)
                      ∙ get-set-ne "Access-Control-Allow-Origin" "Content-Type" _ _ refl))))
            | inr request ↦ inl (rw looks (rw denied (rw request (keeps r a))))
          ]
        ]
      ]
