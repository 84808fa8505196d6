-- ===== src/Http/Headers.antt =====
-- http.Header: values under canonical names.
use Prim.Native.Char.{code}
use native.Mathlib.Decide.{dec_lt}
use auth_login_load_balancin.Prelude.{
  String, ◌≡◌, refl, Bool, true, false, List, [], ◌∷◌, ◌++◌, ◌==◌, eq_iff, eq_refl, nat_eq,
  if◌then◌else◌, arith,
}
use auth_login_load_balancin.Go.Strings.{lower_rune}
use auth_login_load_balancin.Go.Strings.Fold.{upper_rune}

abbrev pub Header : Type 0
Header = List (String × List String)

-- textproto.CanonicalMIMEHeaderKey of a name of letters, digits and dashes: a capital at the start
-- and after each dash.
abbrev capitalized : Bool → String → String
capitalized first String.[] = String.[]
capitalized first (String.◌∷◌ c s) =
    String.◌∷◌ (if first then upper_rune (λ x. x) c else lower_rune (λ x. x) c)
      (capitalized (nat_eq (code c) b'-') s)

unfoldable pub canonical : String → String
unfolding upper_rune lower_rune dec_lt
canonical key = capitalized true key

unfoldable pub values_of : String → Header → List String
values_of key [] = []
values_of key ((k, xs) ∷ h) = if k == key then xs else values_of key h

unfoldable pub put : String → List String → Header → Header
put key xs [] = (key, xs) ∷ []
put key xs ((k, ys) ∷ h) = if k == key then (k, xs) ∷ h else (k, ys) ∷ put key xs h

abbrev pub first_value : List String → String
first_value [] = ""
first_value (x ∷ xs) = x

-- h.Get, h.Set, h.Add
unfoldable pub get : String → Header → String
get key h = first_value (values_of (canonical key) h)

unfoldable pub set : String → String → Header → Header
set key value h = put (canonical key) (value ∷ []) h

unfoldable pub add : String → String → Header → Header
add key value h = put (canonical key) (values_of (canonical key) h ++ value ∷ []) h

pub values_of-put :
    (key other : String) (xs : List String) (h : Header)
    → values_of other (put key xs h) ≡ (if key == other then xs else values_of other h)
unfolding values_of put
values_of-put key other xs [] = refl
values_of-put key other xs ((k, ys) ∷ h) =
    ground (arith, eq_iff key other, eq_iff k key, eq_iff k other, values_of-put key other xs h)

pub get-set : (key value : String) (h : Header) → get key (set key value h) ≡ value
unfolding get set
get-set key value h =
    rw (values_of-put (canonical key) (canonical key) (value ∷ []) h)
      (rw (eq_refl (canonical key)) refl)

pub get-set-ne :
    (key other value : String) (h : Header)
    → (canonical other == canonical key) ≡ false
    → get key (set other value h) ≡ get key h
unfolding get set
get-set-ne key other value h differ =
    rw (values_of-put (canonical other) (canonical key) (value ∷ []) h) (rw differ refl)
