-- ===== src/Go/Strconv.antt =====
-- Package `strconv`: Atoi, Itoa and ParseBool.
use Prim.Native.Char.{Char, char, code}
use Prim.Native.String.{[], ◌∷◌, ◌++◌}
use auth_login_load_balancin.Prelude.{
  ℕ, zero, suc, ◌+◌, ◌-◌, ◌*◌, ◌/◌, ◌%◌, ◌^◌, ◌<◌, String, Bool, true, false, ◌&&◌, ◌||◌, ◌==◌,
  Option, none, some, leb, ltb, nat_eq, if◌then◌else◌, arith,
}
use auth_login_load_balancin.Prelude.Int.{ℤ, pos, negsuc}
use auth_login_load_balancin.Go.Strings.{IsScalar-of_lt}

-- The number of a text of digits, after the digits that are read.
abbrev digits_value : ℕ → String → Option ℕ
digits_value n [] = some n
digits_value n (c ∷ s) =
    let rest = digits_value (10 * n + (code c - 48)) s in
    if leb 48 (code c) && leb (code c) 57 then rest else none

abbrev unsigned : String → Option ℕ
unsigned [] = none
unsigned (c ∷ s) = digits_value 0 (c ∷ s)

abbrev positive : Option ℕ → Option ℤ
positive none = none
positive (some n) = if ltb n (2 ^ 63) then some (pos n) else none

abbrev opposite : ℕ → ℤ
opposite zero = pos 0
opposite (suc n) = negsuc n

abbrev negative : Option ℕ → Option ℤ
negative none = none
negative (some n) = if leb n (2 ^ 63) then some (opposite n) else none

-- `strconv.Atoi`: an int has 64 bits.
unfoldable pub atoi : String → Option ℤ
atoi [] = none
atoi (c ∷ s) =
    if nat_eq (code c) b'-'
    then negative (unsigned s)
    else if nat_eq (code c) b'+'
    then positive (unsigned s)
    else positive (unsigned (c ∷ s))

pub digit_lt : (n : ℕ) → 48 + n % 10 < 55296
digit_lt n = omega arith

abbrev pub digit : ℕ → Char
digit n = char (48 + n % 10) (IsScalar-of_lt _ (digit_lt n))

-- The digits of a number in front of a text. The number itself is fuel enough: a tenth of a number
-- is less than the number.
abbrev digits : ℕ → ℕ → String → String
digits zero n s = s
digits (suc fuel) n s =
    let rest = digits fuel (n / 10) (digit n ∷ s) in if ltb n 10 then digit n ∷ s else rest

-- `strconv.Itoa`
unfoldable pub itoa : ℤ → String
itoa (pos n) = digits (suc n) n []
itoa (negsuc n) = "-" ++ digits (suc (suc n)) (suc n) []

-- `strconv.ParseBool`
unfoldable pub parse_bool : String → Option Bool
parse_bool s =
    if s == "1" || s == "t" || s == "T" || s == "TRUE" || s == "true" || s == "True"
    then some true
    else if s == "0" || s == "f" || s == "F" || s == "FALSE" || s == "false" || s == "False"
    then some false
    else none
