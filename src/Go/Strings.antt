-- ===== src/Go/Strings.antt =====
-- Package `strings`: TrimSpace and ToLower over the code points of a text. The lower case of a rune beyond ASCII is that of Go's Unicode tables.
pub mod Trim
pub mod Split
pub mod Fold
use Prim.Native.Char.{Char, char, code, IsScalar}
use Prim.Native.String.{[], ◌∷◌}
use Prim.Native.Nat.{compare, Ordering}
use native.Mathlib.Decide.{dec_lt}
use mathlib.Core.Logic.{dite}
use auth_login_load_balancin.Prelude.{
  ℕ, ◌+◌, ◌<◌, String, ◌≡◌, Bool, ◌&&◌, ◌||◌, arith, leb, ltb, nat_eq, if◌then◌else◌,
}

-- `unicode.IsSpace`
unfoldable pub is_space : Char → Bool
is_space c =
    let n = code c in
    leb 9 n && leb n 13
    || nat_eq n 32
    || nat_eq n 0x85
    || nat_eq n 0xa0
    || nat_eq n 0x1680
    || leb 0x2000 n && leb n 0x200a
    || nat_eq n 0x2028
    || nat_eq n 0x2029
    || nat_eq n 0x202f
    || nat_eq n 0x205f
    || nat_eq n 0x3000

-- A rune in front of a text that is trimmed at its end.
abbrev cons_trimmed : Char → String → String
cons_trimmed c [] = if is_space c then [] else c ∷ []
cons_trimmed c (d ∷ s) = c ∷ d ∷ s

unfoldable pub trim_right : String → String
trim_right [] = []
trim_right (c ∷ s) = cons_trimmed c (trim_right s)

unfoldable pub trim_left : String → String
trim_left [] = []
trim_left (c ∷ s) = let rest = trim_left s in if is_space c then rest else c ∷ s

-- `strings.TrimSpace`
unfoldable pub trim_space : String → String
unfolding trim_left trim_right is_space
trim_space s = trim_right (trim_left s)

-- Every number below 0xd800 is a scalar value.
pub IsScalar-of_lt : (n : ℕ) → n < 55296 → IsScalar n
IsScalar-of_lt n h = let e : compare n 55296 ≡ Ordering.lt = ground arith in rw e tt

-- `unicode.ToLower`, with the tables' entry for a rune beyond ASCII.
unfoldable pub lower_rune : (Char → Char) → Char → Char
lower_rune table c =
    if leb b'A' (code c) && leb (code c) b'Z'
    then dite (dec_lt (code c + 32) 55296) (λ h. char (code c + 32) (IsScalar-of_lt _ h)) (λ _. c)
    else if ltb (code c) 128
    then c
    else table c

-- `strings.ToLower`
unfoldable pub to_lower : (Char → Char) → String → String
unfolding lower_rune dec_lt
to_lower table [] = []
to_lower table (c ∷ s) = lower_rune table c ∷ to_lower table s
