-- ===== src/Go/Strings/Fold.antt =====
-- Package `strings`: ToUpper and EqualFold. What becomes of a rune beyond ASCII is in Go's Unicode
-- tables.
use Prim.Native.Char.{Char, char, code}
use Prim.Native.String.{[], ◌∷◌}
use native.Mathlib.Decide.{dec_lt}
use mathlib.Core.Logic.{dite}
use auth_login_load_balancin.Prelude.{◌-◌, String, Bool, ◌&&◌, ◌==◌, leb, ltb, if◌then◌else◌}
use auth_login_load_balancin.Go.Strings.{to_lower, IsScalar-of_lt}

-- `unicode.ToUpper`
unfoldable pub upper_rune : (Char → Char) → Char → Char
upper_rune table c =
    if leb b'a' (code c) && leb (code c) b'z'
    then dite (dec_lt (code c - 32) 55296) (λ h. char (code c - 32) (IsScalar-of_lt _ h)) (λ _. c)
    else if ltb (code c) 128
    then c
    else table c

-- `strings.ToUpper`
unfoldable pub to_upper : (Char → Char) → String → String
unfolding upper_rune dec_lt
to_upper table [] = []
to_upper table (c ∷ s) = upper_rune table c ∷ to_upper table s

-- `strings.EqualFold`; the table gives one rune for all that fold into one another, the lower-case
-- letter where that is ASCII.
abbrev pub equal_fold : (Char → Char) → String → String → Bool
equal_fold fold_table s t = to_lower fold_table s == to_lower fold_table t
