-- ===== src/Go/Strings/Split.antt =====
-- Package `strings`: Split, SplitN, Join, HasPrefix and TrimPrefix, and the bytes of a text.
use Prim.Native.Char.{Char, code}
use Prim.Native.String.{◌++◌}
use auth_login_load_balancin.Prelude.{
  ℕ, ◌+◌, String, Bool, true, false, List, [], ◌∷◌, Option, none, some, ltb, nat_eq, if◌then◌else◌,
}

abbrev put_front : Char → List String → List String
put_front c [] = String.◌∷◌ c String.[] ∷ []
put_front c (x ∷ xs) = String.◌∷◌ c x ∷ xs

-- `strings.Split(s, sep)` for a separator of one character.
unfoldable pub split : String → ℕ → List String
split String.[] sep = String.[] ∷ []
split (String.◌∷◌ c s) sep =
    let rest = split s sep in if nat_eq (code c) sep then String.[] ∷ rest else put_front c rest

abbrev put_before : Char → Option (String × String) → Option (String × String)
put_before c none = none
put_before c (some (before, rest)) = some (String.◌∷◌ c before, rest)

-- `strings.SplitN(s, sep, 2)`: `none` where it has one part only.
unfoldable pub split_in_two : String → ℕ → Option (String × String)
split_in_two String.[] sep = none
split_in_two (String.◌∷◌ c s) sep =
    let rest = split_in_two s sep in
    if nat_eq (code c) sep then some (String.[], s) else put_before c rest

-- `strings.Join`
unfoldable pub join : List String → String → String
join [] sep = ""
join (x ∷ []) sep = x
join (x ∷ y ∷ xs) sep = x ++ sep ++ join (y ∷ xs) sep

-- The rest of a text after a prefix.
unfoldable pub cut_prefix : String → String → Option String
cut_prefix s String.[] = some s
cut_prefix String.[] (String.◌∷◌ d p) = none
cut_prefix (String.◌∷◌ c s) (String.◌∷◌ d p) =
    let rest = cut_prefix s p in if nat_eq (code c) (code d) then rest else none

abbrev is_some : Option String → Bool
is_some none = false
is_some (some s) = true

-- `strings.HasPrefix`
abbrev pub has_prefix : String → String → Bool
has_prefix s prefix = is_some (cut_prefix s prefix)

abbrev or_whole : String → Option String → String
or_whole s none = s
or_whole s (some rest) = rest

-- `strings.TrimPrefix`
abbrev pub trim_prefix : String → String → String
trim_prefix s prefix = or_whole s (cut_prefix s prefix)

-- `len(s)`: the bytes of the UTF-8 form.
abbrev pub bytes_of : ℕ → ℕ
bytes_of n = if ltb n 128 then 1 else if ltb n 2048 then 2 else if ltb n 65536 then 3 else 4

unfoldable pub byte_length : String → ℕ
byte_length String.[] = 0
byte_length (String.◌∷◌ c s) = bytes_of (code c) + byte_length s
