-- ===== src/InMemory/Letters.antt =====
-- A table of lower-case letters that knows none beyond ASCII.
use Prim.Native.Char.{Char, char, code}
use native.Mathlib.Decide.{dec_lt}
use mathlib.Core.Logic.{dite}
use auth_login_load_balancin.Prelude.{
  ◌+◌, ◌<◌, ◌≡◌, refl, ◌≤◌, true, false, ◌&&◌, arith, leb, ltb, inl, inr, Bool-cases,
}
use auth_login_load_balancin.Go.Strings.{is_space, lower_rune, IsScalar-of_lt}
use auth_login_load_balancin.Go.Strings.Trim.{IsLowerTable}

abbrev letter : (c : Char) → Dec (code c + 32 < 55296) → Char
letter c d = dite d (λ h. char (code c + 32) (IsScalar-of_lt _ h)) (λ _. c)

letter-code :
    (c : Char) (d : Dec (code c + 32 < 55296)) → code c < 91 → code (letter c d) ≡ code c + 32
letter-code c (yes h) small = refl
letter-code c (no h) small = absurd (h (omega arith))

lower_rune_other :
    (c : Char) → (leb 65 (code c) && leb (code c) 90) ≡ false → lower_rune (λ x. x) c ≡ c
unfolding lower_rune
lower_rune_other c h = elim (Bool-cases (ltb (code c) 128)) [
  | inl ascii ↦ rw (h, ascii) refl
  | inr beyond ↦ rw (h, beyond) refl
]

lower_rune_upper :
    (c : Char)
    → (leb 65 (code c) && leb (code c) 90) ≡ true
    → (code (lower_rune (λ x. x) c) ≡ code c + 32) × (65 ≤ code c) × (code c ≤ 90)
unfolding lower_rune
lower_rune_upper c h =
    let above : 65 ≤ code c = ground (arith, h) in
    let below : code c ≤ 90 = ground (arith, h) in
    (rw h (letter-code c (dec_lt (code c + 32) 55296) (omega (arith, below))), above, below)

pub ascii-IsLowerTable : IsLowerTable (λ x. x)
unfolding is_space
ascii-IsLowerTable = record {
  stable = λ c. elim (Bool-cases (leb 65 (code c) && leb (code c) 90)) [
    | inr other ↦ rw (lower_rune_other c other) (lower_rune_other c other)
    | inl is_upper ↦
        let (is, above, below) = lower_rune_upper c is_upper in
        lower_rune_other (lower_rune (λ x. x) c) (rw is (ground (arith, above, below)))
  ];
  spaces = λ c. elim (Bool-cases (leb 65 (code c) && leb (code c) 90)) [
    | inr other ↦ rw (lower_rune_other c other) refl
    | inl is_upper ↦
        let (is, above, below) = lower_rune_upper c is_upper in rw is (ground (arith, above, below))
  ];
}
