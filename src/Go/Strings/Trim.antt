-- ===== src/Go/Strings/Trim.antt =====
-- The laws of `TrimSpace` and `ToLower` on which the handling of an email address rests.
use Prim.Native.Char.{Char}
use Prim.Native.String.{[], ◌∷◌}
use auth_login_load_balancin.Prelude.{String, ◌≡◌, refl, ap, false, Bool-cases, inl, inr}
use auth_login_load_balancin.Go.Strings.{
  is_space, cons_trimmed, trim_right, trim_left, trim_space, lower_rune, to_lower,
}

-- A text that TrimSpace leaves alone begins and ends with no space.
abbrev StartsClean : String → Type 0
StartsClean [] = Unit
StartsClean (c ∷ s) = is_space c ≡ false

trim_left-StartsClean : (s : String) → StartsClean (trim_left s)
unfolding trim_left
trim_left-StartsClean [] = tt
trim_left-StartsClean (c ∷ s) = elim (Bool-cases (is_space c)) [
  | inl e ↦ rw e (trim_left-StartsClean s)
  | inr e ↦ rw e e
]

trim_left_of_StartsClean : (s : String) → StartsClean s → trim_left s ≡ s
unfolding trim_left
trim_left_of_StartsClean [] h = refl
trim_left_of_StartsClean (c ∷ s) h = rw h

cons_trimmed-StartsClean :
    (c : Char) (s : String) → is_space c ≡ false → StartsClean (cons_trimmed c s)
cons_trimmed-StartsClean c [] h = rw h h
cons_trimmed-StartsClean c (d ∷ s) h = h

trim_right-StartsClean : (s : String) → StartsClean s → StartsClean (trim_right s)
unfolding trim_right
trim_right-StartsClean [] h = tt
trim_right-StartsClean (c ∷ s) h = cons_trimmed-StartsClean c (trim_right s) h

trim_right-cons_trimmed :
    (c : Char) (s : String) → trim_right s ≡ s → trim_right (cons_trimmed c s) ≡ cons_trimmed c s
unfolding trim_right
trim_right-cons_trimmed c [] h = elim (Bool-cases (is_space c)) [
  | inl e ↦ rw e refl
  | inr e ↦ rw (e, e) refl
]
trim_right-cons_trimmed c (d ∷ s) h = rw h

trim_right_idem : (s : String) → trim_right (trim_right s) ≡ trim_right s
unfolding trim_right
trim_right_idem [] = refl
trim_right_idem (c ∷ s) = trim_right-cons_trimmed c (trim_right s) (trim_right_idem s)

-- Trimming a second time changes nothing.
pub trim_space_idem : (s : String) → trim_space (trim_space s) ≡ trim_space s
unfolding trim_space
trim_space_idem s =
    rw (trim_left_of_StartsClean _ (trim_right-StartsClean _ (trim_left-StartsClean s)))
      (trim_right_idem (trim_left s))

-- What is asked of Go's Unicode tables: lower case is stable, and no rune becomes or stops being a
-- space.
pub record IsLowerTable (table : Char → Char) : Type 0 where
  pub stable : (c : Char) → lower_rune table (lower_rune table c) ≡ lower_rune table c
  pub spaces : (c : Char) → is_space (lower_rune table c) ≡ is_space c

module _ {table : Char → Char} (t : IsLowerTable table) where
  -- Lower-casing a second time changes nothing.
  pub to_lower_idem : (s : String) → to_lower table (to_lower table s) ≡ to_lower table s
  unfolding to_lower
  to_lower_idem [] = refl
  to_lower_idem (c ∷ s) = cc (t.stable c, to_lower_idem s)

  to_lower-cons_trimmed :
      (c : Char) (s : String)
      → to_lower table (cons_trimmed c s) ≡ cons_trimmed (lower_rune table c) (to_lower table s)
  unfolding to_lower
  to_lower-cons_trimmed c [] = elim (Bool-cases (is_space c)) [
    | inl e ↦ rw (t.spaces c, e) refl
    | inr e ↦ rw (t.spaces c, e) refl
  ]
  to_lower-cons_trimmed c (d ∷ s) = refl

  to_lower-trim_right : (s : String) → to_lower table (trim_right s) ≡ trim_right (to_lower table s)
  unfolding trim_right to_lower
  to_lower-trim_right [] = refl
  to_lower-trim_right (c ∷ s) =
      rw (← to_lower-trim_right s) (to_lower-cons_trimmed c (trim_right s))

  to_lower-trim_left : (s : String) → to_lower table (trim_left s) ≡ trim_left (to_lower table s)
  unfolding trim_left to_lower
  to_lower-trim_left [] = refl
  to_lower-trim_left (c ∷ s) = elim (Bool-cases (is_space c)) [
    | inl e ↦ rw (t.spaces c, e) (to_lower-trim_left s)
    | inr e ↦ rw (t.spaces c, e) refl
  ]

  -- Trimming and lower-casing may be done in either order.
  pub to_lower-trim_space :
      (s : String) → to_lower table (trim_space s) ≡ trim_space (to_lower table s)
  unfolding trim_space
  to_lower-trim_space s =
      rw (to_lower-trim_right (trim_left s)) (ap trim_right (to_lower-trim_left s))
