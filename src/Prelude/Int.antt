-- ===== src/Prelude/Int.antt =====
-- Go's signed integers and `time.Duration`: integers over the native numbers, and the wrap-around
-- of 64 bits.
use auth_login_load_balancin.Prelude.Tests.{ltb, leb, if◌then◌else◌}
use Prim.Native.Nat.{ℕ, suc, ◌+◌, ◌-◌, ◌*◌, ◌<◌, ◌%◌, ◌^◌}
use mathlib.Core.Path.{◌≡◌}
use mathlib.Core.Bool.{Bool}
use native.Mathlib.Omega.{arith}

-- `negsuc n` is -(n + 1).
pub data ℤ : Type 0 where
  pos : ℕ → ℤ
  negsuc : ℕ → ℤ

abbrev pub pos_part : ℤ → ℕ
pos_part (pos n) = n
pos_part (negsuc n) = 0

abbrev pub neg_part : ℤ → ℕ
neg_part (pos n) = 0
neg_part (negsuc n) = suc n

-- a - b, as an integer.
abbrev pub sub_ℕ : ℕ → ℕ → ℤ
sub_ℕ a b = if leb b a then pos (a - b) else negsuc (b - a - 1)

abbrev pub ltb_ℤ : ℤ → ℤ → Bool
ltb_ℤ a b = ltb (pos_part a + neg_part b) (pos_part b + neg_part a)

abbrev pub leb_ℤ : ℤ → ℤ → Bool
leb_ℤ a b = leb (pos_part a + neg_part b) (pos_part b + neg_part a)

-- The 64-bit two's complement pattern of an integer, and the integer of a pattern.
abbrev pub bits_64 : ℤ → ℕ
bits_64 (pos n) = n % 2 ^ 64
bits_64 (negsuc n) = 2 ^ 64 - 1 - n % 2 ^ 64

abbrev pub int_64 : ℕ → ℤ
int_64 b = if ltb b (2 ^ 63) then pos b else negsuc (2 ^ 64 - 1 - b)

-- An int64 product of an integer and a positive constant, with its wrap-around.
unfoldable pub scale_64 : ℤ → ℕ → ℤ
scale_64 z k = int_64 ((bits_64 z * k) % 2 ^ 64)

-- Where the product fits in 63 bits nothing wraps.
pub scale_64-eq_of_lt : (n k : ℕ) → n * k < 2 ^ 63 → n < 2 ^ 63 → scale_64 (pos n) k ≡ pos (n * k)
unfolding scale_64
scale_64-eq_of_lt n k h h' = ground arith
