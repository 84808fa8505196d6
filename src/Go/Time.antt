-- ===== src/Go/Time.antt =====
-- Package `time`: a moment is a number of nanoseconds from the year 1 (Go's zero time), a
-- `time.Duration` is a signed number of nanoseconds.
use auth_login_load_balancin.Prelude.{
  ℕ, ◌+◌, ◌-◌, ◌/◌, ◌<◌, ◌^◌, ◌≡◌, ◌↔◌, false, arith, ltb, leb, if◌then◌else◌,
}
use auth_login_load_balancin.Prelude.Int.{ℤ, pos, negsuc, pos_part, neg_part, leb_ℤ, scale_64}

abbrev pub second : ℕ
second = 1_000_000_000

-- `time.Duration(n) * time.Second`, and so on: int64 products.
abbrev pub seconds : ℤ → ℤ
seconds n = scale_64 n second

abbrev pub minutes : ℤ → ℤ
minutes n = scale_64 n 60_000_000_000

abbrev pub hours : ℤ → ℤ
hours n = scale_64 n 3_600_000_000_000

-- `t.Add(d)`
abbrev pub add : ℕ → ℤ → ℕ
add t d = t + pos_part d - neg_part d

-- `t.Unix()`, counted from the year 1 here too.
abbrev pub unix : ℕ → ℕ
unix t = t / second

-- `t.Sub(u)`: the difference saturates at the ends of int64.
unfoldable pub sub : ℕ → ℕ → ℤ
sub t u =
    if leb u t
    then (if ltb (2 ^ 63 - 1) (t - u) then pos (2 ^ 63 - 1) else pos (t - u))
    else if ltb (2 ^ 63) (u - t)
    then negsuc (2 ^ 63 - 1)
    else negsuc (u - t - 1)

-- A difference is positive exactly when the first moment is the later one.
pub sub-pos_iff : (t u : ℕ) → (leb_ℤ (sub t u) (pos 0) ≡ false) ↔ (u < t)
unfolding sub
sub-pos_iff t u = ground arith
