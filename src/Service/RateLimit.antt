-- ===== src/Service/RateLimit.antt =====
-- internal/service/rate_limit_service.go: a counter in Redis for each scope and identifier.
pub mod Counted
use Prim.Native.String.{◌++◌}
use auth_login_load_balancin.Prelude.{ℕ, ◌+◌, ◌-◌, ◌%◌, ◌^◌, String, Bool, nat_eq, if◌then◌else◌}
use auth_login_load_balancin.Prelude.Int.{ℤ, pos, ltb_ℤ, leb_ℤ, bits_64, int_64}
use auth_login_load_balancin.Prelude.Exec.{Exec, pure, ◌>>=◌, ◌>>◌}
use auth_login_load_balancin.Platform.{Platform, World, on_cache}

pub record RateLimitResult : Type 0 where
  pub allowed : Bool
  pub remaining : ℤ
  pub reset_in : ℤ

abbrev pub rate_limit_key : String → String → String
rate_limit_key scope identifier = "auth:rate_limit:" ++ scope ++ ":" ++ identifier

-- int64(limit) - count, which wraps, and is no less than 0.
abbrev pub at_least_zero : ℤ → ℤ
at_least_zero z = if ltb_ℤ z (pos 0) then pos 0 else z

abbrev pub remaining_of : ℤ → ℕ → ℤ
remaining_of limit count =
    at_least_zero (int_64 ((bits_64 limit + 2 ^ 64 - count % 2 ^ 64) % 2 ^ 64))

module _ {S D O : Type 0} (p : Platform S D O) where
  unfoldable pub allow :
      (scope identifier : String) (limit window : ℤ) → Exec (World S D O) RateLimitResult
  allow scope identifier limit window = do
    count ← on_cache (p.redis.incr (rate_limit_key scope identifier))
    (if nat_eq count 1
        then on_cache (p.redis.expire (rate_limit_key scope identifier) window)
        else pure tt)
    ttl ← on_cache (p.redis.ttl (rate_limit_key scope identifier))
    pure (record {
      allowed = leb_ℤ (pos count) limit;
      remaining = remaining_of limit count;
      reset_in = if ltb_ℤ ttl (pos 0) then window else ttl;
    })
