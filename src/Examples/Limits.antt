-- ===== src/Examples/Limits.antt =====
-- The rate limit at a run on the platform in memory.
use auth_login_load_balancin.Prelude.{ℕ, ◌≡◌, refl, true, arith}
use auth_login_load_balancin.Prelude.Int.{pos}
use auth_login_load_balancin.Prelude.Exec.{Result, ok, ◌>>=◌}
use auth_login_load_balancin.Platform.{on_cache}
use auth_login_load_balancin.InMemory.{Memory, platform, counters}
use auth_login_load_balancin.InMemory.Cache.{counter_view}
use auth_login_load_balancin.Service.RateLimit.{RateLimitResult, allow}
use auth_login_load_balancin.Service.RateLimit.Counted.{Counted, allow-Counted}
use auth_login_load_balancin.Examples.Scenario.{no_tokens}

-- Two requests in one window.
abbrev once : Memory
once = (allow platform "login" "10.0.0.1" (pos 5) (pos 60) no_tokens).1

abbrev twice : Result RateLimitResult × Memory
twice = allow platform "login" "10.0.0.1" (pos 5) (pos 60) once

abbrev second_answer : RateLimitResult
second_answer = record { allowed = true; remaining = pos 3; reset_in = pos 60 }

allows : twice ≡ (ok second_answer, twice.1)
unfolding allow ◌>>=◌ on_cache
allows = refl

allow-Counted_example :
    (n : ℕ) × Counted counter_view "login" "10.0.0.1" 5 60 once.cache twice.1.cache n second_answer
allow-Counted_example =
    allow-Counted platform counter_view counters "login" "10.0.0.1" 5 60 once (omega arith) allows
