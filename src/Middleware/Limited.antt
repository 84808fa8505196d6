-- ===== src/Middleware/Limited.antt =====
-- What RateLimit has counted: whom a request is counted for, and what becomes of it.
use auth_login_load_balancin.Prelude.{
  ℕ, ◌≤◌, ◌<◌, ◌^◌, ◌/◌, String, ◌≡◌, ◌≢◌, ◌⊎◌, ◌==◌, refl, List, ◌∷◌, none, some, arith, inl, inr,
  Bool-cases, false, ==-eq-false_of_ne,
}
use auth_login_load_balancin.Prelude.Int.{ℤ, pos, negsuc, ltb_ℤ}
use auth_login_load_balancin.Prelude.Exec.{ok}
use auth_login_load_balancin.Go.Strings.{trim_space}
use auth_login_load_balancin.Go.Strings.Split.{split}
use auth_login_load_balancin.Go.Strconv.{itoa}
use auth_login_load_balancin.Go.Time
use auth_login_load_balancin.Platform.{Platform, World}
use auth_login_load_balancin.Platform.Laws.{CounterView, CounterLaws}
use auth_login_load_balancin.Service.RateLimit.{RateLimitResult, allow}
use auth_login_load_balancin.Service.RateLimit.Counted.{Counted, allow-Counted}
use auth_login_load_balancin.Http.{Request, Reply, Handler, set_header, attend}
use auth_login_load_balancin.Http.Headers
use auth_login_load_balancin.Http.Library.{Web}
use auth_login_load_balancin.Middleware.Response.{write_error}
use auth_login_load_balancin.Middleware.Guards.{
  forwarded_address, rate_limit, rate_limit_identifier, format_retry_after,
}

-- The proxies name no address, or a blank one first.
abbrev pub Unproxied : Request → Type 0
Unproxied r =
    (trim_space (Headers.get "X-Forwarded-For" r.header) ≡ "")
    ⊎ ((first : String) × (others : List String) × (split
            (trim_space (Headers.get "X-Forwarded-For" r.header)) b','
          ≡ first ∷ others)
        × (trim_space first ≡ ""))

forwarded_address-Unproxied : (r : Request) → Unproxied r → forwarded_address r ≡ ""
unfolding forwarded_address
forwarded_address-Unproxied r (inl blank) = rw blank refl
forwarded_address-Unproxied r (inr (first, others, parts, blank)) =
    elim (Bool-cases (trim_space (Headers.get "X-Forwarded-For" r.header) == "")) [
      | inl e ↦ rw e refl
      | inr e ↦ rw e (rw parts blank)
    ]

-- The client that a request is counted for: the first of the addresses that the proxies name; where
-- they name none, the host of the remote address, or the whole of it where it has no host, and
-- "unknown" where it is blank too.
pub record IsClient {W : Type 0} (web : Web W) (r : Request) (client : String) : Type 0 where
  pub proxied :
      (first : String) (others : List String)
      → trim_space (Headers.get "X-Forwarded-For" r.header) ≢ ""
      → split (trim_space (Headers.get "X-Forwarded-For" r.header)) b',' ≡ first ∷ others
      → trim_space first ≢ ""
      → client ≡ trim_space first
  pub direct :
      (host : String)
      → Unproxied r
      → trim_space r.remote_addr ≢ ""
      → web.split_host_port (trim_space r.remote_addr) ≡ some host
      → host ≢ ""
      → client ≡ host
  pub bare :
      Unproxied r
      → trim_space r.remote_addr ≢ ""
      → (web.split_host_port (trim_space r.remote_addr) ≡ none)
        ⊎ (web.split_host_port (trim_space r.remote_addr) ≡ some "")
      → client ≡ trim_space r.remote_addr
  pub unknown : Unproxied r → trim_space r.remote_addr ≡ "" → client ≡ "unknown"

forwarded_address-first :
    (r : Request) (first : String) (others : List String)
    → trim_space (Headers.get "X-Forwarded-For" r.header) ≢ ""
    → split (trim_space (Headers.get "X-Forwarded-For" r.header)) b',' ≡ first ∷ others
    → forwarded_address r ≡ trim_space first
unfolding forwarded_address
forwarded_address-first r first others forwarded parts =
    rw (==-eq-false_of_ne _ _ forwarded) (rw parts refl)

-- The whole seconds of a duration that is not negative, and at least one.
pub record Waits (d : ℤ) (s : ℕ) : Type 0 where
  pub nanoseconds : ℕ
  pub lasts : d ≡ pos nanoseconds
  pub at_least : 1 ≤ s
  pub seconds : (s ≡ nanoseconds / Time.second) ⊎ ((s ≡ 1) × (nanoseconds < Time.second))

format_retry_after-Waits :
    (d : ℤ) → ltb_ℤ d (pos 0) ≡ false → (s : ℕ) × Waits d s × (format_retry_after d ≡ itoa (pos s))
unfolding format_retry_after
format_retry_after-Waits (negsuc n) h = absurd (ground (arith, h))
format_retry_after-Waits (pos n) h = elim (Bool-cases (ltb_ℤ (pos (n / Time.second)) (pos 1))) [
  | inl short ↦ (
    1,
    record {
      nanoseconds = n;
      lasts = refl;
      at_least = omega arith;
      seconds = inr (refl, ground (arith, short));
    },
    rw short refl,
  )
  | inr long ↦ (
    n / Time.second,
    record { nanoseconds = n; lasts = refl; at_least = ground (arith, long); seconds = inl refl },
    rw long refl,
  )
]

module _ {S D O : Type 0} (p : Platform S D O) (web : Web (World S D O)) where
  rate_limit_identifier-IsClient : (r : Request) → IsClient web r (rate_limit_identifier p web r)
  unfolding rate_limit_identifier
  rate_limit_identifier-IsClient r = record {
    proxied = λ first others forwarded parts filled.
        let named = forwarded_address-first r first others forwarded parts in
        rw named (rw (==-eq-false_of_ne _ _ filled) refl);
    direct = λ host alone remote splits filled.
        rw (forwarded_address-Unproxied r alone)
          (rw (==-eq-false_of_ne _ _ remote) (rw splits (rw (==-eq-false_of_ne _ _ filled) refl)));
    bare = λ alone remote splits. elim splits [
      | inl fails ↦
          rw (forwarded_address-Unproxied r alone)
            (rw (==-eq-false_of_ne _ _ remote) (rw fails refl))
      | inr no_host ↦
          rw (forwarded_address-Unproxied r alone)
            (rw (==-eq-false_of_ne _ _ remote) (rw no_host refl))
    ];
    unknown = λ alone remote. rw (forwarded_address-Unproxied r alone) (rw remote refl);
  }

module _ {S D O : Type 0} (p : Platform S D O) (v : CounterView S) (l : CounterLaws p.redis v)
    (web : Web (World S D O)) where
  -- For a limit and a window that are not negative, where Allow does not fail, RateLimit counts the
  -- request for its client: the first address that the proxies name, or else the host of the remote
  -- address, or the whole of it, or "unknown" where it is blank. It is the next request of the scope
  -- and client or the first of a new window, it is stored as such, and the counters of the
  -- scope for other clients are as before, or have expired. The handler is called exactly when the count is within the limit;
  -- otherwise the answer is 429, with the whole seconds to the reset, at least one, in Retry-After.
  pub rate_limit-Counted :
      (scope : String) (limit window : ℕ) (next : Handler (World S D O)) (r : Request)
      (a : Reply (World S D O)) {result : RateLimitResult} {t : World S D O}
      → limit < 2 ^ 63
      → allow p scope (rate_limit_identifier p web r) (pos limit) (pos window) a.world
        ≡ (ok result, t)
      → (n s : ℕ) × (client : String) × IsClient web r client
        × Counted v scope client limit window a.world.cache t.cache n result
        × Waits result.reset_in s
        × (n ≤ limit
            → rate_limit p web scope (pos limit) (pos window) next r a
              ≡ next r (record a { world = t }))
        × (limit < n
            → rate_limit p web scope (pos limit) (pos window) next r a
              ≡ write_error web r 429 "rate_limit_exceeded"
                  "too many requests, please try again later"
                  (set_header "Retry-After" (itoa (pos s)) (record a { world = t })))
  unfolding rate_limit attend
  rate_limit-Counted scope limit window next r a {result} {t} small h =
      let (n, counted) =
        allow-Counted p v l scope (rate_limit_identifier p web r) limit window a.world small h in
      let (s, waits, text) = format_retry_after-Waits result.reset_in counted.resets in
      (
        n,
        s,
        rate_limit_identifier p web r,
        rate_limit_identifier-IsClient p web r,
        counted,
        waits,
        λ within. rw h (rw (counted.allowed.1 within) refl),
        λ over. elim (Bool-cases result.allowed) [
          | inl lets ↦ absurd (omega (arith, counted.allowed.0 lets, over))
          | inr refuses ↦ rw h (rw refuses (rw text refl))
        ],
      )
