-- ===== src/Service/RateLimit/Counted.antt =====
-- What Allow answers.
use Prim.Native.String.{◌++◌}
use text.Mathlib.TextLemmas.{append_cancel_left}
use auth_login_load_balancin.Prelude.{
  ℕ, suc, ◌-◌, ◌^◌, ◌≤◌, ◌<◌, String, ◌≡◌, ◌≢◌, ◌⊎◌, ◌∙◌, refl, some, nat_eq, if◌then◌else◌, ◌↔◌,
  true, false, arith, inl, inr, Bool-cases,
}
use auth_login_load_balancin.Prelude.Int.{pos, ltb_ℤ}
use auth_login_load_balancin.Prelude.Exec.{ok, ran, pure, >>=-eq-ok, pure-eq-ok}
use auth_login_load_balancin.Platform.{Platform, World, on_cache}
use auth_login_load_balancin.Platform.Laws.{CounterView, CounterLaws, LeftAlone}
use auth_login_load_balancin.Platform.Reads.{on_cache_eq}
use auth_login_load_balancin.Service.RateLimit.{
  RateLimitResult, rate_limit_key, remaining_of, allow,
}

-- The request was the n-th of the window of its scope and identifier, where at most `limit` are
-- allowed: the counter says so from now on until it expires, the first request has started the
-- window, and nobody else's counter has changed.
pub record Counted {S : Type 0} (v : CounterView S) (scope identifier : String) (limit window : ℕ)
    (s t : S) (n : ℕ) (r : RateLimitResult) : Type 0 where
  pub counts : (n ≡ suc (v.counter s (rate_limit_key scope identifier))) ⊎ (n ≡ 1)
  pub stored :
      (v.counter t (rate_limit_key scope identifier) ≡ n)
      ⊎ (v.counter t (rate_limit_key scope identifier) ≡ 0)
  pub starts :
      n ≡ 1
      → (v.window t (rate_limit_key scope identifier) ≡ some (pos window))
        ⊎ (v.counter t (rate_limit_key scope identifier) ≡ 0)
  pub others :
      (client : String) → client ≢ identifier → LeftAlone v s t (rate_limit_key scope client)
  pub allowed : (r.allowed ≡ true) ↔ (n ≤ limit)
  pub remaining : r.remaining ≡ pos (limit - n)
  pub resets : ltb_ℤ r.reset_in (pos 0) ≡ false

-- Different clients have different counters.
rate_limit_key_injective :
    (scope a b : String) → rate_limit_key scope a ≡ rate_limit_key scope b → a ≡ b
rate_limit_key_injective scope a b h =
    append_cancel_left ":" a b
      (append_cancel_left scope (":" ++ a) (":" ++ b) (append_cancel_left "auth:rate_limit:" _ _ h))

LeftAlone-trans :
    {S : Type 0} (v : CounterView S) (s t u : S) (k : String)
    → LeftAlone v s t k
    → LeftAlone v t u k
    → LeftAlone v s u k
LeftAlone-trans v s t u k a (inr gone) = inr gone
LeftAlone-trans v s t u k (inl (count, window)) (inl (same, also)) =
    inl (same ∙ count, also ∙ window)
LeftAlone-trans v s t u k (inr gone) (inl (same, _)) = inr (same ∙ gone)

remaining_of-eq :
    (limit n : ℕ) → limit < 2 ^ 63 → n < 2 ^ 63 → remaining_of (pos limit) n ≡ pos (limit - n)
remaining_of-eq limit n h k = ground (arith, h, k)

module _ {S D O : Type 0} (p : Platform S D O) (v : CounterView S) (l : CounterLaws p.redis v) where
  -- What the EXPIRE of the first request of a window does, and its absence for the others.
  record Started (key : String) (window n : ℕ) (s t : S) : Type 0 where
    kept : (v.counter t key ≡ v.counter s key) ⊎ (v.counter t key ≡ 0)
    starts : n ≡ 1 → (v.window t key ≡ some (pos window)) ⊎ (v.counter t key ≡ 0)
    others : (k : String) → k ≢ key → LeftAlone v s t k

  expire-Started :
      (key : String) (window n : ℕ) (w : World S D O) {t : World S D O}
      → (if nat_eq n 1 then on_cache (p.redis.expire key (pos window)) else pure tt) w ≡ (ok tt, t)
      → Started key window n w.cache t.cache
  expire-Started key window n w {t} h = elim (Bool-cases (nat_eq n 1)) [
    | inl first ↦
        let (at, others) = l.expire_ok key (pos window) w.cache (on_cache_eq _ (rw first at h)).0 in
        record {
          kept = elim at [ inl (same, _) ↦ inl same | inr gone ↦ inr gone ];
          starts = λ _. elim at [ inl (_, is) ↦ inl is | inr gone ↦ inr gone ];
          others = others;
        }
    | inr later ↦
        let (_, same) = pure-eq-ok _ w (rw later at h) in
        record {
          kept = inl (rw same refl);
          starts = λ one. absurd (ground (arith, later, one));
          others = λ k _. inl (rw same refl, rw same refl);
        }
  ]

  -- An Allow that reports success has counted the request: it is the next one of its scope and
  -- identifier, or the first of a new window; the counter of the scope and identifier has this number
  -- now, or has expired, the first request of a window has given it the window's duration, and the
  -- counters of other identifiers of the scope are as before, or have expired. For a limit and a
  -- window that are not negative, the request is allowed exactly when it is within the limit, the
  -- number of requests that remain is the rest of the limit, never negative, and the time to the reset
  -- is not negative.
  pub allow-Counted :
      (scope identifier : String) (limit window : ℕ) (w : World S D O) {r : RateLimitResult}
      {t : World S D O}
      → limit < 2 ^ 63
      → allow p scope identifier (pos limit) (pos window) w ≡ (ok r, t)
      → (n : ℕ) × Counted v scope identifier limit window w.cache t.cache n r
  unfolding allow
  allow-Counted scope identifier limit window w {r} {t} small h = elim (>>=-eq-ok _ _ w h) [
    | ran n t₁ counts h₁ ↦ elim (>>=-eq-ok _ _ t₁ h₁) [
      | ran _ t₂ expires h₂ ↦ elim (>>=-eq-ok _ _ t₂ h₂) [
        | ran ttl t₃ reads h₃ ↦
            let key = rate_limit_key scope identifier in
            let (answers, ends) = pure-eq-ok _ t₃ h₃ in
            let (next, fits, stored, others) = l.incr_ok _ _ (on_cache_eq _ counts).0 in
            let started = expire-Started key window n t₁ expires in
            let read : (j : String) → LeftAlone v t₂.cache t₃.cache j =
              rw (on_cache_eq _ reads).0 at (l.ttl_reads key t₂.cache) in
            rw (← answers, ← ends)
              (
                n,
                record {
                  counts = next;
                  stored = elim (read key) [
                    | inr gone ↦ inr gone
                    | inl (same, _) ↦ elim started.kept [
                      | inr gone ↦ inr (same ∙ gone)
                      | inl kept ↦ elim stored [
                        | inl is ↦ inl (same ∙ kept ∙ is)
                        | inr gone ↦ inr (same ∙ kept ∙ gone)
                      ]
                    ]
                  ];
                  starts = λ one. elim (read key) [
                    | inr gone ↦ inr gone
                    | inl (same, lasts) ↦ elim (started.starts one) [
                      | inl is ↦ inl (lasts ∙ is)
                      | inr gone ↦ inr (same ∙ gone)
                    ]
                  ];
                  others = λ client differ.
                      let apart : rate_limit_key scope client ≢ key =
                        λ e. differ (rate_limit_key_injective scope client identifier e) in
                      LeftAlone-trans v _ _ _ _
                        (LeftAlone-trans v _ _ _ _ (others _ apart) (started.others _ apart))
                        (read _);
                  allowed = ground arith;
                  remaining = remaining_of-eq limit n small fits;
                  resets = elim (Bool-cases (ltb_ℤ ttl (pos 0))) [
                    | inl never ↦ rw never (ground arith)
                    | inr some_time ↦ rw some_time some_time
                  ];
                },
              )
      ]
    ]
  ]
