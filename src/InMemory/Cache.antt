-- ===== src/InMemory/Cache.antt =====
-- A Redis in memory: a list of the texts, the latest first, and a list of the members of all sets.
use mathlib.Core.List.{Memᴰ}
use auth_login_load_balancin.Prelude.{
  ℕ, suc, ◌^◌, Bool, true, false, ltb, arith, String, ◌≡◌, ◌≢◌, refl, sym, ==-eq-false_of_ne, List,
  [], ◌∷◌, Option, none, some, inl, inr, ◌==◌, if◌then◌else◌, Bool-cases, eq_refl, ap, ◌∙◌,
}
use auth_login_load_balancin.Prelude.Exec.{Result, ok, err}
use auth_login_load_balancin.Prelude.Int.{ℤ, negsuc}
use auth_login_load_balancin.Errors.{other, Error, IsForeign, redis_nil}
use auth_login_load_balancin.Platform.{Command, set, sadd, Redis}
use auth_login_load_balancin.Platform.Laws.{
  CounterView, CounterLaws, LeftAlone, RedisView, RedisLaws, Applied, Queued, overwritten,
}

pub record Cache : Type 0 where
  pub texts : List (String × String)
  pub sets : List (String × String)
  pub counters : List (String × ℕ)
  pub windows : List (String × ℤ)

abbrev pub text_of : String → List (String × String) → Option String
text_of k [] = none
text_of k ((j, x) ∷ ts) = let rest = text_of k ts in if j == k then some x else rest

abbrev pub members_of : String → List (String × String) → List String
members_of k [] = []
members_of k ((j, m) ∷ ss) = let rest = members_of k ss in if j == k then m ∷ rest else rest

abbrev put : String → String → Cache → Cache
put k x s = record s { texts = (k, x) ∷ s.texts }

abbrev add_member : String → String → Cache → Cache
add_member k m s = record s { sets = (k, m) ∷ s.sets }

abbrev run : List Command → Cache → Cache
run [] s = s
run (set k x d ∷ cs) s = run cs (put k x s)
run (sadd k m ∷ cs) s = run cs (add_member k m s)

abbrev count_of : String → List (String × ℕ) → ℕ
count_of k [] = 0
count_of k ((j, n) ∷ cs) = let rest = count_of k cs in if j == k then n else rest

abbrev window_of : String → List (String × ℤ) → Option ℤ
window_of k [] = none
window_of k ((j, d) ∷ ds) = let rest = window_of k ds in if j == k then some d else rest

abbrev counted : Bool → String → ℕ → Cache → Result ℕ × Cache
counted true k n s = (ok n, record s { counters = (k, n) ∷ s.counters })
counted false k n s = (err (other "ERR increment or decrement would overflow"), s)

abbrev or_nil : Option String → Result String
or_nil none = err redis_nil
or_nil (some x) = ok x

abbrev pub redis : Redis Cache
redis = record {
  get = λ k s. (or_nil (text_of k s.texts), s);
  set = λ k x d s. (ok tt, put k x s);
  exec = λ cs s. (ok tt, run cs s);
  smembers = λ k s. (ok (members_of k s.sets), s);
  incr = λ k s. let n = suc (count_of k s.counters) in counted (ltb n (2 ^ 63)) k n s;
  expire = λ k d s. (ok tt, record s { windows = (k, d) ∷ s.windows });
  ttl = λ k s. (ok (negsuc 0), s);
}

abbrev pub view : RedisView Cache
view = record { value = λ s k. text_of k s.texts; member = λ s k m. Memᴰ m (members_of k s.sets) }

run-values :
    (cs : List Command) (s : Cache) (k : String)
    → view.value (run cs s) k ≡ overwritten cs k (view.value s k)
run-values [] s k = refl
run-values (set j x d ∷ cs) s k = run-values cs (put j x s) k
run-values (sadd j m ∷ cs) s k = run-values cs (add_member j m s) k

kept_under :
    (j n : String) (s : Cache) (k m : String)
    → view.member s k m
    → view.member (add_member j n s) k m
kept_under j n s k m h = elim (Bool-cases (j == k)) [
  | inl same ↦ rw same (Memᴰ.tail h)
  | inr differ ↦ rw differ h
]

run-kept :
    (cs : List Command) (s : Cache) (k m : String) → view.member s k m → view.member (run cs s) k m
run-kept [] s k m h = h
run-kept (set j x d ∷ cs) s k m h = run-kept cs (put j x s) k m h
run-kept (sadd j n ∷ cs) s k m h = run-kept cs (add_member j n s) k m (kept_under j n s k m h)

run-added :
    (cs : List Command) (s : Cache) (k m : String) → Queued k m cs → view.member (run cs s) k m
run-added [] s k m h = absurd h
run-added (set j x d ∷ cs) s k m h = run-added cs (put j x s) k m h
run-added (sadd j n ∷ cs) s k m (inr h) = run-added cs (add_member j n s) k m h
run-added (sadd j n ∷ cs) s k m (inl (same, is)) =
    run-kept cs (add_member j n s) k m (rw (same, is, eq_refl) (Memᴰ.head refl))

run-Applied : (cs : List Command) (s : Cache) → Applied view cs s (run cs s)
run-Applied cs s = record {
  values = λ k. inl (run-values cs s k);
  kept = run-kept cs s;
  added = run-added cs s;
}

overwritten-some :
    (cs : List Command) (k : String) (a b : Option String) {x : String}
    → overwritten cs k a ≡ some x
    → ((y : String) → a ≡ some y → b ≡ some y)
    → overwritten cs k b ≡ some x
overwritten-some [] k a b h e = e _ h
overwritten-some (sadd j n ∷ cs) k a b h e = overwritten-some cs k a b h e
overwritten-some (set j y d ∷ cs) k a b h e =
    overwritten-some cs k _ _ h
      (elim (Bool-cases (j == k)) [ inl same ↦ rw same (λ z q. q) | inr differ ↦ rw differ e ])

or_nil-ok : (o : Option String) {x : String} → or_nil o ≡ ok x → o ≡ some x
or_nil-ok none h = cc
or_nil-ok (some x) h = cc

or_nil-err : (o : Option String) → or_nil o ≡ err redis_nil → o ≡ none
or_nil-err none h = refl
or_nil-err (some x) h = cc

or_nil-IsForeign : (o : Option String) (e : Error) → or_nil o ≡ err e → IsForeign e
or_nil-IsForeign none e h = cc
or_nil-IsForeign (some x) e h = cc

pub laws : RedisLaws redis view
laws = record {
  get_text = λ k s {x} {t} h. or_nil-ok _ cc;
  get_nil = λ k s {t} h. rw (← (ap (λ q. q.1) h)) (or_nil-err _ (ap (λ q. q.0) h));
  get_foreign = λ k. record { at = λ s e t h. or_nil-IsForeign (text_of k s.texts) e cc };
  set_foreign = λ k x d. record { at = λ s e t h. cc };
  exec_foreign = λ cs. record { at = λ s e t h. cc };
  smembers_foreign = λ k. record { at = λ s e t h. cc };
  get_reads = λ k s. run-Applied [] s;
  set_writes = λ k x d s. inr (run-Applied (set k x d ∷ []) s);
  set_ok =
      λ k x d s {t} h. rw (← (ap (λ q. q.1) h)) (run-Applied (set k x d ∷ []) s, rw eq_refl refl);
  exec_writes = λ cs s. inr (run-Applied cs s);
  exec_ok = λ cs s {t} h. rw (← (ap (λ q. q.1) h)) (
    run-Applied cs s,
    λ k x q. run-values cs s k ∙ overwritten-some cs k none _ q (λ y r. absurd cc),
  );
  smembers_all = λ k m s {ms} {t} h at. let same : members_of k s.sets ≡ ms = cc in rw same at at;
  smembers_reads = λ k s. run-Applied [] s;
}

abbrev pub counter_view : CounterView Cache
counter_view = record {
  counter = λ s k. count_of k s.counters;
  window = λ s k. window_of k s.windows;
}

counted-eq-ok :
    (b : Bool) (k : String) (m : ℕ) (s : Cache) {n : ℕ} {t : Cache}
    → counted b k m s ≡ (ok n, t)
    → (b ≡ true) × (n ≡ m) × (record s { counters = (k, m) ∷ s.counters } ≡ t)
counted-eq-ok true k m s h = (refl, cc, cc)
counted-eq-ok false k m s h = absurd cc

counter-Elsewhere :
    (k : String) (n : ℕ) (s : Cache) (j : String)
    → j ≢ k
    → LeftAlone counter_view s (record s { counters = (k, n) ∷ s.counters }) j
counter-Elsewhere k n s j differ = inl (rw (==-eq-false_of_ne k j (λ e. differ (sym e))) refl, refl)

window-Elsewhere :
    (k : String) (d : ℤ) (s : Cache) (j : String)
    → j ≢ k
    → LeftAlone counter_view s (record s { windows = (k, d) ∷ s.windows }) j
window-Elsewhere k d s j differ = inl (refl, rw (==-eq-false_of_ne k j (λ e. differ (sym e))) refl)

pub counter-laws : CounterLaws redis counter_view
counter-laws = record {
  incr_ok = λ k s {n} {t} h.
      let m = suc (counter_view.counter s k) in
      let (fits, is, ends) = counted-eq-ok (ltb m (2 ^ 63)) k m s h in
      (
        inl is,
        ground (arith, fits, is),
        inl (rw (← ends, is, eq_refl k) refl),
        λ j differ. rw (← ends) (counter-Elsewhere k m s j differ),
      );
  expire_ok = λ k d s {t} h.
      let ends : record s { windows = (k, d) ∷ s.windows } ≡ t = cc in
      (
        inl (rw (← ends) refl, rw (← ends, eq_refl k) refl),
        λ j differ. rw (← ends) (window-Elsewhere k d s j differ),
      );
  ttl_reads = λ k s j. inl (refl, refl);
}
