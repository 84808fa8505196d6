-- ===== src/Prelude/Exec.antt =====
-- Computations that change a state and may return an error: Go's `(T, error)`. What was written
-- before an error stays written, so the state comes back beside the error too.
pub mod Keeps
pub mod Fails
use mathlib.Core.Path.{◌≡◌, refl}
use mathlib.Core.Logic.{◌⊎◌, inl, inr}
use mathlib.Core.List.{List, [], ◌∷◌}
use auth_login_load_balancin.Errors.{Error}

pub data Result {ℓ} (A : Type ℓ) : Type ℓ where
  ok : A → Result A
  err : Error → Result A

abbrev pub Exec : Type 0 → Type 0 → Type 0
Exec S A = S → Result A × S

module _ {S A : Type 0} where
  pub pure : A → Exec S A
  pure a s = (ok a, s)

  pub raise : Error → Exec S A
  raise e s = (err e, s)

  -- A call that has no effect.
  pub lift : Result A → Exec S A
  lift r s = (r, s)

  abbrev pub rescued : Result A → (Error → Exec S A) → Exec S A
  rescued (ok a) h s = (ok a, s)
  rescued (err e) h s = h e s

  -- `if err != nil { … }` behind a call.
  unfoldable pub catch : Exec S A → (Error → Exec S A) → Exec S A
  unfolding pure raise lift
  catch m h s = let (r, s') = m s in rescued r h s'

-- A run of `m` with success, and of `f` after it.
pub data Ran {S A B : Type 0} (m : Exec S A) (f : A → Exec S B) (s : S) (end : Result B × S)
    : Type 0 where
  ran : (a : A) (t : S) → m s ≡ (ok a, t) → f a t ≡ end → Ran m f s end

module _ {S A B : Type 0} where
  abbrev pub continue : Result A → (A → Exec S B) → Exec S B
  continue (ok a) f s = f a s
  continue (err e) f s = (err e, s)

  infixl 10 ◌>>=◌ ◌>>◌
  -- Opening this opens `pure`, `raise` and `lift` too.
  unfoldable pub ◌>>=◌ : Exec S A → (A → Exec S B) → Exec S B
  unfolding pure raise lift
  ◌>>=◌ m f s = let (r, s') = m s in continue r f s'

  abbrev pub ◌>>◌ : Exec S A → Exec S B → Exec S B
  m >> n = m >>= λ _. n

  -- A successful sequence has a successful first part, and a second that succeeds after it.
  pub >>=-eq-ok :
      (m : Exec S A) (f : A → Exec S B) (s : S) {b : B} {s' : S}
      → (m >>= f) s ≡ (ok b, s')
      → Ran m f s (ok b, s')
  unfolding ◌>>=◌
  >>=-eq-ok m f s h = continue-eq-ok (m s).0 (m s).1 refl h
    where
      continue-eq-ok :
          (r : Result A) (t : S) {b : B} {s' : S}
          → m s ≡ (r, t)
          → continue r f t ≡ (ok b, s')
          → Ran m f s (ok b, s')
      continue-eq-ok (ok a) t e h = ran a t e h
      continue-eq-ok (err x) t e h = cc

  -- A failed sequence fails in its first part, or in the second after a successful first.
  pub >>=-eq-err :
      (m : Exec S A) (f : A → Exec S B) (s : S) {e : Error} {s' : S}
      → (m >>= f) s ≡ (err e, s')
      → (m s ≡ (err e, s')) ⊎ ((a : A) × (t : S) × (m s ≡ (ok a, t)) × (f a t ≡ (err e, s')))
  unfolding ◌>>=◌
  >>=-eq-err m f s h = continue-eq-err (m s).0 (m s).1 refl h
    where
      continue-eq-err :
          (r : Result A) (t : S) {e : Error} {s' : S}
          → m s ≡ (r, t)
          → continue r f t ≡ (err e, s')
          → (m s ≡ (err e, s')) ⊎ ((a : A) × (t' : S) × (m s ≡ (ok a, t')) × (f a t' ≡ (err e, s')))
      continue-eq-err (ok a) t q h = inr (a, t, q, h)
      continue-eq-err (err x) t q h = inl (cc)

  -- What holds after each way in which the first part can end holds after the sequence.
  pub >>=-then :
      (P : S → Type 0) (m : Exec S A) (f : A → Exec S B) (s : S)
      → ((a : A) (t : S) → m s ≡ (ok a, t) → P (f a t).1)
      → ((e : Error) (t : S) → m s ≡ (err e, t) → P t)
      → P ((m >>= f) s).1
  unfolding ◌>>=◌
  >>=-then P m f s good bad = continue-then (m s).0 (m s).1 refl
    where
      continue-then : (r : Result A) (t : S) → m s ≡ (r, t) → P (continue r f t).1
      continue-then (ok a) t e = good a t e
      continue-then (err x) t e = bad x t e

  -- The sequence after a first part whose outcome is known.
  pub >>=_after_ok :
      (m : Exec S A) (f : A → Exec S B) {s t : S} {a : A} → m s ≡ (ok a, t) → (m >>= f) s ≡ f a t
  unfolding ◌>>=◌
  >>=_after_ok m f e = rw e

  pub >>=_after_err :
      (m : Exec S A) (f : A → Exec S B) {s t : S} {e : Error}
      → m s ≡ (err e, t)
      → (m >>= f) s ≡ (err e, t)
  unfolding ◌>>=◌
  >>=_after_err m f e = rw e

module _ {S A : Type 0} where
  pub pure-eq-ok : (a : A) (s : S) {b : A} {s' : S} → pure a s ≡ (ok b, s') → (a ≡ b) × (s ≡ s')
  unfolding pure
  pure-eq-ok a s h = (cc, cc)

  pub lift-eq-ok :
      (r : Result A) (s : S) {b : A} {s' : S} → lift r s ≡ (ok b, s') → (r ≡ ok b) × (s ≡ s')
  unfolding lift
  lift-eq-ok r s h = (cc, cc)

  pub lift-eq-err :
      (r : Result A) (s : S) {e : Error} {s' : S} → lift r s ≡ (err e, s') → (r ≡ err e) × (s ≡ s')
  unfolding lift
  lift-eq-err r s h = (cc, cc)

  pub pure-ne-err : (a : A) (s : S) {e : Error} {s' : S} → pure a s ≡ (err e, s') → ⊥
  unfolding pure
  pure-ne-err a s h = cc

  pub raise-eq-err :
      (x : Error) (s : S) {e : Error} {s' : S}
      → raise {A = A} x s ≡ (err e, s')
      → (x ≡ e) × (s ≡ s')
  unfolding raise
  raise-eq-err x s h = (cc, cc)

  pub raise-ne-ok : (e : Error) (s : S) {b : A} {s' : S} → raise e s ≡ (ok b, s') → ⊥
  unfolding raise
  raise-ne-ok e s h = cc

  -- A guarded call succeeds by itself or through its handler.
  pub catch-eq-ok :
      (m : Exec S A) (h : Error → Exec S A) (s : S) {b : A} {s' : S}
      → catch m h s ≡ (ok b, s')
      → (m s ≡ (ok b, s')) ⊎ ((e : Error) × (t : S) × (m s ≡ (err e, t)) × (h e t ≡ (ok b, s')))
  unfolding catch
  catch-eq-ok m h s q = rescued-eq-ok (m s).0 (m s).1 refl q
    where
      rescued-eq-ok :
          (r : Result A) (t : S) {b : A} {s' : S}
          → m s ≡ (r, t)
          → rescued r h t ≡ (ok b, s')
          → (m s ≡ (ok b, s')) ⊎ ((e : Error) × (t : S) × (m s ≡ (err e, t)) × (h e t ≡ (ok b, s')))
      rescued-eq-ok (ok a) t e q = inl (cc)
      rescued-eq-ok (err x) t e q = inr (x, t, e, q)

  -- A guarded call fails only in its handler.
  pub catch-eq-err :
      (m : Exec S A) (h : Error → Exec S A) (s : S) {e : Error} {s' : S}
      → catch m h s ≡ (err e, s')
      → (x : Error) × (t : S) × (m s ≡ (err x, t)) × (h x t ≡ (err e, s'))
  unfolding catch
  catch-eq-err m h s q = rescued-eq-err (m s).0 (m s).1 refl q
    where
      rescued-eq-err :
          (r : Result A) (t : S) {e : Error} {s' : S}
          → m s ≡ (r, t)
          → rescued r h t ≡ (err e, s')
          → (x : Error) × (t' : S) × (m s ≡ (err x, t')) × (h x t' ≡ (err e, s'))
      rescued-eq-err (ok a) t e q = cc
      rescued-eq-err (err x) t e q = (x, t, e, q)

  pub catch_after_ok :
      (m : Exec S A) (h : Error → Exec S A) {s t : S} {a : A}
      → m s ≡ (ok a, t)
      → catch m h s ≡ (ok a, t)
  unfolding catch
  catch_after_ok m h e = rw e

  pub catch_after_err :
      (m : Exec S A) (h : Error → Exec S A) {s t : S} {e : Error}
      → m s ≡ (err e, t)
      → catch m h s ≡ h e t
  unfolding catch
  catch_after_err m h e = rw e

-- `for _, x := range xs { … return err }`
module _ {S A : Type 0} where
  unfoldable pub for_each : List A → (A → Exec S (Unit {0})) → Exec S (Unit {0})
  for_each [] f = pure tt
  for_each (x ∷ xs) f = f x >> for_each xs f
