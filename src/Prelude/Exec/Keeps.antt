-- ===== src/Prelude/Exec/Keeps.antt =====
-- What a computation does to the state on every path, one rule for each way to build it: a
-- reflexive and transitive relation between the state before and the state after.
use auth_login_load_balancin.Prelude.Exec.{
  Result, ok, err, Exec, pure, raise, lift, catch, ◌>>=◌, for_each, continue, rescued,
}
use auth_login_load_balancin.Prelude.Tests.{if◌then◌else◌}
use auth_login_load_balancin.Errors.{Error}
use mathlib.Core.Path.{◌≡◌, ap, subst}
use mathlib.Core.Bool.{Bool, true, false}
use mathlib.Core.List.{List, [], ◌∷◌}

pub record IsPreorder {S : Type 0} (R : S → S → Type 0) : Type 0 where
  pub refl : (s : S) → R s s
  pub trans : (s t u : S) → R s t → R t u → R s u

pub record Keeps {S A : Type 0} (R : S → S → Type 0) (m : Exec S A) : Type 0 where
  pub at : (s : S) → R s (m s).1

module _ {S : Type 0} {R : S → S → Type 0} (p : IsPreorder R) where
  pub Keeps-pure : {A : Type 0} (a : A) → Keeps R (pure a)
  unfolding pure
  Keeps-pure a = record { at = λ s. p.refl s }

  pub Keeps-raise : {A : Type 0} (e : Error) → Keeps R (raise {A = A} e)
  unfolding raise
  Keeps-raise e = record { at = λ s. p.refl s }

  pub Keeps-lift : {A : Type 0} (r : Result A) → Keeps R (lift r)
  unfolding lift
  Keeps-lift r = record { at = λ s. p.refl s }

  pub Keeps-bind :
      {A B : Type 0} (m : Exec S A) (f : A → Exec S B)
      → Keeps R m
      → ((a : A) → Keeps R (f a))
      → Keeps R (m >>= f)
  unfolding ◌>>=◌
  Keeps-bind {A} {B} m f km kf = record { at = λ s. p.trans s _ _ (km.at s) (go (m s).0 (m s).1) }
    where
      go : (r : Result A) (t : S) → R t (continue r f t).1
      go (ok a) t = (kf a).at t
      go (err e) t = p.refl t

  pub Keeps-catch :
      {A : Type 0} (m : Exec S A) (h : Error → Exec S A)
      → Keeps R m
      → ((e : Error) → Keeps R (h e))
      → Keeps R (catch m h)
  unfolding catch
  Keeps-catch {A} m h km kh = record { at = λ s. p.trans s _ _ (km.at s) (go (m s).0 (m s).1) }
    where
      go : (r : Result A) (t : S) → R t (rescued r h t).1
      go (ok a) t = p.refl t
      go (err e) t = (kh e).at t

  pub Keeps-for_each :
      {A : Type 0} (xs : List A) (f : A → Exec S (Unit {0}))
      → ((a : A) → Keeps R (f a))
      → Keeps R (for_each xs f)
  unfolding for_each
  Keeps-for_each [] f k = Keeps-pure tt
  Keeps-for_each (x ∷ xs) f k = Keeps-bind _ _ (k x) (λ _. Keeps-for_each xs f k)

pub Keeps-if :
    {S A : Type 0} {R : S → S → Type 0} (b : Bool) (m n : Exec S A)
    → Keeps R m
    → Keeps R n
    → Keeps R (if b then m else n)
Keeps-if true m n km kn = km
Keeps-if false m n km kn = kn

pub Keeps-after :
    {S A : Type 0} {R : S → S → Type 0} {m : Exec S A}
    → Keeps R m
    → (s : S) {r : Result A} {t : S} → m s ≡ (r, t)
    → R s t
Keeps-after {R} k s e = subst (λ u. R s u) (ap (λ u. u.1) e) (k.at s)
