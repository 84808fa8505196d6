-- ===== src/Prelude/Exec/Fails.antt =====
-- The errors that a computation can return, one rule for each way to build it.
use mathlib.Core.Path.{◌≡◌, subst}
use mathlib.Core.Logic.{inl, inr}
use mathlib.Core.Bool.{Bool, true, false}
use mathlib.Core.List.{List, [], ◌∷◌}
use auth_login_load_balancin.Errors.{Error, IsForeign}
use auth_login_load_balancin.Prelude.Tests.{if◌then◌else◌}
use auth_login_load_balancin.Prelude.Exec.{
  Result, err, Exec, pure, raise, lift, catch, ◌>>=◌, for_each, pure-ne-err, raise-eq-err,
  lift-eq-err, >>=-eq-err, catch-eq-err,
}

pub record FailsWith {S A : Type 0} (P : Error → Type 0) (m : Exec S A) : Type 0 where
  pub at : (s : S) (e : Error) (t : S) → m s ≡ (err e, t) → P e

-- The calls of the servers and libraries.
abbrev pub Foreign : {S A : Type 0} → Exec S A → Type 0
Foreign m = FailsWith IsForeign m

module _ {S A : Type 0} {P : Error → Type 0} where
  pub FailsWith-pure : (a : A) → FailsWith P (pure {S = S} a)
  FailsWith-pure a = record { at = λ s e t h. absurd (pure-ne-err a s h) }

  pub FailsWith-raise : (e : Error) → P e → FailsWith P (raise {S = S} {A = A} e)
  FailsWith-raise e h = record { at = λ s x t q. subst P (raise-eq-err e s q).0 h }

  pub FailsWith-lift :
      (r : Result A) → ((e : Error) → r ≡ err e → P e) → FailsWith P (lift {S = S} r)
  FailsWith-lift r h = record { at = λ s e t q. h e (lift-eq-err r s q).0 }

  pub FailsWith-if :
      (b : Bool) (m n : Exec S A) → FailsWith P m → FailsWith P n → FailsWith P (if b then m else n)
  FailsWith-if true m n km kn = km
  FailsWith-if false m n km kn = kn

  -- A handler is asked only about the errors of the call that it guards.
  pub FailsWith-catch :
      (Q : Error → Type 0) (m : Exec S A) (h : Error → Exec S A)
      → FailsWith Q m
      → ((e : Error) → Q e → FailsWith P (h e))
      → FailsWith P (catch m h)
  FailsWith-catch Q m h km kh = record {
    at = λ s e t q.
        let (x, u, failed, rescued) = catch-eq-err m h s q in
        (kh x (km.at s x u failed)).at u e t rescued;
  }

module _ {S A B : Type 0} {P : Error → Type 0} where
  pub FailsWith-bind :
      (m : Exec S A) (f : A → Exec S B)
      → FailsWith P m
      → ((a : A) → FailsWith P (f a))
      → FailsWith P (m >>= f)
  FailsWith-bind m f km kf = record {
    at = λ s e t q. elim (>>=-eq-err m f s q) [
      | inl first ↦ km.at s e t first
      | inr (a, u, done, second) ↦ (kf a).at u e t second
    ];
  }

module _ {S A : Type 0} {P : Error → Type 0} where
  pub FailsWith-for_each :
      (xs : List A) (f : A → Exec S (Unit {0}))
      → ((a : A) → FailsWith P (f a))
      → FailsWith P (for_each xs f)
  unfolding for_each
  FailsWith-for_each [] f k = FailsWith-pure tt
  FailsWith-for_each (x ∷ xs) f k = FailsWith-bind _ _ (k x) (λ _. FailsWith-for_each xs f k)
