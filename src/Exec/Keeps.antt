-- ===== src/Exec/Keeps.antt =====
-- Methods that keep a property of the state, whether they succeed or fail: one rule for each way to
-- build a method.
use retrack.Prelude.{Bool, true, false, if◌then◌else◌, List, [], ◌∷◌}
use retrack.Error.{Error, Result, ok, err}
use retrack.Exec.{Exec, pure, bail, lift, gets, for_each, ◌>>=◌}

pub record Keeps {S A : Type 0} (P : S → Type 0) (m : Exec S A) : Type 0 where
  pub at : (s : S) → P s → P (m s).1

module _ {S A : Type 0} {P : S → Type 0} where
  pub Keeps-pure : (a : A) → Keeps P (pure {S = S} a)
  Keeps-pure a = record { at = λ s h. h }

  pub Keeps-bail : (e : Error) → Keeps P (bail {S = S} {A = A} e)
  Keeps-bail e = record { at = λ s h. h }

  pub Keeps-lift : (r : Result A) → Keeps P (lift {S = S} r)
  Keeps-lift r = record { at = λ s h. h }

  pub Keeps-gets : (f : S → A) → Keeps P (gets f)
  Keeps-gets f = record { at = λ s h. h }

  pub Keeps-if : (b : Bool) (m n : Exec S A) → Keeps P m → Keeps P n → Keeps P (if b then m else n)
  Keeps-if true m n km kn = km
  Keeps-if false m n km kn = kn

module _ {S A B : Type 0} {P : S → Type 0} where
  Keeps-continue :
      (r : Result A) (f : A → Exec S B) → ((a : A) → Keeps P (f a)) → Keeps P (lift r >>= f)
  Keeps-continue (ok a) f kf = kf a
  Keeps-continue (err e) f kf = Keeps-bail e

  pub Keeps-bind :
      (m : Exec S A) (f : A → Exec S B) → Keeps P m → ((a : A) → Keeps P (f a)) → Keeps P (m >>= f)
  Keeps-bind m f km kf = record {
    at = λ s h. let (r, s') = m s in (Keeps-continue r f kf).at s' (km.at s h);
  }

module _ {S A : Type 0} {P : S → Type 0} where
  pub Keeps-for_each :
      (body : A → Exec S Unit)
      → ((a : A) → Keeps P (body a))
      → (xs : List A) → Keeps P (for_each body xs)
  unfolding for_each
  Keeps-for_each body k [] = record { at = λ s h. h }
  Keeps-for_each body k (x ∷ xs) =
      Keeps-bind (body x) (λ _. for_each body xs) (k x) (λ _. Keeps-for_each body k xs)

pub ruleset keeps_rules = (Keeps-pure, Keeps-bail, Keeps-lift, Keeps-gets, Keeps-if, Keeps-bind)
