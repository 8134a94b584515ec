-- ===== src/Exec.antt =====
-- Methods that read and write the state and may fail. What was written before a failure stays
-- written: no method of the program opens a transaction.
pub mod Keeps
use retrack.Prelude.{◌≡◌, refl, List, [], ◌∷◌}
use retrack.Error.{Error, Result, ok, err}

abbrev pub Exec : Type 0 → Type 0 → Type 0
Exec S A = S → Result A × S

module _ {S A : Type 0} where
  abbrev pub pure : A → Exec S A
  pure a s = (ok a, s)

  abbrev pub bail : Error → Exec S A
  bail e s = (err e, s)

  abbrev pub lift : Result A → Exec S A
  lift r s = (r, s)

  abbrev pub gets : (S → A) → Exec S A
  gets f s = (ok (f s), s)

module _ {S A B : Type 0} where
  abbrev pub continue : Result A → (A → Exec S B) → Exec S B
  continue (ok a) f s = f a s
  continue (err e) f s = (err e, s)

  infixl 5 ◌>>=◌ ◌>>◌
  abbrev pub ◌>>=◌ : Exec S A → (A → Exec S B) → Exec S B
  m >>= f = λ s. let (r, s') = m s in continue r f s'

  abbrev pub ◌>>◌ : Exec S A → Exec S B → Exec S B
  m >> n = m >>= λ _. n

  -- A successful sequence is two successful parts.
  pub >>=-eq-ok :
      (m : Exec S A) (f : A → Exec S B) {b : B} (s : S)
      → ((m >>= f) s).0 ≡ ok b
      → (a : A) × ((m s).0 ≡ ok a) × ((f a (m s).1).0 ≡ ok b) × ((m >>= f) s ≡ f a (m s).1)
  >>=-eq-ok m f s h = let (r, s') = m s in split r s' h
    where
      split :
          (r : Result A) (s' : S) {b : B}
          → (continue r f s').0 ≡ ok b
          → (a : A) × (r ≡ ok a) × ((f a s').0 ≡ ok b) × (continue r f s' ≡ f a s')
      split (ok a) s' h = (a, refl, h, refl)
      split (err e) s' h = cc

module _ {S : Type 0} where
  abbrev pub modify : (S → S) → Exec S (Unit)
  modify f s = (ok tt, f s)

module _ {S A : Type 0} where
  -- `for x in xs { body(x)? }`
  unfoldable pub for_each : (A → Exec S (Unit)) → List A → Exec S (Unit)
  for_each body [] s = (ok tt, s)
  for_each body (x ∷ xs) s = let (r, s') = body x s in continue r (λ _. for_each body xs) s'
