-- ===== src/Action.antt =====
-- Methods on `&mut self` that may fail. An action returns its result and the object as it was left,
-- also beside an error: what was written before an early return stays written.
pub mod Mirroring
pub mod Keeping
use wagonet.Prelude.{◌≡◌, refl}
use wagonet.Errors.{Error, Boxed, Result, ok, err}

abbrev pub Action : Type 0 → Type 0 → Type 0
Action S A = S → Result Error A × S

-- The same for functions that return `Result<_, Box<dyn std::error::Error>>`.
abbrev pub BoxedAction : Type 0 → Type 0 → Type 0
BoxedAction S A = S → Result Boxed A × S

module _ {E S A : Type 0} where
  abbrev pub pure : A → S → Result E A × S
  pure a s = (ok a, s)

  abbrev pub raise : E → S → Result E A × S
  raise e s = (err e, s)

  abbrev pub lift : Result E A → S → Result E A × S
  lift r s = (r, s)

  abbrev pub gets : (S → A) → S → Result E A × S
  gets f s = (ok (f s), s)

  abbrev pub reads : (S → Result E A) → S → Result E A × S
  reads f s = (f s, s)

module _ {E S : Type 0} where
  abbrev pub modify : (S → S) → S → Result E (Unit {0}) × S
  modify f s = (ok tt, f s)

module _ {E S A B : Type 0} where
  abbrev pub proceed : (A → S → Result E B × S) → Result E A → S → Result E B × S
  proceed f (ok a) s = f a s
  proceed f (err e) s = (err e, s)

  infixl 10 ◌>>=◌ ◌>>◌
  abbrev pub ◌>>=◌ : (S → Result E A × S) → (A → S → Result E B × S) → S → Result E B × S
  ◌>>=◌ m f s = proceed f (m s).0 (m s).1

  abbrev pub ◌>>◌ : (S → Result E A × S) → (S → Result E B × S) → S → Result E B × S
  ◌>>◌ m n = m >>= λ _. n

module _ {S A : Type 0} where
  -- The result as a value: `match action.await`, or `let _ = action.await`.
  abbrev pub attempt : Action S A → Action S (Result Error A)
  attempt m s = (ok (m s).0, (m s).1)

module _ {S A B : Type 0} where
  -- What a successful sequence of two actions went through.
  pub >>=-eq-ok :
      (m : Action S A) (f : A → Action S B) (s : S) {b : B}
      → ((m >>= f) s).0 ≡ ok b
      → (a : A) × ((m s).0 ≡ ok a) × ((f a (m s).1).0 ≡ ok b)
  >>=-eq-ok m f s {b} e = split (m s).0 refl e
    where
      split :
          (r : Result Error A)
          → (m s).0 ≡ r
          → (proceed f r (m s).1).0 ≡ ok b
          → (a : A) × ((m s).0 ≡ ok a) × ((f a (m s).1).0 ≡ ok b)
      split (ok a) is e' = (a, is, e')
      split (err x) is e' = cc
