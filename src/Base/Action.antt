-- ===== src/Base/Action.antt =====
-- Methods that change an object and may throw: what was written before a throw stays written.
use mathlib.Core.Path.{◌≡◌, refl}
use ndn_svs.Base.Results.{Error, Result, ok, err}

abbrev pub Action : Type 0 → Type 0 → Type 0
Action S A = S → Result A × S

module _ {S : Type 0} where
  abbrev pub done : Action S (Unit {0})
  done s = (ok tt, s)

  abbrev pub return : {A : Type 0} → A → Action S A
  return a s = (ok a, s)

  abbrev pub throw : {A : Type 0} → Error → Action S A
  throw e s = (err e, s)

  -- a fallible value inside a method
  abbrev pub lift : {A : Type 0} → Result A → Action S A
  lift r s = (r, s)

  abbrev pub gets : {A : Type 0} → (S → A) → Action S A
  gets f s = (ok (f s), s)

  abbrev pub modify : (S → S) → Action S (Unit {0})
  modify f s = (ok tt, f s)

  abbrev pub go_on : {A B : Type 0} → Result A → (A → Action S B) → Action S B
  go_on (ok a) f s = f a s
  go_on (err e) f s = (err e, s)

  infixl 5 ◌>>=◌ ◌>>◌
  abbrev pub ◌>>=◌ : {A B : Type 0} → Action S A → (A → Action S B) → Action S B
  ◌>>=◌ m f s = go_on (m s).0 f (m s).1

  abbrev pub ◌>>◌ : {B : Type 0} → Action S (Unit {0}) → Action S B → Action S B
  m >> k = m >>= λ _. k

  -- `try { m; } catch (...) { }`
  abbrev pub swallow : Action S (Unit {0}) → Action S (Unit {0})
  swallow m s = (ok tt, (m s).1)

-- What holds of the state before a method holds after it, whether it throws or not.
abbrev pub Keeps {ℓ} : {S A : Type 0} → (S → Type ℓ) → Action S A → Type ℓ
Keeps {S = S} P m = (s : S) → P s → P (m s).1

module _ {ℓ} {S : Type 0} (P : S → Type ℓ) where
  Keeps-go_on :
      {A B : Type 0} (r : Result A) (f : A → Action S B) (s : S)
      → P s
      → ((a : A) → r ≡ ok a → P (f a s).1)
      → P (go_on r f s).1
  Keeps-go_on (ok a) f s p h = h a refl
  Keeps-go_on (err e) f s p h = p

  pub Keeps-bind :
      {A B : Type 0} (m : Action S A) (f : A → Action S B)
      → Keeps P m
      → ((a : A) → Keeps P (f a))
      → Keeps P (m >>= f)
  Keeps-bind m f k h s p = Keeps-go_on (m s).0 f (m s).1 (k s p) (λ a e. h a (m s).1 (k s p))

  pub Keeps-lift :
      {A B : Type 0} (r : Result A) (f : A → Action S B)
      → ((a : A) → r ≡ ok a → Keeps P (f a))
      → Keeps P (lift r >>= f)
  Keeps-lift r f h s p = Keeps-go_on r f s p (λ a e. h a e s p)
