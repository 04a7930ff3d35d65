-- ===== src/Base/Results.antt =====
-- Exceptions as values, with `do`.
use mathlib.Core.Path.{◌≡◌, refl, subst}
use mathlib.Core.Bool.{Bool, true, false}
use mathlib.Core.Logic.{◌⊎◌, inl, inr}
use ndn_svs.Base.Tests.{if◌then◌else◌}

-- The exception types that the code throws and tells apart in its texts.
pub data Error : Type 0 where
  invalid_argument out_of_range tlv_error vector_error codec_error : Error
  length_error logic_error runtime_error store_error : Error

pub data Result {ℓ} (A : Type ℓ) : Type ℓ where
  ok : A → Result A
  err : Error → Result A

-- `if (b) throw e;`
abbrev pub throw_if : Bool → Error → Result (Unit {0})
throw_if true e = err e
throw_if false e = ok tt

infixl 5 ◌>>=◌ ◌>>◌
-- the code behind a call runs on its value, unless it threw
abbrev pub ◌>>=◌ {κ ℓ} : {B : Type κ} {A : Type ℓ} → Result B → (B → Result A) → Result A
err thrown >>= next = err thrown
ok value >>= next = next value

abbrev pub ◌>>◌ {κ} : {A : Type κ} → Result (Unit {0}) → Result A → Result A
first >> next = first >>= λ u. next

-- what holds of the value, should there be one
abbrev pub Ensures {ℓ κ} : {A : Type ℓ} → (A → Type κ) → Result A → Type κ
Ensures P (ok a) = P a
Ensures P (err e) = Unit

pub Ensures-bind {ℓ κ μ} :
    {A : Type ℓ} {B : Type κ} (P : A → Type μ) (Q : B → Type μ) (r : Result A) (f : A → Result B)
    → Ensures P r
    → ((a : A) → P a → Ensures Q (f a))
    → Ensures Q (r >>= f)
Ensures-bind P Q (ok a) f p h = h a p
Ensures-bind P Q (err e) f p h = tt

-- a value of which nothing is known
pub Ensures-any {ℓ κ μ} :
    {A : Type ℓ} {B : Type κ} (Q : B → Type μ) (r : Result A) (f : A → Result B)
    → ((a : A) → Ensures Q (f a))
    → Ensures Q (r >>= f)
Ensures-any Q (ok a) f h = h a
Ensures-any Q (err e) f h = tt

pub Ensures-throw_if {κ μ} :
    {B : Type κ} (Q : B → Type μ) (b : Bool) (e : Error) (k : Result B)
    → ((b ≡ false) → Ensures Q k)
    → Ensures Q (throw_if b e >> k)
Ensures-throw_if Q true e k h = tt
Ensures-throw_if Q false e k h = h refl

pub Ensures-ok {ℓ μ} :
    {A : Type ℓ} (Q : A → Type μ) (r : Result A) (a : A) → Ensures Q r → r ≡ ok a → Q a
Ensures-ok Q (ok b) a q e = let same : b ≡ a = cc in subst Q same q
Ensures-ok Q (err x) a q e = cc

-- a call that returns a value has passed each of its steps
pub bind-ok {ℓ κ} :
    {A : Type ℓ} {B : Type κ} (r : Result A) (f : A → Result B) (b : B)
    → (r >>= f) ≡ ok b
    → (a : A) × (r ≡ ok a) × (f a ≡ ok b)
bind-ok (ok a) f b h = (a, refl, h)
bind-ok (err e) f b h = cc

-- what holds of the value on both sides of a test
pub Ensures-if {κ μ} :
    {B : Type κ} (Q : B → Type μ) (b : Bool) (x y : Result B)
    → ((b ≡ true) → Ensures Q x)
    → ((b ≡ false) → Ensures Q y)
    → Ensures Q (if b then x else y)
Ensures-if Q true x y f g = f refl
Ensures-if Q false x y f g = g refl

-- the value is the one that was returned
pub returns_itself {ℓ} : {A : Type ℓ} (r : Result A) → Ensures (λ a. r ≡ ok a) r
returns_itself (ok a) = refl
returns_itself (err e) = tt

pub Ensures-map {ℓ κ μ} :
    {A : Type ℓ} {P : A → Type κ} {Q : A → Type μ} (f : (a : A) → P a → Q a) (r : Result A)
    → Ensures P r
    → Ensures Q r
Ensures-map f (ok a) p = f a p
Ensures-map f (err e) p = tt

pub Result-cases : (r : Result (Unit {0})) → (r ≡ ok tt) ⊎ ((e : Error) × (r ≡ err e))
Result-cases (ok u) = inl refl
Result-cases (err e) = inr (e, refl)
