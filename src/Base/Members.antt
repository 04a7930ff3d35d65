-- ===== src/Base/Members.antt =====
-- Whether a list has a key, and lists without a repeated key.
use mathlib.Core.Path.{◌≡◌, refl, sym, ap, subst, ◌∙◌}
use mathlib.Core.Bool.{Bool, true, false, ◌||◌}
use mathlib.Core.List.{List, [], ◌∷◌, ◌++◌, reverse, reverse-cons}
use native.Mathlib.Omega.{arith}
use ndn_svs.Base.Tests.{Ord, ◌==◌, ==_iff}
use ndn_svs.Base.Lists.{All}

All-elem_at {ℓ κ} :
    {K : Type ℓ} ⦃o : Ord K⦄ (P : K → Type κ) (q x : K) (rest b : Bool)
    → (q == x) ≡ b
    → P x
    → (rest ≡ true → P q)
    → (b || rest) ≡ true
    → P q
All-elem_at P q x rest true h p f e = subst P (sym ((==_iff q x).0 h)) p
All-elem_at P q x rest false h p f e = f e

module _ {ℓ} {K : Type ℓ} ⦃o : Ord K⦄ where
  unfoldable pub elem : K → List K → Bool
  elem q [] = false
  elem q (x ∷ xs) = (q == x) || elem q xs

  pub elem-append : (q : K) (xs ys : List K) → elem q (xs ++ ys) ≡ (elem q xs || elem q ys)
  unfolding elem
  elem-append q [] ys = refl
  elem-append q (x ∷ xs) ys = ground (arith, elem-append q xs ys)

  pub elem-reverse : (q : K) (xs : List K) → elem q (reverse xs) ≡ elem q xs
  unfolding elem
  elem-reverse q [] = refl
  elem-reverse q (x ∷ xs) =
      ap (elem q) (reverse-cons x xs)
      ∙ elem-append q (reverse xs) (x ∷ [])
      ∙ ground (arith, elem-reverse q xs)

  abbrev pub Distinct : List K → Type 0
  Distinct [] = Unit
  Distinct (x ∷ xs) = (elem x xs ≡ false) × Distinct xs

  pub All-elem {κ} : (P : K → Type κ) (q : K) (xs : List K) → All P xs → elem q xs ≡ true → P q
  unfolding elem
  All-elem P q [] h e = cc
  All-elem P q (x ∷ xs) h e =
      All-elem_at P q x (elem q xs) (q == x) refl h.0 (All-elem P q xs h.1) e
