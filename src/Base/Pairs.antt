-- ===== src/Base/Pairs.antt =====
-- The order of `std::tuple`: by the first parts, then by the others.
use Prim.Native.Nat.{Ordering, lt, eq, gt}
use mathlib.Core.Path.{◌≡◌, refl, sym, ap, subst, ◌∙◌}
use mathlib.Core.Logic.{◌⊎◌, inl, inr}
use ndn_svs.Base.Tests.{Ord}

unfoldable pub then_by : Ordering → Ordering → Ordering
then_by lt d = lt
then_by eq d = d
then_by gt d = gt

then_by-eq : (c d : Ordering) → then_by c d ≡ eq → (c ≡ eq) × (d ≡ eq)
unfolding then_by
then_by-eq lt d h = cc
then_by-eq eq d h = (refl, h)
then_by-eq gt d h = cc

then_by-lt : (c d : Ordering) → then_by c d ≡ lt → (c ≡ lt) ⊎ ((c ≡ eq) × (d ≡ lt))
unfolding then_by
then_by-lt lt d h = inl refl
then_by-lt eq d h = inr (refl, h)
then_by-lt gt d h = cc

then_by-gt : (c d : Ordering) → then_by c d ≡ gt → (c ≡ gt) ⊎ ((c ≡ eq) × (d ≡ gt))
unfolding then_by
then_by-gt lt d h = cc
then_by-gt eq d h = inr (refl, h)
then_by-gt gt d h = inl refl

equal_first {ℓ} : {A : Type ℓ} ⦃o : Ord A⦄ (a b : A) → o.cmp a b ≡ eq → o.cmp b a ≡ eq
equal_first ⦃o⦄ a b h = subst (λ c. o.cmp c a ≡ eq) (o.cmp_eq a b h) (o.cmp_self a)

module _ {ℓ κ} {A : Type ℓ} {B : Type κ} ⦃o : Ord A⦄ ⦃p : Ord B⦄ where
  unfoldable pub compare_pairs : A × B → A × B → Ordering
  compare_pairs x y = then_by (o.cmp x.0 y.0) (p.cmp x.1 y.1)

  pub pairs_self : (x : A × B) → compare_pairs x x ≡ eq
  unfolding compare_pairs then_by
  pairs_self x = rw (o.cmp_self x.0) (p.cmp_self x.1)

  pub pairs-eq : (x y : A × B) → compare_pairs x y ≡ eq → x ≡ y
  unfolding compare_pairs
  pairs-eq x y h =
      let e = then_by-eq (o.cmp x.0 y.0) (p.cmp x.1 y.1) h in
      let a = o.cmp_eq x.0 y.0 e.0 in
      let b = p.cmp_eq x.1 y.1 e.1 in ap (λ c. (c, x.1)) a ∙ ap (λ c. (y.0, c)) b

  pub pairs_flip : (x y : A × B) → compare_pairs x y ≡ lt → compare_pairs y x ≡ gt
  unfolding compare_pairs then_by
  pairs_flip x y h = elim (then_by-lt (o.cmp x.0 y.0) (p.cmp x.1 y.1) h) [
    | inl k ↦ rw (o.cmp_flip x.0 y.0 k) refl
    | inr k ↦ rw (equal_first x.0 y.0 k.0) (p.cmp_flip x.1 y.1 k.1)
  ]

  pub pairs_flop : (x y : A × B) → compare_pairs x y ≡ gt → compare_pairs y x ≡ lt
  unfolding compare_pairs then_by
  pairs_flop x y h = elim (then_by-gt (o.cmp x.0 y.0) (p.cmp x.1 y.1) h) [
    | inl k ↦ rw (o.cmp_flop x.0 y.0 k) refl
    | inr k ↦ rw (equal_first x.0 y.0 k.0) (p.cmp_flop x.1 y.1 k.1)
  ]

  pub pairs_chain :
      (x y z : A × B) → compare_pairs x y ≡ lt → compare_pairs y z ≡ lt → compare_pairs x z ≡ lt
  unfolding compare_pairs then_by
  pairs_chain x y z h k = elim (then_by-lt (o.cmp x.0 y.0) (p.cmp x.1 y.1) h) [
    | inl l ↦ elim (then_by-lt (o.cmp y.0 z.0) (p.cmp y.1 z.1) k) [
      | inl m ↦ rw (o.cmp_chain x.0 y.0 z.0 l m) refl
      | inr m ↦ rw (subst (λ c. o.cmp x.0 c ≡ lt) (o.cmp_eq y.0 z.0 m.0) l) refl
    ]
    | inr l ↦ elim (then_by-lt (o.cmp y.0 z.0) (p.cmp y.1 z.1) k) [
      | inl m ↦ rw (subst (λ c. o.cmp c z.0 ≡ lt) (sym (o.cmp_eq x.0 y.0 l.0)) m) refl
      | inr m ↦
          rw (subst (λ c. o.cmp c z.0 ≡ eq) (sym (o.cmp_eq x.0 y.0 l.0)) m.0)
            (p.cmp_chain x.1 y.1 z.1 l.1 m.1)
    ]
  ]

instance abbrev pub pair_ord {ℓ κ} : {A : Type ℓ} {B : Type κ} ⦃o : Ord A⦄ ⦃p : Ord B⦄ → Ord (A × B)
pair_ord = record {
  cmp = compare_pairs;
  cmp_self = pairs_self;
  cmp_eq = pairs-eq;
  cmp_flip = pairs_flip;
  cmp_flop = pairs_flop;
  cmp_chain = pairs_chain;
}
