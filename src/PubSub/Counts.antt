-- ===== src/PubSub/Counts.antt =====
-- How many keys of a sorted map satisfy a test.
use ndn_svs.Base.{
  ℕ, ◌+◌, ◌≤◌, ◌≡◌, ◌⊎◌, inl, inr, subst, ap, arith, Bool, true, [], ◌∷◌, Bool-cases, Ord,
  if◌then◌else◌,
}
use ndn_svs.Base.OrdMap.{OrdMap, erase, Above, IsSorted}

module _ {K V : Type 0} ⦃o : Ord K⦄ where
  -- how many keys of the map satisfy a test
  abbrev pub count_keys : (K → Bool) → OrdMap K V → ℕ
  count_keys p [] = 0
  count_keys p ((k, v) ∷ m) = (if p k then 1 else 0) + count_keys p m

  pub count-le :
      (p q : K → Bool) (m : OrdMap K V)
      → ((k : K) → p k ≡ true → q k ≡ true)
      → count_keys p m ≤ count_keys q m
  count-le p q [] h = omega arith
  count-le p q ((k, v) ∷ m) h = ground (arith, count-le p q m h, h k)

  -- a test that holds of one more key
  count-Above :
      (p q : K → Bool) (x : K) (m : OrdMap K V)
      → Above x m
      → ((k : K) → p k ≡ true → (q k ≡ true) ⊎ (k ≡ x))
      → count_keys p m ≤ count_keys q m
  count-Above p q x [] a h = omega arith
  count-Above p q x ((k, v) ∷ m) a h =
      ground (arith, count-Above p q x m a.1 h, h k, o.cmp_self x, ap (o.cmp x) {x = k} {y = x})

  pub count_one_more :
      (p q : K → Bool) (x : K) (m : OrdMap K V)
      → IsSorted m
      → ((k : K) → p k ≡ true → (q k ≡ true) ⊎ (k ≡ x))
      → count_keys p m ≤ count_keys q m + 1
  count_one_more p q x [] s h = omega arith
  count_one_more p q x ((k, v) ∷ m) s h =
      let rest : count_keys p m ≤ count_keys q m + 1 = count_one_more p q x m s.1 h in
      elim (Bool-cases (p k)) [
        | inr fails ↦ ground (arith, rest, fails)
        | inl holds ↦ elim (h k holds) [
          | inl also ↦ ground (arith, rest, holds, also)
          | inr here ↦
              ground (arith, holds, count-Above p q x m (subst (λ z. Above z m) here s.0) h)
        ]
      ]

  pub count-erase :
      (p : K → Bool) (x : K) (m : OrdMap K V) → count_keys p (erase x m) ≤ count_keys p m
  unfolding erase
  count-erase p x [] = omega arith
  count-erase p x ((k, v) ∷ m) = ground (arith, count-erase p x m)
