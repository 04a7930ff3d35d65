-- ===== src/Base/OrdMap/Laws.antt =====
-- Reading a map after a change, and maps that read alike.
use Prim.Native.Nat.{Ordering}
use Prim.Native.Nat.Ordering.{lt, eq, gt}
use mathlib.Core.Path.{◌≡◌, refl, subst}
use mathlib.Core.Logic.{inl, inr}
use mathlib.Core.Bool.{false}
use mathlib.Core.Option.{Option, none, some}
use mathlib.Core.List.{[], ◌∷◌}
use native.Mathlib.Omega.{arith}
use ndn_svs.Base.Tests.{Option-cases, Ord, ◌==◌, if◌then◌else◌}
use ndn_svs.Base.Lists.{All, All-map}
use ndn_svs.Base.OrdMap.{OrdMap, or_default, find, insert, erase, Above, IsSorted}

All-find_at {κ μ} :
    {V : Type κ} (P : V → Type μ) (c : Ordering) (x : V) (r : Option V) (v : V)
    → P x
    → (r ≡ some v → P v)
    → elim c [ lt ↦ none | eq ↦ some x | gt ↦ r ] ≡ some v
    → P v
All-find_at P lt x r v p f e = cc
All-find_at P eq x r v p f e = let same : x ≡ v = cc in subst P same p
All-find_at P gt x r v p f e = f e

module _ {ℓ κ} {K : Type ℓ} {V : Type κ} ⦃o : Ord K⦄ where
  pub find-insert :
      (q p : K) (w : V) (m : OrdMap K V)
      → find p (insert q w m) ≡ (if p == q then some w else find p m)
  unfolding find insert
  find-insert q p w [] = ground arith
  find-insert q p w ((k, v) ∷ m) =
      ground
        (arith, find-insert q p w m, o.cmp_eq p q, o.cmp_eq q k, o.cmp_chain p q k, o.cmp_flip q k)

  Above-chain : (q p : K) (m : OrdMap K V) → o.cmp q p ≡ lt → Above p m → Above q m
  Above-chain q p m h a = All-map (λ e b. o.cmp_chain q p e.0 h b) m a

  Above-insert :
      (b q : K) (w : V) (m : OrdMap K V) → o.cmp b q ≡ lt → Above b m → Above b (insert q w m)
  unfolding insert
  Above-insert b q w [] h a = (h, tt)
  Above-insert b q w ((k, v) ∷ m) h a = ground (arith, Above-insert b q w m h a.1)

  pub insert-IsSorted : (q : K) (w : V) (m : OrdMap K V) → IsSorted m → IsSorted (insert q w m)
  unfolding insert
  insert-IsSorted q w [] s = (tt, tt)
  insert-IsSorted q w ((k, v) ∷ m) s = ground (
    arith,
    insert-IsSorted q w m s.1,
    Above-insert k q w m,
    Above-chain q k m,
    o.cmp_flop q k,
    o.cmp_eq q k,
  )

  find-Above : (q : K) (m : OrdMap K V) → Above q m → find q m ≡ none
  unfolding find
  find-Above q [] a = refl
  find-Above q ((k, v) ∷ m) a = rw (a.0, find)

  pub find-erase :
      (q p : K) (m : OrdMap K V)
      → IsSorted m
      → find p (erase q m) ≡ (if p == q then none else find p m)
  unfolding find erase
  find-erase q p [] s = ground arith
  find-erase q p ((k, v) ∷ m) s = ground (
    arith,
    find-erase q p m s.1,
    find-Above p m,
    Above-chain p k m,
    o.cmp_eq p q,
    o.cmp_eq q k,
    o.cmp_eq p k,
    o.cmp_self k,
    o.cmp_chain p q k,
    find-Above k m s.0,
  )

  Above-erase : (b q : K) (m : OrdMap K V) → Above b m → Above b (erase q m)
  unfolding erase
  Above-erase b q [] a = tt
  Above-erase b q ((k, v) ∷ m) a = ground (arith, Above-erase b q m a.1)

  pub erase-IsSorted : (q : K) (m : OrdMap K V) → IsSorted m → IsSorted (erase q m)
  unfolding erase
  erase-IsSorted q [] s = tt
  erase-IsSorted q ((k, v) ∷ m) s = ground (arith, erase-IsSorted q m s.1, Above-erase k q m s.0)

  pub All-find {μ} :
      (P : V → Type μ) (q : K) (m : OrdMap K V) (v : V)
      → All (λ e. P e.1) m
      → find q m ≡ some v
      → P v
  unfolding find
  All-find P q [] v a e = cc
  All-find P q ((k, w) ∷ m) v a e =
      All-find_at P (o.cmp q k) w (find q m) v a.0 (All-find P q m v a.1) e

  pub All-insert {μ} :
      (P : K × V → Type μ) (q : K) (w : V) (m : OrdMap K V)
      → P (q, w)
      → All P m
      → All P (insert q w m)
  unfolding insert
  All-insert P q w [] p a = (p, tt)
  All-insert P q w ((k, v) ∷ m) p a = ground (arith, All-insert P q w m p a.1)

  pub All-erase {μ} : (P : K × V → Type μ) (q : K) (m : OrdMap K V) → All P m → All P (erase q m)
  unfolding erase
  All-erase P q [] a = tt
  All-erase P q ((k, v) ∷ m) a = ground (arith, All-erase P q m a.1)

  pub All-or_default {μ} :
      (P : V → Type μ) (d : V) (q : K) (m : OrdMap K V)
      → P d
      → All (λ e. P e.1) m
      → P (or_default d (find q m))
  All-or_default P d q m h a = elim (Option-cases (find q m)) [
    | inl e ↦ rw (e) h
    | inr e ↦ rw (e.1) (All-find P q m e.0 a e.1)
  ]

  pub find-tail :
      (q k : K) (v : V) (m : OrdMap K V)
      → Above k m
      → find q m ≡ (if q == k then none else find q ((k, v) ∷ m))
  unfolding find
  find-tail q k v m a =
      ground (arith, find-Above q m, Above-chain q k m, o.cmp_eq q k, find-Above k m a)

  pub find-head : (k : K) (v : V) (m : OrdMap K V) → find k ((k, v) ∷ m) ≡ some v
  unfolding find
  find-head k v m = rw (o.cmp_self, find)

  find_before : (q k : K) (v : V) (m : OrdMap K V) → o.cmp q k ≡ lt → find q ((k, v) ∷ m) ≡ none
  unfolding find
  find_before q k v m h = rw (h, find)

  eq_of_find-cons :
      (k : K) (v : V) (m : OrdMap K V) (j : K) (w : V) (n : OrdMap K V)
      → IsSorted ((k, v) ∷ m)
      → IsSorted ((j, w) ∷ n)
      → ((q : K) → find q ((k, v) ∷ m) ≡ find q ((j, w) ∷ n))
      → (k ≡ j → m ≡ n)
      → (c : Ordering) → o.cmp k j ≡ c
      → ◌≡◌ {A = OrdMap K V} ((k, v) ∷ m) ((j, w) ∷ n)
  eq_of_find-cons k v m j w n s t h ih lt c = cc (h k, find-head k v m, find_before k j w n c)
  eq_of_find-cons k v m j w n s t h ih eq c =
      cc (h k, find-head k v m, find-head j w n, o.cmp_eq k j c, ih (o.cmp_eq k j c))
  eq_of_find-cons k v m j w n s t h ih gt c =
      cc (h j, find-head j w n, find_before j k v m (o.cmp_flop k j c))

  -- Two sorted maps that read alike at every key are equal.
  pub eq_of_find :
      (m n : OrdMap K V) → IsSorted m → IsSorted n → ((q : K) → find q m ≡ find q n) → m ≡ n
  eq_of_find [] [] s t h = refl
  eq_of_find [] ((j, w) ∷ n) s t h = cc (h j, find-head j w n, find-Above j [] tt)
  eq_of_find ((k, v) ∷ m) [] s t h = cc (h k, find-head k v m, find-Above k [] tt)
  eq_of_find ((k, v) ∷ m) ((j, w) ∷ n) s t h =
      eq_of_find-cons k v m j w n s t h
        (λ e. eq_of_find m n s.1 t.1 (λ q. cc (find-tail q k v m s.0, find-tail q j w n t.0, h q)))
        (o.cmp k j) refl

  pub insert_comm :
      (p q : K) (v w : V) (m : OrdMap K V)
      → IsSorted m
      → (p == q) ≡ false
      → insert p v (insert q w m) ≡ insert q w (insert p v m)
  insert_comm p q v w m s h =
      eq_of_find (insert p v (insert q w m)) (insert q w (insert p v m))
        (insert-IsSorted p v (insert q w m) (insert-IsSorted q w m s))
        (insert-IsSorted q w (insert p v m) (insert-IsSorted p v m s))
        (λ k. ground (
          arith,
          find-insert p k v (insert q w m),
          find-insert q k w m,
          find-insert q k w (insert p v m),
          find-insert p k v m,
          o.cmp_eq k p,
          o.cmp_eq k q,
        ))
