-- ===== src/PubSub/Delivered.antt =====
-- The bounded record of the publications that came with Sync Interests:
-- `hasPiggyDeliveredPublication` and `rememberPiggyDeliveredPublication` of ndn-svs/svspubsub.cpp.
use ndn_svs.Base.{
  ℕ, suc, ◌≤◌, ◌≡◌, refl, sym, subst, ap, ◌∙◌, arith, Bool, true, false, ◌||◌, List, [], ◌∷◌, ◌++◌,
  length, length-append, ltb, ltb→le, Ord, ◌==◌, ==_iff, ==_self, if◌then◌else◌, elem, elem-append,
  Distinct, Bool-cases, inl, inr,
}
use ndn_svs.Base.OrdMap.{OrdMap, find, insert, erase, IsSorted}
use ndn_svs.Base.OrdMap.Laws.{find-insert, find-erase, insert-IsSorted, erase-IsSorted}
use ndn_svs.PubSub.Assembly.{is_some}

-- `m_piggyDeliveredPublications`, its order and its limit
pub record Delivered (K : Type 0) : Type 0 where
  pub publications : OrdMap K Bool
  pub order : List K
  pub limit : ℕ

module _ {K : Type 0} ⦃o : Ord K⦄ where
  unfoldable pub has_delivered : K → Delivered K → Bool
  has_delivered p d = is_some (find p d.publications)

  -- the loop that forgets the oldest publications
  unfoldable pub forget : ℕ → OrdMap K Bool → List K → OrdMap K Bool × List K
  forget limit m [] = (m, [])
  forget limit m (k ∷ ks) =
      let rest = forget limit (erase k m) ks in if ltb limit (length m) then rest else (m, k ∷ ks)

  unfoldable pub remember_delivered : K → Delivered K → Delivered K
  unfolding forget
  remember_delivered p d =
      let order = if is_some (find p d.publications) then d.order else d.order ++ p ∷ [] in
      let kept = forget d.limit (insert p true d.publications) order in
      record d { publications = kept.0; order = kept.1 }

  length-insert_known :
      (q : K) (w : Bool) (m : OrdMap K Bool)
      → length (insert q w m) ≡ (if is_some (find q m) then length m else suc (length m))
  unfolding find insert
  length-insert_known q w [] = refl
  length-insert_known q w ((k, v) ∷ m) = ground (arith, length-insert_known q w m)

  length-erase_known :
      (q : K) (m : OrdMap K Bool) → is_some (find q m) ≡ true → suc (length (erase q m)) ≡ length m
  unfolding find erase
  length-erase_known q [] h = cc
  length-erase_known q ((k, v) ∷ m) h = ground (arith, length-erase_known q m)

  -- the order lists what the map has, each once
  pub record IsListed (m : OrdMap K Bool) (order : List K) : Type 0 where
    pub sorted : IsSorted m
    pub distinct : Distinct order
    pub same : (k : K) → is_some (find k m) ≡ elem k order
    pub count : length m ≡ length order

  forgotten_same :
      (k : K) (ks : List K) (m : OrdMap K Bool)
      → IsListed m (k ∷ ks)
      → (q : K) → is_some (find q (erase k m)) ≡ elem q ks
  unfolding elem
  forgotten_same k ks m i q = elim (Bool-cases (q == k)) [
    | inl same ↦
        let none_left : is_some (find q (erase k m)) ≡ false =
          ap is_some (find-erase k q m i.sorted) ∙ rw (same) refl in
        none_left ∙ sym (subst (λ q. elem q ks ≡ false) (sym ((==_iff q k).0 same)) i.distinct.0)
    | inr other ↦ ap is_some (find-erase k q m i.sorted) ∙ rw (other) (i.same q ∙ rw (other) refl)
  ]

  forgotten-IsListed :
      (k : K) (ks : List K) (m : OrdMap K Bool) → IsListed m (k ∷ ks) → IsListed (erase k m) ks
  unfolding elem
  forgotten-IsListed k ks m i = record {
    sorted = erase-IsSorted k m i.sorted;
    distinct = i.distinct.1;
    same = λ q. forgotten_same k ks m i q;
    count =
        omega (
          arith,
          i.count,
          length-erase_known k m (i.same k ∙ ap (λ b. b || elem k ks) (==_self k)),
        );
  }

  Distinct-append :
      (p : K) (ks : List K) → Distinct ks → elem p ks ≡ false → Distinct (ks ++ p ∷ [])
  unfolding elem
  Distinct-append p [] d h = (refl, tt)
  Distinct-append p (k ∷ ks) d h = (
    elem-append k ks (p ∷ []) ∙ ground (arith, d.0, o.cmp_eq k p, o.cmp_self k),
    Distinct-append p ks d.1 (ground arith),
  )

  known-IsListed :
      (p : K) (m : OrdMap K Bool) (order : List K)
      → IsListed m order
      → is_some (find p m) ≡ true
      → IsListed (insert p true m) order
  known-IsListed p m order i h = record {
    sorted = insert-IsSorted p true m i.sorted;
    distinct = i.distinct;
    same = λ q. ground (arith, i.same q, find-insert p q true m, o.cmp_eq q p, h);
    count = omega (
      arith,
      i.count,
      (let e : length (insert p true m) ≡ length m = length-insert_known p true m ∙ rw (h) refl in
          e),
    );
  }

  new-IsListed :
      (p : K) (m : OrdMap K Bool) (order : List K)
      → IsListed m order
      → is_some (find p m) ≡ false
      → IsListed (insert p true m) (order ++ p ∷ [])
  unfolding elem
  new-IsListed p m order i h = record {
    sorted = insert-IsSorted p true m i.sorted;
    distinct = Distinct-append p order i.distinct (sym (i.same p) ∙ h);
    same = λ q. ground (arith, i.same q, find-insert p q true m, elem-append q order (p ∷ []));
    count = omega (
      arith,
      i.count,
      length-append order (p ∷ []),
      (let e : length (insert p true m) ≡ suc (length m) =
            length-insert_known p true m ∙ rw (h) refl in
          e),
    );
  }

  -- what the loop leaves
  abbrev IsKept : ℕ → OrdMap K Bool × List K → Type 0
  IsKept limit r = IsListed r.0 r.1 × (length r.0 ≤ limit)

  forget-IsKept :
      (limit : ℕ) (order : List K) (m : OrdMap K Bool)
      → IsListed m order
      → IsKept limit (forget limit m order)
  unfolding forget
  forget-IsKept limit [] m i = (i, omega (arith, i.count))
  forget-IsKept limit (k ∷ ks) m i = elim (Bool-cases (ltb limit (length m))) [
    | inl over ↦ rw (over) (forget-IsKept limit ks (erase k m) (forgotten-IsListed k ks m i))
    | inr fits ↦ rw (fits) (i, ltb→le limit (length m) fits)
  ]

  remembered :
      (p : K) (m : OrdMap K Bool) (order : List K) (b : Bool)
      → is_some (find p m) ≡ b
      → IsListed m order
      → IsListed (insert p true m) (if b then order else order ++ p ∷ [])
  remembered p m order true h i = known-IsListed p m order i h
  remembered p m order false h i = new-IsListed p m order i h

  -- Remembering a publication keeps the record consistent: the map stays sorted, the order lists
  -- exactly its publications, each once, and there are no more of them than the limit.
  pub remember_delivered-IsListed :
      (p : K) (d : Delivered K)
      → IsListed d.publications d.order
      → let r = remember_delivered p d in
        IsListed r.publications r.order × (length r.publications ≤ d.limit)
  unfolding remember_delivered
  remember_delivered-IsListed p d i =
      forget-IsKept d.limit (if is_some (find p d.publications) then d.order else d.order ++ p ∷ [])
        (insert p true d.publications)
        (remembered p d.publications d.order (is_some (find p d.publications)) refl i)
