-- ===== src/PubSub/Nested.antt =====
-- Maps of maps: reading a number of a node.
use ndn_svs.Base.{ℕ, ◌≡◌, arith, false, ◌&&◌, Option, none, List, [], Ord, nat_ord, ◌==◌}
use ndn_svs.Base.OrdMap.{OrdMap, find, insert, erase, IsSorted, or_default}
use ndn_svs.Base.OrdMap.Laws.{find-insert, find-erase, insert-IsSorted, erase-IsSorted}
use ndn_svs.PubSub.Publish.{insert_two, erase_two}

module _ {Component V : Type 0} ⦃o : Ord (List Component)⦄ where
  -- `m[nid][seq]`, where it is
  abbrev pub find_two : List Component → ℕ → OrdMap (List Component) (OrdMap ℕ V) → Option V
  find_two nid seq m = find seq (or_default [] (find nid m))

  pub find_two-insert_two :
      (nid q : List Component) (n k : ℕ) (v : V) (m : OrdMap (List Component) (OrdMap ℕ V))
      → ((q == nid) && (k == n)) ≡ false
      → find_two nid n m ≡ none
      → find_two nid n (insert_two q k v m) ≡ none
  unfolding insert_two
  find_two-insert_two nid q n k v m h e = ground (
    arith,
    find-insert q nid (insert k v (or_default [] (find q m))) m,
    find-insert k n v (or_default [] (find q m)),
    o.cmp_eq nid q,
    o.cmp_self nid,
  )

  pub find_two-erase_two :
      (nid q : List Component) (n k : ℕ) (entries : OrdMap ℕ V)
      (m : OrdMap (List Component) (OrdMap ℕ V))
      → (q == nid) ≡ false
      → IsSorted m
      → find_two nid n m ≡ none
      → find_two nid n (erase_two q k entries m) ≡ none
  unfolding erase_two
  find_two-erase_two nid q n k entries m h s e = ground (
    arith,
    find-insert q nid (erase k entries) m,
    find-erase q nid m s,
    o.cmp_eq nid q,
    o.cmp_self nid,
  )

  pub insert_two-IsSorted :
      (q : List Component) (k : ℕ) (v : V) (m : OrdMap (List Component) (OrdMap ℕ V))
      → IsSorted m
      → IsSorted (insert_two q k v m)
  unfolding insert_two
  insert_two-IsSorted q k v m s = insert-IsSorted q (insert k v (or_default [] (find q m))) m s

  pub erase_two-IsSorted :
      (q : List Component) (k : ℕ) (entries : OrdMap ℕ V) (m : OrdMap (List Component) (OrdMap ℕ V))
      → IsSorted m
      → IsSorted (erase_two q k entries m)
  unfolding erase_two
  erase_two-IsSorted q k entries m s =
      ground (arith, insert-IsSorted q (erase k entries) m s, erase-IsSorted q m s)
