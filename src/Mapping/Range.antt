-- ===== src/Mapping/Range.antt =====
-- The loop over a range of numbers, and what a reply may change.
use ndn_svs.Base.{
  ℕ, zero, suc, ◌+◌, ◌-◌, ◌%◌, ◌^◌, ◌<◌, ◌≡◌, refl, ◌∙◌, max, true, false, none, some, List, [],
  ◌∷◌, ◌++◌, leb, Ord, nat_ord, ==_iff, ok, arith,
}
use mathlib.Core.List.{append_assoc, append-nil}
use ndn_svs.Base.OrdMap.Laws.{find-insert}
use ndn_svs.Tlv.{Tlv}
use ndn_svs.Core.Merge.{MissingDataInfo}
use ndn_svs.Mapping.{
  MappingEntryPair, MappingEntry, MappingProvider, Components, make_mapping_key, insert_mapping,
  get_mapping,
}
use ndn_svs.Mapping.Query.{
  found, query_each, response, reply, on_mapping_query, add_missing, add_each,
}

next_number : (i : ℕ) → i < 2 ^ 64 - 1 → (i + 1) % 2 ^ 64 ≡ i + 1
next_number i h = omega arith

wrapped_number : (i : ℕ) → (i + 1) % 2 ^ 64 < 2 ^ 64
wrapped_number i = omega arith

no_fuel : (n : ℕ) → n < 0 → ⊥
no_fuel n h = omega arith

module _ {Component Block : Type 0} ⦃o : Ord (List Component)⦄ (cs : Components Component) where
  -- the mappings of `count` numbers from `i` on, as far as they are known
  unfoldable pub mappings_in :
      ℕ
      → List Component
      → ℕ
      → ℕ
      → MappingProvider Component Block
      → List (MappingEntry Component Block)
  mappings_in zero node_id b i p = []
  mappings_in (suc count) node_id b i p =
      found cs b i (get_mapping cs node_id b i p) ++ mappings_in count node_id b (i + 1) p

  query_each-mappings_in :
      (count fuel : ℕ) (node_id : List Component) (b i high : ℕ)
      (p : MappingProvider Component Block) (pairs : List (MappingEntry Component Block))
      → high < 2 ^ 64 - 1
      → i + count ≡ high + 1
      → count < fuel
      → query_each cs fuel node_id b i high p pairs
        ≡ some (pairs ++ mappings_in count node_id b i p)
  unfolding query_each mappings_in
  query_each-mappings_in count zero node_id b i high p pairs h e f = absurd (no_fuel count f)
  query_each-mappings_in zero (suc fuel) node_id b i high p pairs h e f =
      let over : leb i high ≡ false = ground arith in rw (over, append-nil pairs) refl
  query_each-mappings_in (suc count) (suc fuel) node_id b i high p pairs h e f =
      let inside : leb i high ≡ true = ground arith in
      let here = found cs b i (get_mapping cs node_id b i p) in
      rw (inside, next_number i (omega arith))
        (query_each-mappings_in count fuel node_id b (i + 1) high p (pairs ++ here) h (omega arith)
            (omega arith)
          ∙ rw (append_assoc pairs here (mappings_in count node_id b (i + 1) p)) refl)

  -- A query whose ends lie below the greatest `uint64_t` is answered, once there is fuel for each
  -- number of the range: with the mappings of the range that are known, in their order, and not at
  -- all where there is none.
  pub on_mapping_query-response :
      (fuel : ℕ) (t : Tlv (List Component) Block) (query : MissingDataInfo (List Component))
      (p : MappingProvider Component Block)
      → query.low < 2 ^ 64 - 1
      → query.high < 2 ^ 64 - 1
      → max query.high query.low - query.low + 1 < fuel
      → on_mapping_query cs fuel t (ok query) p
        ≡ some (
            response cs t p.version query.node_id (
              mappings_in
                (max query.high query.low - query.low + 1)
                query.node_id
                query.bootstrap_time
                query.low
                p))
  unfolding on_mapping_query reply
  on_mapping_query-response fuel t query p h k f =
      rw
        (query_each-mappings_in (max query.high query.low - query.low + 1) fuel query.node_id
          query.bootstrap_time query.low (max query.high query.low) p [] (omega arith) (omega arith)
          f)
        refl

  query_each-runs :
      (fuel : ℕ) (node_id : List Component) (b i : ℕ) (p : MappingProvider Component Block)
      (pairs : List (MappingEntry Component Block))
      → i < 2 ^ 64
      → query_each cs fuel node_id b i (2 ^ 64 - 1) p pairs ≡ none
  unfolding query_each
  query_each-runs zero node_id b i p pairs h = refl
  query_each-runs (suc fuel) node_id b i p pairs h =
      let inside : leb i (2 ^ 64 - 1) ≡ true = ground arith in
      rw inside (
        query_each-runs fuel node_id b ((i + 1) % 2 ^ 64) p
          (pairs ++ found cs b i (get_mapping cs node_id b i p)) (wrapped_number i))

  -- A query whose upper end is the greatest `uint64_t` never ends, whatever the fuel: the counter
  -- wraps around before it exceeds the end.
  pub on_mapping_query-runs :
      (fuel : ℕ) (t : Tlv (List Component) Block) (query : MissingDataInfo (List Component))
      (p : MappingProvider Component Block)
      → query.low < 2 ^ 64
      → query.high ≡ 2 ^ 64 - 1
      → on_mapping_query cs fuel t (ok query) p ≡ none
  unfolding on_mapping_query reply
  on_mapping_query-runs fuel t query p h k =
      let top : max query.high query.low ≡ 2 ^ 64 - 1 = omega arith in
      rw (top, query_each-runs fuel query.node_id query.bootstrap_time query.low p [] h) refl

  add_missing-keeps :
      (node_id n : List Component) (b s : ℕ) (e : MappingEntry Component Block)
      (p : MappingProvider Component Block) (old : MappingEntryPair Component Block)
      → get_mapping cs n b s p ≡ ok old
      → get_mapping cs n b s (add_missing cs node_id e p) ≡ ok old
  unfolding add_missing get_mapping insert_mapping
  add_missing-keeps node_id n b s e p old h = ground (
    arith,
    find-insert (make_mapping_key cs node_id e.bootstrap_time e.seq_no) (make_mapping_key cs n b s)
        e.mapping p.map,
    ==_iff (make_mapping_key cs n b s) (make_mapping_key cs node_id e.bootstrap_time e.seq_no),
  )

  -- A reply never changes a mapping that the provider has.
  pub add_each-keeps :
      (node_id n : List Component) (b s : ℕ) (es : List (MappingEntry Component Block))
      (p : MappingProvider Component Block) (old : MappingEntryPair Component Block)
      → get_mapping cs n b s p ≡ ok old
      → get_mapping cs n b s (add_each cs node_id es p) ≡ ok old
  unfolding add_each
  add_each-keeps node_id n b s [] p old h = h
  add_each-keeps node_id n b s (e ∷ es) p old h =
      add_each-keeps node_id n b s es (add_missing cs node_id e p) old
        (add_missing-keeps node_id n b s e p old h)
