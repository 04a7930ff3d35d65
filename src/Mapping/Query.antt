-- ===== src/Mapping/Query.antt =====
-- `MappingProvider`'s queries: `onMappingQuery`, whose loop over a range runs on fuel, the names
-- of queries, and what a reply adds to the provider.
use ndn_svs.Base.{
  ℕ, zero, suc, ◌+◌, ◌%◌, ◌^◌, max, Option, none, some, List, [], ◌∷◌, ◌++◌, leb, Ord, nat_ord,
  if◌then◌else◌, Result, ok, err, ◌>>=◌,
}
use ndn_svs.Tlv.{Tlv}
use ndn_svs.Core.State.{Version}
use ndn_svs.Core.Merge.{MissingDataInfo}
use ndn_svs.Mapping.{
  MappingEntryPair, MappingEntry, MappingList, MappingProvider, Components, insert_mapping,
  get_mapping,
}
use ndn_svs.Mapping.Codec

module _ {Component Block : Type 0} ⦃o : Ord (List Component)⦄ (cs : Components Component) where
  -- a mapping that is there is pushed, one that is missing is skipped
  unfoldable pub found :
      ℕ → ℕ → Result (MappingEntryPair Component Block) → List (MappingEntry Component Block)
  found bootstrap_time i (ok entry) =
      record { bootstrap_time = bootstrap_time; seq_no = i; mapping = entry } ∷ []
  found bootstrap_time i (err e) = []

  -- `for (SeqNo i = low; i <= high; i++)`: `none` is a loop that is still running
  unfoldable pub query_each :
      ℕ
      → List Component
      → ℕ
      → ℕ
      → ℕ
      → MappingProvider Component Block
      → List (MappingEntry Component Block)
      → Option (List (MappingEntry Component Block))
  unfolding found
  query_each zero node_id bootstrap_time i high p pairs = none
  query_each (suc fuel) node_id bootstrap_time i high p pairs =
      let here = found bootstrap_time i (get_mapping cs node_id bootstrap_time i p) in
      let rest = query_each fuel node_id bootstrap_time ((i + 1) % 2 ^ 64) high p (pairs ++ here) in
      if leb i high then rest else some pairs

  -- the content of the reply, where there is one
  unfoldable pub response :
      Tlv (List Component) Block
      → Version
      → List Component
      → List (MappingEntry Component Block)
      → Option Block
  response t version node_id [] = none
  response t version node_id (e ∷ es) =
      some (Codec.encode t version (record { node_id = node_id; pairs = e ∷ es }))

  -- the reply, once the loop has ended
  unfoldable pub reply :
      Tlv (List Component) Block
      → Version
      → List Component
      → Option (List (MappingEntry Component Block))
      → Option (Option Block)
  unfolding response
  reply t version node_id none = none
  reply t version node_id (some pairs) = some (response t version node_id pairs)

  -- `onMappingQuery` after the name is read, or has been refused
  unfoldable pub on_mapping_query :
      ℕ
      → Tlv (List Component) Block
      → Result (MissingDataInfo (List Component))
      → MappingProvider Component Block
      → Option (Option Block)
  unfolding query_each reply
  on_mapping_query fuel t (err e) p = some none
  on_mapping_query fuel t (ok query) p =
      reply t p.version query.node_id (
        query_each fuel query.node_id query.bootstrap_time query.low (max query.high query.low) p
          [])

  -- `onDataValidated` of `fetchNameMapping`: mappings that are not known are added
  unfoldable pub add_missing :
      List Component
      → MappingEntry Component Block
      → MappingProvider Component Block
      → MappingProvider Component Block
  add_missing node_id e p = elim (get_mapping cs node_id e.bootstrap_time e.seq_no p) [
    | ok _ ↦ p
    | err _ ↦ insert_mapping cs node_id e.bootstrap_time e.seq_no e.mapping p
  ]

  unfoldable pub add_each :
      List Component
      → List (MappingEntry Component Block)
      → MappingProvider Component Block
      → MappingProvider Component Block
  unfolding add_missing
  add_each node_id [] p = p
  add_each node_id (e ∷ es) p = add_each node_id es (add_missing node_id e p)

  unfoldable pub on_data_validated :
      Tlv (List Component) Block
      → MissingDataInfo (List Component)
      → Block
      → MappingProvider Component Block
      → Result (MappingList Component Block × MappingProvider Component Block)
  unfolding add_each
  on_data_validated t info block p = do
    fetched ← Codec.decode t p.version block
    ok (fetched, add_each info.node_id fetched.pairs p)
