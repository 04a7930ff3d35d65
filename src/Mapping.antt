-- ===== src/Mapping.antt =====
-- ndn-svs/mapping-provider.hpp and ndn-svs/mapping-provider.cpp: from a publication's number to its
-- application name. A mapping is a name with additional blocks; a name is a list of components.
pub mod Codec
pub mod Query
pub mod RoundTrip
pub mod Range
pub mod QueryName
use ndn_svs.Base.{ℕ, Result, List, [], ◌∷◌, ◌++◌, Ord, Option, none, some, ok, err, Error}
use ndn_svs.Base.OrdMap.{OrdMap, find, insert}
use ndn_svs.Core.State.{Version}

-- `MappingEntryPair`
pub record MappingEntryPair (Component Block : Type 0) : Type 0 where
  pub name : List Component
  pub blocks : List Block

-- `MappingList::Entry`
pub record MappingEntry (Component Block : Type 0) : Type 0 where
  pub bootstrap_time : ℕ
  pub seq_no : ℕ
  pub mapping : MappingEntryPair Component Block

pub record MappingList (Component Block : Type 0) : Type 0 where
  pub node_id : List Component
  pub pairs : List (MappingEntry Component Block)

-- The components that the code builds and reads. A timestamp is of whole seconds.
pub record Components (Component : Type 0) : Type 0 where
  pub timestamp : ℕ → Component
  pub sequence_number : ℕ → Component

pub record MappingProvider (Component Block : Type 0) : Type 0 where
  pub sync_prefix : List Component
  pub id : List Component
  pub version : Version
  pub map : OrdMap (List Component) (MappingEntryPair Component Block)

unfoldable pub make_mapping_key :
    {Component : Type 0} → Components Component → List Component → ℕ → ℕ → List Component
make_mapping_key cs node_id bootstrap_time seq_no =
    node_id ++ cs.timestamp bootstrap_time ∷ cs.sequence_number seq_no ∷ []

module _ {Component Block : Type 0} ⦃o : Ord (List Component)⦄ (cs : Components Component) where
  unfoldable pub insert_mapping :
      List Component
      → ℕ
      → ℕ
      → MappingEntryPair Component Block
      → MappingProvider Component Block
      → MappingProvider Component Block
  unfolding make_mapping_key
  insert_mapping node_id bootstrap_time seq_no entry p = record p {
    map = insert (make_mapping_key cs node_id bootstrap_time seq_no) entry p.map;
  }

  -- `m_map.at` throws for a missing key.
  unfoldable pub get_mapping :
      List Component
      → ℕ
      → ℕ
      → MappingProvider Component Block
      → Result (MappingEntryPair Component Block)
  unfolding make_mapping_key
  get_mapping node_id bootstrap_time seq_no p =
      elim (find (make_mapping_key cs node_id bootstrap_time seq_no) p.map) [
        | none ↦ err Error.out_of_range
        | some entry ↦ ok entry
      ]
