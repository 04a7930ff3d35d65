-- ===== src/PubSub/State.antt =====
-- The state of `SVSPubSub` that publications use, and the environment of its methods.
use ndn_svs.Base.{ℕ, Bool, Option, List}
use ndn_svs.Base.OrdMap.{OrdMap}
use ndn_svs.Packets.{Packets, Markers}
use ndn_svs.Mapping.{Components, MappingEntry, MappingList, MappingProvider}
use ndn_svs.Core.Merge.{MissingDataInfo}
use ndn_svs.Core.State.{Wire, Draws}
use ndn_svs.SyncBase.{DataStore, SyncBase}

-- `AsyncPublication::Kind`, with the value or the packet
pub data Kind (Data : Type 0) : Type 0 where
  bytes : List ℕ → Kind Data
  name_only : Kind Data
  packet : Data → Kind Data

pub record AsyncPublication (Component Data Block : Type 0) : Type 0 where
  pub kind : Kind Data
  pub bootstrap_time : ℕ
  pub seq_no : ℕ
  pub name : List Component
  pub node_prefix : List Component
  pub freshness_period : ℕ
  pub mapping_blocks : List Block

pub record PreparedPublication (Component Data Block : Type 0) : Type 0 where
  pub seq_no : ℕ
  pub bootstrap_time : ℕ
  pub node_prefix : List Component
  pub mapping_name : List Component
  pub freshness_period : ℕ
  pub outer_packets : List Data
  pub piggy_packet : Option Data
  pub mapping_blocks : List Block
  pub put_first_packet_to_face : Bool
  pub stored : Bool
  pub ok : Bool
  pub commit_attempts : ℕ
  pub retry_scheduled : Bool

-- what waits to go out with Sync Interests, with how often it went out and how often it did not fit
pub record Piggy (Payload : Type 0) : Type 0 where
  pub payload : Payload
  pub sent : ℕ
  pub missed : ℕ

-- `{payload, 0, 0}`
abbrev pub fresh_piggy : {Payload : Type 0} → Payload → Piggy Payload
fresh_piggy p = record { payload = p; sent = 0; missed = 0 }

abbrev pub PiggyDataEntry : Type 0 → Type 0
PiggyDataEntry Data = Piggy Data

-- a mapping of a node
pub record NodeMapping (Component Block : Type 0) : Type 0 where
  pub node_id : List Component
  pub mapping : MappingEntry Component Block

abbrev pub PiggyMappingEntry : Type 0 → Type 0 → Type 0
PiggyMappingEntry Component Block = Piggy (NodeMapping Component Block)

abbrev pub RepairRequestEntry : Type 0 → Type 0
RepairRequestEntry Component = Piggy (MissingDataInfo (List Component))

-- what `m_extraDataMutex` guards and Sync Interests carry
pub record ExtraQueues (Component Data Block : Type 0) : Type 0 where
  pub notification_mapping_list : MappingList Component Block
  pub piggy_mapping_queue : List (PiggyMappingEntry Component Block)
  pub piggy_data_queue : List (PiggyDataEntry Data)
  pub repair_request_queue : List (RepairRequestEntry Component)

-- what a commit writes
pub record Outputs (Component Data Interest Block S : Type 0) : Type 0 where
  pub base : SyncBase Component Data Interest Block S
  pub provider : MappingProvider Component Block
  pub queues : ExtraQueues Component Data Block

-- What is posted to the io context and what is scheduled are lists: `posted` has the publications
-- of the handlers, `retries` the delay, the node and the number of each timer.
pub record PubSub (Component Data Interest Block S : Type 0) : Type 0 where
  pub data_prefix : List Component
  pub use_timestamp : Bool
  pub max_piggy_data_size : ℕ
  pub async_commit_retry_initial : ℕ
  pub async_commit_retry_max : ℕ
  pub outputs : Outputs Component Data Interest Block S
  pub reserved_seq_no : OrdMap (List Component) ℕ
  pub next_async_commit_seq : OrdMap (List Component) ℕ
  pub prepared_publications :
      OrdMap (List Component) (OrdMap ℕ (PreparedPublication Component Data Block))
  pub staged_publication_packets : OrdMap (List Component) (OrdMap ℕ (List Data))
  pub posted : List (PreparedPublication Component Data Block)
  pub retries : List (ℕ × List Component × ℕ)

-- ndn-cxx, the store and the clocks, as the methods see them
pub record Env (Component Data Interest Block S : Type 0) : Type 0 where
  pub packets : Packets Component Data
  pub markers : Markers Component
  pub components : Components Component
  pub store : DataStore Component Data Interest S
  pub wire : Wire (List Component) Interest Block
  pub draws : Draws
  pub timestamp_block : Block
