-- ===== src/PubSub/Extra.antt =====
-- What a Sync Interest carries besides the vector: `onGetExtraData` and `onGetExtraBlocks` of
-- ndn-svs/svspubsub.cpp. A list of mappings is encoded for version 3, its default.
use ndn_svs.Base.{
  ℕ, ◌+◌, ◌≡◌, List, [], ◌∷◌, ◌++◌, reverse, is_empty, ltb, nat_ord, ◌==◌, if◌then◌else◌, Result,
  ok,
}
use ndn_svs.Base.Results
use ndn_svs.Base.Action.{Action, ◌>>=◌, ◌>>◌, return, lift, gets, modify}
use ndn_svs.Tlv.{Tlv, TlvLaws}
use ndn_svs.Tlv.Kind
use ndn_svs.Core.State.{v3}
use ndn_svs.Core.Merge.{MissingDataInfo}
use ndn_svs.Mapping.{MappingEntry, MappingList}
use ndn_svs.Mapping.Codec
use ndn_svs.PubSub.State.{Piggy, NodeMapping, ExtraQueues}
use ndn_svs.PubSub.Repair.{encode_repair_requests, decode_repair_requests}

-- blocks with their sizes, and packets as blocks
pub record ExtraCodec (Component Data Block : Type 0) : Type 0 where
  pub tlv : Tlv (List Component) Block
  pub size : Block → ℕ
  pub data_block : Data → Block
  pub read_data : Block → Result Data

pub record ExtraCodecLaws {Component Data Block : Type 0} (x : ExtraCodec Component Data Block)
    : Type 0 where
  pub tlv_laws : TlvLaws x.tlv
  pub type-data_block : (d : Data) → x.tlv.type (x.data_block d) ≡ 6
  pub read_data-data_block : (d : Data) → x.read_data (x.data_block d) ≡ ok d

-- the options that packing reads
pub record PackOptions : Type 0 where
  pub max_application_parameters_size : ℕ
  pub piggyback_repeat_count : ℕ
  pub piggyback_miss_limit : ℕ
  pub repair_request_repeat_count : ℕ

-- the composite block while it grows
pub record Composite (Block : Type 0) : Type 0 where
  pub children : List Block
  pub size : ℕ

-- a queue's loop: the composite block, and the entries that stay
pub record Packed (Payload Block : Type 0) : Type 0 where
  pub composite : Composite Block
  pub retained : List (Piggy Payload)

module _ {Payload Block : Type 0} (size : Block → ℕ) (encode : Payload → Block)
    (max_size repeat_count miss_limit : ℕ) where
  -- one entry; those that stay go to the front
  unfoldable pub pack_entry : Piggy Payload → Packed Payload Block → Packed Payload Block
  pack_entry e r =
      let block = encode e.payload in
      let missed = record e { missed = e.missed + 1 } in
      let sent = record e { sent = e.sent + 1 } in
      if ltb max_size (r.composite.size + size block)
      then record r {
        retained = if ltb missed.missed miss_limit then missed ∷ r.retained else r.retained;
      }
      else record {
        composite = record {
          children = r.composite.children ++ block ∷ [];
          size = r.composite.size + size block;
        };
        retained = if ltb sent.sent repeat_count then sent ∷ r.retained else r.retained;
      }

  -- newer entries first
  unfoldable pub pack_each : List (Piggy Payload) → Packed Payload Block → Packed Payload Block
  unfolding pack_entry
  pack_each [] r = r
  pack_each (e ∷ es) r = pack_each es (pack_entry e r)

  unfoldable pub pack_queue : List (Piggy Payload) → Composite Block → Packed Payload Block
  unfolding pack_each
  pack_queue queue c = pack_each (reverse queue) (record { composite = c; retained = [] })

module _ {Component Data Block : Type 0} (x : ExtraCodec Component Data Block)
    (opts : PackOptions) where
  abbrev pub encode_mappings : MappingList Component Block → Block
  encode_mappings = Codec.encode x.tlv v3

  -- the mappings of the notification list that fit
  unfoldable pub include_mappings :
      List (MappingEntry Component Block)
      → MappingList Component Block
      → MappingList Component Block
  include_mappings [] included = included
  include_mappings (entry ∷ entries) included =
      let candidate : MappingList Component Block = record included {
        pairs = included.pairs ++ entry ∷ [];
      } in
      include_mappings entries (
        if ltb opts.max_application_parameters_size (x.size (encode_mappings candidate))
        then included
        else candidate)

  unfoldable pub included_mappings : MappingList Component Block → MappingList Component Block
  unfolding include_mappings
  included_mappings list =
      let start : MappingList Component Block = record { node_id = list.node_id; pairs = [] } in
      if is_empty list.node_id then start else include_mappings list.pairs start

  abbrev pub mapping_block : NodeMapping Component Block → Block
  mapping_block m = encode_mappings (record { node_id = m.node_id; pairs = m.mapping ∷ [] })

  abbrev pub repair_block : MissingDataInfo (List Component) → Block
  repair_block info = encode_repair_requests x.tlv (info ∷ [])

  -- the three queues, one after the other
  unfoldable pub pack_queues :
      Composite Block
      → ExtraQueues Component Data Block
      → Composite Block × ExtraQueues Component Data Block
  unfolding pack_queue
  pack_queues c q =
      let limit = opts.max_application_parameters_size in
      let mappings =
        pack_queue x.size mapping_block limit opts.piggyback_repeat_count opts.piggyback_miss_limit
          q.piggy_mapping_queue c in
      let packets =
        pack_queue x.size x.data_block limit opts.piggyback_repeat_count opts.piggyback_miss_limit
          q.piggy_data_queue mappings.composite in
      let repairs =
        pack_queue x.size repair_block limit opts.repair_request_repeat_count
          opts.piggyback_miss_limit q.repair_request_queue packets.composite in
      (
        repairs.composite,
        record {
          notification_mapping_list = record { node_id = []; pairs = [] };
          piggy_mapping_queue = mappings.retained;
          piggy_data_queue = packets.retained;
          repair_request_queue = repairs.retained;
        },
      )

  unfoldable pub on_get_extra_data : Action (ExtraQueues Component Data Block) Block
  unfolding included_mappings pack_queues
  on_get_extra_data = do
    q ← gets (λ q. q)
    let block = encode_mappings (included_mappings q.notification_mapping_list)
    children ← lift (x.tlv.elements block)
    let packed = pack_queues (record { children = children; size = x.size block }) q
    modify λ _. packed.1
    return (x.tlv.make Kind.mapping_data packed.0.children)

  -- the children by their kind: all but repair data, and the requests in those
  unfoldable pub split_children :
      List Block
      → List Block
      → List (MissingDataInfo (List Component))
      → Result (List Block × List (MissingDataInfo (List Component)))
  split_children [] mappings repairs = ok (mappings, repairs)
  split_children (child ∷ children) mappings repairs =
      if x.tlv.type child == Kind.repair_data
      then Results.◌>>=◌ (decode_repair_requests x.tlv child)
          (λ requests. split_children children mappings (repairs ++ requests))
      else split_children children (mappings ++ child ∷ []) repairs

  unfoldable pub extensions_of : List Block → List (MissingDataInfo (List Component)) → List Block
  extensions_of mappings repairs =
      x.tlv.make Kind.mapping_data mappings
      ∷ (if is_empty repairs then [] else encode_repair_requests x.tlv repairs ∷ [])

  unfoldable pub on_get_extra_blocks : Action (ExtraQueues Component Data Block) (List Block)
  unfolding on_get_extra_data split_children extensions_of
  on_get_extra_blocks = do
    composite ← on_get_extra_data
    children ← lift (x.tlv.elements composite)
    split ← lift (split_children children [] [])
    return (extensions_of split.0 split.1)
