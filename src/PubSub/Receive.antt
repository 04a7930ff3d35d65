-- ===== src/PubSub/Receive.antt =====
-- `onRecvExtraData` and `onRecvExtraBlocks` of ndn-svs/svspubsub.cpp: a block is checked as a whole
-- before anything is changed.
use ndn_svs.Base.{
  ℕ, max, Bool, false, ◌||◌, not, Option, none, some, List, [], ◌∷◌, ◌++◌, map, Ord, nat_ord,
  pair_ord, ◌==◌, if◌then◌else◌, Result, ok, err,
}
use ndn_svs.Tlv.Kind
use ndn_svs.Mapping.{MappingEntry, MappingList, insert_mapping}
use ndn_svs.Mapping.Codec
use ndn_svs.Core.State.{v3}
use ndn_svs.Core.Merge.{MissingDataInfo}
use ndn_svs.PubSub.Repair.{decode_repair_requests}
use ndn_svs.PubSub.Client.{PublicationKey, FetchOptions, Client}
use ndn_svs.PubSub.FetchAll.{fetch_all}
use ndn_svs.PubSub.MappingFetch.{process_mapping}
use ndn_svs.PubSub.Arrival.{
  ArrivalEnv, data_type, is_known_extension, check_extension, check_blocks,
  satisfy_pending_fetch_from_piggy_data, cache_packet, repair_each,
}

-- the client, and the publications whose mappings came
pub record Received (Component C : Type 0) : Type 0 where
  pub client : C
  pub mappings : List (PublicationKey Component)

module _ {Component Data Interest Block S : Type 0} ⦃o : Ord (List Component)⦄
    (env : ArrivalEnv Component Data Interest Block S) (opts : FetchOptions) where
  unfoldable pub insert_entries :
      List Component
      → List (MappingEntry Component Block)
      → Received Component (Client Component Data Interest Block S)
      → Received Component (Client Component Data Interest Block S)
  insert_entries node_id [] r = r
  insert_entries node_id (entry ∷ entries) r = insert_entries node_id entries (record {
    client = record r.client {
      outputs = record r.client.outputs {
        provider =
            insert_mapping env.client.components node_id entry.bootstrap_time entry.seq_no
              entry.mapping r.client.outputs.provider;
      };
    };
    mappings = r.mappings ++ (node_id, (entry.bootstrap_time, entry.seq_no)) ∷ [];
  })

  -- a block that is no list of mappings is passed over
  unfoldable pub insert_list :
      Result (MappingList Component Block)
      → Received Component (Client Component Data Interest Block S)
      → Received Component (Client Component Data Interest Block S)
  unfolding insert_entries
  insert_list (err e) r = r
  insert_list (ok list) r = insert_entries list.node_id list.pairs r

  unfoldable pub repair_requested :
      ℕ
      → Result (List (MissingDataInfo (List Component)))
      → Received Component (Client Component Data Interest Block S)
      → Option (Received Component (Client Component Data Interest Block S))
  repair_requested fuel (err e) r = some r
  repair_requested fuel (ok requests) r = elim (repair_each env opts fuel requests r.client) [
    | none ↦ none
    | some c ↦ some (record r { client = c })
  ]

  unfoldable pub receive_packet :
      Result Data
      → Received Component (Client Component Data Interest Block S)
      → Received Component (Client Component Data Interest Block S)
  receive_packet (err e) r = r
  receive_packet (ok packet) r = record r {
    client =
        cache_packet env opts packet
          (satisfy_pending_fetch_from_piggy_data env opts packet r.client);
  }

  -- A request of a child reaches its first number at least.
  abbrev pub at_least_one : MissingDataInfo (List Component) → MissingDataInfo (List Component)
  at_least_one request = record request { high = max request.high request.low }

  abbrev pub child_requests : Block → Result (List (MissingDataInfo (List Component)))
  child_requests child = elim (decode_repair_requests env.codec.tlv child) [
    | err e ↦ err e
    | ok requests ↦ ok (map at_least_one requests)
  ]

  -- a child, which was checked and can be read
  unfoldable pub receive_child :
      ℕ
      → Block
      → Received Component (Client Component Data Interest Block S)
      → Option (Received Component (Client Component Data Interest Block S))
  unfolding insert_list repair_requested receive_packet
  receive_child fuel child r =
      let type = env.codec.tlv.type child in
      if type == Kind.mapping_data
      then some (insert_list (Codec.decode env.codec.tlv v3 child) r)
      else if type == data_type
      then some (receive_packet (env.codec.read_data child) r)
      else if type == Kind.repair_data
      then repair_requested fuel (child_requests child) r
      else some r

  unfoldable pub receive_children :
      ℕ
      → List Block
      → Received Component (Client Component Data Interest Block S)
      → Option (Received Component (Client Component Data Interest Block S))
  unfolding receive_child
  receive_children fuel [] r = some r
  receive_children fuel (child ∷ children) r = elim (receive_child fuel child r) [
    | none ↦ none
    | some next ↦ receive_children fuel children next
  ]

  -- the mappings that came, in order; one that throws is passed over
  unfoldable pub process_received :
      List (PublicationKey Component)
      → Bool
      → Client Component Data Interest Block S
      → Bool × Client Component Data Interest Block S
  process_received [] queued c = (queued, c)
  process_received (key ∷ keys) queued c = elim (process_mapping env.client opts key c) [
    | err e ↦ process_received keys queued c
    | ok r ↦ process_received keys (queued || r.0) r.1
  ]

  unfoldable pub finish_received :
      Received Component (Client Component Data Interest Block S)
      → Client Component Data Interest Block S
  unfolding process_received
  finish_received r =
      let processed = process_received r.mappings false r.client in
      if processed.0
      then fetch_all env.client.packets env.client.components opts env.client.now env.client.sort
          processed.1
      else processed.1

  -- a block that was checked: its own mappings or requests, then its children
  unfoldable pub receive_checked :
      ℕ
      → Block
      → List Block
      → Client Component Data Interest Block S
      → Option (Client Component Data Interest Block S)
  unfolding insert_list repair_requested receive_children finish_received
  receive_checked fuel block children c =
      let listed =
        insert_list (Codec.decode env.codec.tlv v3 block) (record { client = c; mappings = [] }) in
      elim (if env.codec.tlv.type block == Kind.repair_data
        then repair_requested fuel (decode_repair_requests env.codec.tlv block) listed
        else some listed) [
          | none ↦ none
          | some repaired ↦ elim (receive_children fuel children repaired) [
            | none ↦ none
            | some received ↦ some (finish_received received)
          ]
        ]

  unfoldable pub on_recv_extra_data :
      ℕ
      → Block
      → Client Component Data Interest Block S
      → Option (Client Component Data Interest Block S)
  unfolding receive_checked
  on_recv_extra_data fuel block c =
      if not (is_known_extension (env.codec.tlv.type block))
      then some c
      else elim (check_extension env.codec block) [
        | err e ↦ some c
        | ok u ↦ elim (env.codec.tlv.elements block) [
          | err e ↦ some c
          | ok children ↦ receive_checked fuel block children c
        ]
      ]

  unfoldable pub recv_each :
      ℕ
      → List Block
      → Client Component Data Interest Block S
      → Option (Client Component Data Interest Block S)
  unfolding on_recv_extra_data
  recv_each fuel [] c = some c
  recv_each fuel (block ∷ blocks) c = elim (on_recv_extra_data fuel block c) [
    | none ↦ none
    | some next ↦ recv_each fuel blocks next
  ]

  unfoldable pub on_recv_extra_blocks :
      ℕ
      → List Block
      → Client Component Data Interest Block S
      → Option (Client Component Data Interest Block S)
  unfolding recv_each
  on_recv_extra_blocks fuel blocks c = elim (check_blocks env.codec blocks) [
    | err e ↦ some c
    | ok u ↦ recv_each fuel blocks c
  ]
