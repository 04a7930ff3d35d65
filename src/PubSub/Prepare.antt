-- ===== src/PubSub/Prepare.antt =====
-- How the packets of a publication are built and signed, before anything is stored.
use ndn_svs.Base.{ℕ, true, false, none, some, List, [], ◌∷◌, leb, if◌then◌else◌, Result, ok, ◌>>=◌}
use ndn_svs.Packets.{wire_size}
use ndn_svs.SyncBase.{make_data_name}
use ndn_svs.PubSub.Segments.{is_final_packet_size_allowed, prepare_segmented_packets}
use ndn_svs.PubSub.State.{
  AsyncPublication, PreparedPublication, PubSub, Env, Kind, bytes, name_only, packet,
}

module _ {Component Data Interest Block S : Type 0}
    (env : Env Component Data Interest Block S) where
  -- `m_svsync.getDataName`
  abbrev pub data_name :
      PubSub Component Data Interest Block S → List Component → ℕ → ℕ → List Component
  data_name s nid bootstrap_time seq_no =
      make_data_name env.components env.wire.version s.outputs.base.sync_prefix nid bootstrap_time
        seq_no

  unfoldable pub prepare_reserved_name_only :
      AsyncPublication Component Data Block → PreparedPublication Component Data Block
  prepare_reserved_name_only p = record {
    seq_no = p.seq_no;
    bootstrap_time = p.bootstrap_time;
    node_prefix = p.node_prefix;
    mapping_name = p.name;
    freshness_period = p.freshness_period;
    outer_packets = [];
    piggy_packet = none;
    mapping_blocks = p.mapping_blocks;
    put_first_packet_to_face = false;
    stored = false;
    ok = true;
    commit_attempts = 0;
    retry_scheduled = false;
  }

  unfoldable pub prepare_reserved_packet :
      PubSub Component Data Interest Block S
      → AsyncPublication Component Data Block
      → Data
      → Result (PreparedPublication Component Data Block)
  unfolding prepare_reserved_name_only
  prepare_reserved_packet s p x = do
    let f = env.packets.fields x
    outer ← env.packets.sign (record {
      name = data_name s p.node_prefix p.bootstrap_time p.seq_no;
      content = env.packets.wire_encode x;
      freshness_period = f.freshness_period;
      content_type = 6;
      final_block = none;
    })
    ok (record (prepare_reserved_name_only p) {
      mapping_name = f.name;
      freshness_period = f.freshness_period;
      put_first_packet_to_face = true;
      outer_packets = outer ∷ [];
    })

  unfoldable pub prepare_reserved_bytes :
      PubSub Component Data Interest Block S
      → AsyncPublication Component Data Block
      → List ℕ
      → Result (PreparedPublication Component Data Block)
  unfolding prepare_reserved_name_only is_final_packet_size_allowed prepare_segmented_packets
  prepare_reserved_bytes s p value = do
    inner ← env.packets.sign (record {
      name = p.name;
      content = value;
      freshness_period = p.freshness_period;
      content_type = 0;
      final_block = none;
    })
    let outer_name = data_name s p.node_prefix p.bootstrap_time p.seq_no
    outer ← env.packets.sign (record {
      name = outer_name;
      content = env.packets.wire_encode inner;
      freshness_period = p.freshness_period;
      content_type = 6;
      final_block = none;
    })
    if is_final_packet_size_allowed env.packets env.markers (wire_size env.packets outer)
        then ok (record (prepare_reserved_name_only p) {
          piggy_packet =
              if leb (wire_size env.packets inner) s.max_piggy_data_size then some inner else none;
          put_first_packet_to_face = true;
          outer_packets = outer ∷ [];
        })
        else (do
          packets ← prepare_segmented_packets env.packets env.markers (record {
            name = p.name;
            outer_name = outer_name;
            freshness_period = p.freshness_period;
            value = value;
          })
          ok (record (prepare_reserved_name_only p) { outer_packets = packets }))

  -- the `switch` of `prepareAndStageAsyncPublication`
  unfoldable pub prepare :
      PubSub Component Data Interest Block S
      → AsyncPublication Component Data Block
      → Kind Data
      → Result (PreparedPublication Component Data Block)
  unfolding prepare_reserved_bytes prepare_reserved_packet prepare_reserved_name_only
  prepare s p (bytes value) = prepare_reserved_bytes s p value
  prepare s p name_only = ok (prepare_reserved_name_only p)
  prepare s p (packet x) = prepare_reserved_packet s p x
