-- ===== src/Examples/Extras.antt =====
-- The theorems on mapping queries and on what Sync Interests carry, with blocks as trees.
use ndn_svs.Base.{
  ℕ, ◌+◌, ◌-◌, ◌≡◌, refl, false, none, some, List, [], ◌∷◌, Result, ok, err, Error, arith, ap,
  nat_ord, ◌==◌, ==_self, ltb, if◌then◌else◌,
}
use ndn_svs.Core.State.{v3}
use ndn_svs.Core.Merge.{MissingDataInfo}
use ndn_svs.Mapping.{MappingEntry, MappingProvider}
use ndn_svs.Mapping.RoundTrip.{wire_time}
use ndn_svs.Mapping.QueryName.{
  QueryComponents, QueryLaws, get_mapping_query_data_name, parse_mapping_query_data_name,
  parse-get_mapping_query_data_name,
}
use ndn_svs.PubSub.State.{ExtraQueues, fresh_piggy}
use ndn_svs.PubSub.Extra.{ExtraCodec, ExtraCodecLaws, PackOptions, on_get_extra_data}
use ndn_svs.PubSub.Packing.{IsPacked, on_get_extra_data-IsPacked, rounds, rounds_empty}
use ndn_svs.Examples.Blocks.{
  Tree, nothing, before, branch, number, named, packet, type_of, tree_tlv, tree_laws,
}
use ndn_svs.Examples.Mappings.{name_ord, sample_components}

abbrev sample_query : QueryComponents ℕ
sample_query = record {
  components = sample_components;
  mapping = 99;
  is_mapping = λ c. c == 99;
  number = λ n. 3000 + n;
  to_number = λ c. ok (c - 3000);
  to_timestamp = λ c. if ltb c 1000 then none else some (c - 1000);
  to_sequence_number = λ c. if ltb c 2000 then none else some (c - 2000);
}

sample_query_laws : QueryLaws sample_query
sample_query_laws = record {
  is_mapping-mapping = ==_self {K = ℕ} 99;
  to_number-number = λ n. ap ok (omega arith);
  to_timestamp-timestamp = λ n. ground arith;
  to_sequence_number-sequence_number = λ n. ground arith;
}

abbrev provider_of : List ℕ → MappingProvider ℕ ℕ
provider_of id = record { sync_prefix = 9 ∷ []; id = id; version = v3; map = [] }

abbrev asked : MissingDataInfo (List ℕ)
asked = record { node_id = 1 ∷ 2 ∷ []; low = 3; high = 8; incoming_face = 4; bootstrap_time = 7 }

parse-get_mapping_query_data_name_example :
    parse_mapping_query_data_name sample_query
      (get_mapping_query_data_name sample_query asked (provider_of (5 ∷ [])))
      (provider_of (1 ∷ 2 ∷ []))
    ≡ ok (record asked { incoming_face = 0; bootstrap_time = 7 })
unfolding wire_time
parse-get_mapping_query_data_name_example =
    parse-get_mapping_query_data_name sample_query sample_query_laws asked (provider_of (5 ∷ []))
      (provider_of (1 ∷ 2 ∷ [])) refl refl refl

abbrev Sample : Type 0
Sample = Tree (List ℕ)

unfoldable size_of : Sample → ℕ
size_of (before x xs) = size_of x + size_of xs
size_of (branch k x) = 2 + size_of x
size_of (number k n) = 3
size_of (named n) = 4
size_of (packet n b c) = 9
size_of nothing = 0

unfoldable read_packet : Sample → Result ℕ
read_packet (packet (n ∷ []) b c) = ok n
read_packet _ = err Error.tlv_error

abbrev sample_codec : ExtraCodec ℕ ℕ Sample
sample_codec = record {
  tlv = tree_tlv;
  size = size_of;
  data_block = λ d. packet (d ∷ []) false nothing;
  read_data = read_packet;
}

sample_codec_laws : ExtraCodecLaws sample_codec
unfolding type_of read_packet
sample_codec_laws = record {
  tlv_laws = tree_laws;
  type-data_block = λ d. refl;
  read_data-data_block = λ d. refl;
}

abbrev sample_options : PackOptions
sample_options = record {
  max_application_parameters_size = 60;
  piggyback_repeat_count = 2;
  piggyback_miss_limit = 3;
  repair_request_repeat_count = 3;
}

abbrev piggy_entry : MappingEntry ℕ Sample
piggy_entry = record {
  bootstrap_time = 7;
  seq_no = 3;
  mapping = record { name = 50 ∷ []; blocks = [] };
}

-- a queue of each kind has an entry
abbrev sample_queues : ExtraQueues ℕ ℕ Sample
sample_queues = record {
  notification_mapping_list = record {
    node_id = 1 ∷ [];
    pairs = piggy_entry ∷ piggy_entry ∷ piggy_entry ∷ [];
  };
  piggy_mapping_queue = fresh_piggy (record { node_id = 1 ∷ []; mapping = piggy_entry }) ∷ [];
  piggy_data_queue = fresh_piggy 11 ∷ fresh_piggy 12 ∷ [];
  repair_request_queue = fresh_piggy asked ∷ [];
}

on_get_extra_data-IsPacked_example :
    IsPacked sample_codec sample_codec_laws sample_options sample_queues
      (on_get_extra_data sample_codec sample_options sample_queues).0
on_get_extra_data-IsPacked_example =
    on_get_extra_data-IsPacked sample_codec sample_codec_laws sample_options sample_queues

rounds_empty_example :
    let r = rounds sample_codec sample_codec_laws sample_options 7 sample_queues in
    (r.piggy_mapping_queue ≡ []) × (r.piggy_data_queue ≡ []) × (r.repair_request_queue ≡ [])
rounds_empty_example =
    rounds_empty sample_codec sample_codec_laws sample_options 7 sample_queues (omega arith)
      (omega arith)
