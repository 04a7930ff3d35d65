-- ===== src/Examples/Segments.antt =====
-- The theorems on repair blocks, segments and the data store.
use mathlib.Core.List.{Permᴰ}
use ndn_svs.Base.{
  ℕ, zero, suc, ◌+◌, ◌≡◌, refl, arith, true, Option, none, some, List, [], ◌∷◌, length, take, drop,
  nat_ord, ◌==◌, ==_self, if◌then◌else◌, ok, err, Error, elem, Distinct,
}
use ndn_svs.Packets.{Packets}
use ndn_svs.Core.Merge.{MissingDataInfo}
use ndn_svs.SyncBase.{DataStore, insert_prepared_data_batch}
use ndn_svs.SyncBase.Rollback.{StoreLaws}
use ndn_svs.SyncBase.Batch.{IsAtomic, insert_prepared_data_batch-IsAtomic}
use ndn_svs.PubSub.Repair.{decode_repair_requests, encode_repair_requests, decode-encode_repair}
use ndn_svs.PubSub.Segments.{
  SegmentSource, prepare_segmented_packets, fit_passes, cut_segments, all_allowed, search,
  prepare_outer_segment, is_final_packet_size_allowed,
}
use ndn_svs.PubSub.Assembly.{decode_inner_segments}
use ndn_svs.PubSub.Assembled.{decode_inner_segments-order}
use ndn_svs.PubSub.Recovery.{decode_inner_segments-prepare}
use ndn_svs.PubSub.Search.{Finds, search-largest}
use ndn_svs.Examples.Blocks.{tree_tlv, tree_laws}
use ndn_svs.Examples.Mappings.{name_ord, compare_names}
use ndn_svs.Examples.Publications.{
  SampleData, sample_packets, sample_packets_laws, sample_markers, sample_markers_laws, wire_of,
}

abbrev requests : List (MissingDataInfo (List ℕ))
requests =
    record { node_id = 1 ∷ []; low = 2; high = 5; incoming_face = 0; bootstrap_time = 7 }
    ∷ record { node_id = 3 ∷ []; low = 1; high = 1; incoming_face = 0; bootstrap_time = 8 }
    ∷ []

decode-encode_repair_example :
    decode_repair_requests tree_tlv (encode_repair_requests tree_tlv requests) ≡ ok requests
decode-encode_repair_example = decode-encode_repair tree_tlv tree_laws requests (
  (omega arith, omega arith, omega arith, omega arith, refl),
  ((omega arith, omega arith, omega arith, omega arith, refl), tt),
)

abbrev source : SegmentSource ℕ
source = record {
  name = 1 ∷ 2 ∷ [];
  outer_name = 9 ∷ [];
  freshness_period = 4;
  value = 10 ∷ 11 ∷ 12 ∷ [];
}

-- the only segment of the value
abbrev inner : SampleData
inner = record {
  name = 1 ∷ 2 ∷ 7 ∷ 1000 ∷ [];
  content = 10 ∷ 11 ∷ 12 ∷ [];
  freshness_period = 4;
  content_type = 0;
  final_block = some 1000;
}

abbrev outer : SampleData
outer = record {
  name = 9 ∷ 7 ∷ 1000 ∷ [];
  content = wire_of inner;
  freshness_period = 4;
  content_type = 6;
  final_block = some 1000;
}

prepared : prepare_segmented_packets sample_packets sample_markers source ≡ ok (outer ∷ [])
unfolding prepare_segmented_packets fit_passes cut_segments all_allowed search prepare_outer_segment
    is_final_packet_size_allowed take drop wire_of
prepared = refl

decode_inner_segments-prepare_example :
    decode_inner_segments sample_packets sample_markers (wire_of inner ∷ [])
    ≡ some (record { name = 1 ∷ 2 ∷ []; payload = 10 ∷ 11 ∷ 12 ∷ [] })
decode_inner_segments-prepare_example =
    decode_inner_segments-prepare sample_packets sample_markers sample_packets_laws
      sample_markers_laws source (outer ∷ []) (wire_of inner ∷ []) prepared (omega arith)
      (Permᴰ.cons refl Permᴰ.nil)

-- the second of two segments
abbrev second : SampleData
second = record inner { name = 1 ∷ 2 ∷ 7 ∷ 1001 ∷ []; final_block = some 1001 }

abbrev first : SampleData
first = record inner { final_block = some 1001 }

decode_inner_segments-order_example :
    decode_inner_segments sample_packets sample_markers (wire_of first ∷ wire_of second ∷ [])
    ≡ decode_inner_segments sample_packets sample_markers (wire_of second ∷ wire_of first ∷ [])
decode_inner_segments-order_example =
    decode_inner_segments-order sample_packets sample_markers (wire_of first ∷ wire_of second ∷ [])
      (wire_of second ∷ wire_of first ∷ []) (Permᴰ.swap refl refl)

unfoldable zeros : ℕ → List ℕ
zeros zero = []
zeros (suc n) = 0 ∷ zeros n

length-zeros : (n : ℕ) → length (zeros n) ≡ n
unfolding zeros
length-zeros zero = refl
length-zeros (suc n) = omega (arith, length-zeros n)

-- a packet of a size, as its bytes
abbrev sized_packets : Packets ℕ ℕ
sized_packets = record {
  sign = λ f. ok 0;
  fields = λ x. record {
    name = [];
    content = [];
    freshness_period = 0;
    content_type = 0;
    final_block = none;
  };
  wire_encode = zeros;
  parse = λ b. ok (length b);
}

search-largest_example :
    Finds sized_packets sample_markers
      (λ n. n + 8797)
      8
      (search sized_packets sample_markers (λ n. ok (n + 8797)) 8 1 8 none)
search-largest_example =
    search-largest sized_packets sample_markers (λ n. n + 8797)
      (λ a b h. omega (arith, h, length-zeros (a + 8797), length-zeros (b + 8797))) 8

-- a store that refuses packets of type 99
abbrev pub Memory : Type 0
Memory = List ℕ → Option SampleData

abbrev pub sample_store : DataStore ℕ SampleData ℕ Memory
sample_store = record {
  find = λ i s. s (i ∷ []);
  insert = λ x s.
      if x.content_type == 99
      then (err Error.store_error, s)
      else (ok tt, λ n. if n == x.name then some x else s n);
  supports_erase = true;
  erase = λ q s. (ok tt, λ n. if n == q then none else s n);
}

abbrev pub nothing_stored : Memory
nothing_stored = λ n. none

abbrev pub sample_store_laws : StoreLaws sample_packets sample_store
sample_store_laws = record {
  read = λ n s. s n;
  read-insert = λ x s n e. ground arith;
  read-insert_err = λ x s e n h. ground arith;
  read-erase = λ q s h. rw (==_self q) refl;
  read_other-erase = λ q s n h. ground arith;
}

abbrev refused : SampleData
refused = record second { content_type = 99 }

names_differ : Distinct (first.name ∷ refused.name ∷ [])
unfolding elem compare_names
names_differ = (refl, (refl, tt))

insert_prepared_data_batch-IsAtomic_example :
    IsAtomic sample_packets sample_store sample_store_laws
      (first ∷ refused ∷ [])
      nothing_stored
      (insert_prepared_data_batch sample_packets sample_store (first ∷ refused ∷ []) nothing_stored)
insert_prepared_data_batch-IsAtomic_example =
    insert_prepared_data_batch-IsAtomic sample_packets sample_store sample_store_laws
      (first ∷ refused ∷ []) nothing_stored (refl, (refl, tt)) names_differ
