-- ===== src/Examples/Vectors.antt =====
-- The theorems on version vectors and their merge, on two small vectors.
use ndn_svs.Base.{ℕ, ◌≡◌, ◌↔◌, refl, max, true, false, ltb, leb, ◌&&◌, nat_ord, if◌then◌else◌, ok}
use ndn_svs.Base.OrdMap.{find, insert}
use ndn_svs.VersionVector.{VersionVector, store, set, get, get_entries, refresh_latest}
use ndn_svs.VersionVector.Updates.{IsUpdated, set-IsUpdated}
use ndn_svs.VersionVector.Codec
use ndn_svs.VersionVector.Codec.RoundTrip.{decode-encode}
use ndn_svs.Core.Merge.{compute_merge_state_vector}
use ndn_svs.Core.Merge.Total.{
  merged, compute_merge_state_vector-total, flat, flat_session, learn, learn_all,
}
use ndn_svs.Core.Merge.Missing.{reports}
use ndn_svs.Core.Merge.Newness.{Ahead}
use ndn_svs.Core.Merge.Computed.{get-computed, reports-computed, newness-computed, computed_assoc}
use ndn_svs.Examples.{one, two, one-IsValid, two-IsValid, one-IsEncodable}
use ndn_svs.Examples.Blocks.{tree_tlv, tree_laws}

compute_merge_state_vector-total_example :
    compute_merge_state_vector 5 two one ≡ ok (merged 5 two one)
compute_merge_state_vector-total_example = compute_merge_state_vector-total 5 two one

get-computed_example : get (merged 5 two one).merged_vector 1 7 ≡ max (get two 1 7) (get one 1 7)
get-computed_example =
    get-computed 5 two one (merged 5 two one) 1 7 one-IsValid
      (compute_merge_state_vector-total 5 two one)

reports-computed_example :
    reports (merged 5 two one).missing_data 1 7 3
    ≡ (if ltb (get two 1 7) 3 && leb 3 (get one 1 7) then 1 else 0)
reports-computed_example =
    reports-computed 5 two one (merged 5 two one) 1 7 3 one-IsValid
      (compute_merge_state_vector-total 5 two one)

newness-computed_example :
    (((merged 5 two one).other_vector_new ≡ true) ↔ Ahead one two)
    × (((merged 5 two one).my_vector_new ≡ true) ↔ Ahead two one)
newness-computed_example =
    newness-computed 5 two one (merged 5 two one) two-IsValid one-IsValid
      (compute_merge_state_vector-total 5 two one)

two_known : (merged 5 two two).other_vector_new ≡ false
unfolding merged flat flat_session learn learn_all store get get_entries refresh_latest find insert
two_known = refl

computed_assoc_example :
    (merged 5 (merged 5 one two).merged_vector one).merged_vector.entries
    ≡ (merged 6 one (merged 6 two one).merged_vector).merged_vector.entries
computed_assoc_example =
    computed_assoc 5 6 one two one (merged 5 one two)
      (merged 5 (merged 5 one two).merged_vector one) (merged 6 two one)
      (merged 6 one (merged 6 two one).merged_vector) one-IsValid two-IsValid one-IsValid
      (compute_merge_state_vector-total 5 one two)
      (compute_merge_state_vector-total 5 (merged 5 one two).merged_vector one)
      (compute_merge_state_vector-total 6 two one)
      (compute_merge_state_vector-total 6 one (merged 6 two one).merged_vector)

set-two : set 5 2 9 4 two ≡ ok (store 5 2 9 4 two)
unfolding set
set-two = refl

set-IsUpdated_example : IsUpdated 2 9 4 two (store 5 2 9 4 two)
set-IsUpdated_example = set-IsUpdated 5 2 9 4 two (store 5 2 9 4 two) two-IsValid set-two

decode-encode_example :
    (w : VersionVector ℕ) × (Codec.decode tree_tlv 5 (Codec.encode tree_tlv one) ≡ ok w)
    × (w.entries ≡ one.entries)
decode-encode_example = decode-encode tree_tlv tree_laws 5 one one-IsValid one-IsEncodable
