-- ===== src/Examples/Packets.antt =====
-- The theorems on the options and on Sync Interests, with packets made of numbers.
use ndn_svs.Base.{
  ℕ, ◌≡◌, refl, Bool, true, false, none, some, List, [], ◌∷◌, ◌++◌, nat_ord, ◌==◌, Result, ok, err,
  Error, ◌>>◌,
}
use ndn_svs.VersionVector.{is_bootstrap_time_too_far_in_future}
use ndn_svs.Core.State.{v3}
use ndn_svs.SyncProtocol.{Ndn, DecodedSyncEnvelope, contains}
use ndn_svs.SyncProtocol.Options.{
  SyncProtocolOptions, pos, resolve, with_defaults, timers_out_of_range, is_positive, is_negative,
  default_lifetime, default_suppression, value_or, bootstrap_too_far,
}
use ndn_svs.SyncProtocol.Extensions.{
  check_extensions, check_each, collect, collect-check_extensions,
}
use ndn_svs.SyncProtocol.Codec.{encode, decode}
use ndn_svs.SyncProtocol.RoundTrip.{NdnLaws, Signs, decode-encode_v3}
use ndn_svs.SyncProtocol.Accepted.{IsAccepted, decode-IsAccepted}
use ndn_svs.Examples.{one, one-IsValid, one-IsEncodable}
use ndn_svs.Examples.Blocks.{Tree, nothing, branch, packet, type_of, tree_tlv, tree_laws}

-- an Interest is a name with its parameters, Data a name with whether it is signed, and the content
abbrev Sample : Type 0
Sample = Tree ℕ

abbrev SampleInterest : Type 0
SampleInterest = List ℕ × Sample

abbrev SampleData : Type 0
SampleData = List ℕ × Bool × Sample

unfoldable read_sample : Sample → Result SampleData
read_sample (packet n s c) = ok (n, s, c)
read_sample _ = err Error.tlv_error

abbrev sample_ndn : Ndn ℕ Sample SampleInterest SampleData
sample_ndn = record {
  version = λ k. k;
  is_parameters_digest = λ k. k == 99;
  make_interest = λ n p l. (n ++ 99 ∷ [], p);
  interest_name = λ i. i.0;
  is_digest_valid = λ i. true;
  application_parameters = λ i. some i.1;
  make_data = λ n c. (n, false, c);
  data_block = λ d. packet d.0 d.1 d.2;
  read_data = read_sample;
  data_name = λ d. d.0;
  is_signature_valid = λ d. d.1;
  data_content = λ d. d.2;
}

sample_laws : NdnLaws tree_tlv sample_ndn
unfolding read_sample type_of
sample_laws = record {
  digest = λ p. 99;
  is_parameters_digest-digest = λ p. refl;
  interest_name-make = λ n p l. refl;
  is_digest_valid-make = λ n p l. refl;
  application_parameters-make = λ n p l. refl;
  type-data_block = λ d. refl;
  read_data-data_block = λ d. refl;
}

abbrev sample_sign : SampleData → Result SampleData
sample_sign d = ok (d.0, true, d.2)

sample-Signs : Signs sample_ndn sample_sign
sample-Signs = record {
  signed = λ n c. (n, true, c);
  returns = λ n c. refl;
  data_name-signed = λ n c. refl;
  data_content-signed = λ n c. refl;
  is_signature_valid-signed = λ n c. refl;
}

-- a mapping and an application's own block
abbrev sample_extensions : List Sample
sample_extensions = branch 205 nothing ∷ branch 300 nothing ∷ []

sample_checked : check_extensions tree_tlv sample_extensions ≡ ok tt
unfolding check_extensions check_each contains type_of
sample_checked = refl

sample_round :
    (interest : SampleInterest) × (envelope : DecodedSyncEnvelope ℕ Sample SampleData) × (encode
        tree_tlv sample_ndn none
        (4 ∷ [])
        one
        sample_extensions
        v3
        1000
        (some sample_sign)
      ≡ ok interest)
    × (decode tree_tlv sample_ndn 5 none interest (4 ∷ []) v3 true ≡ ok envelope)
    × (envelope.extensions ≡ sample_extensions)
    × (envelope.state_vector.entries ≡ one.entries)
sample_round =
    decode-encode_v3 tree_tlv sample_ndn tree_laws sample_laws 5 none (4 ∷ []) one sample_extensions
      1000 sample_sign one-IsValid one-IsEncodable sample_checked sample-Signs

-- its packet, and its envelope
abbrev sample_interest : SampleInterest
sample_interest = sample_round.0

abbrev sample_envelope : DecodedSyncEnvelope ℕ Sample SampleData
sample_envelope = sample_round.1

decode-encode_v3_example :
    (interest : SampleInterest) × (envelope : DecodedSyncEnvelope ℕ Sample SampleData) × (encode
        tree_tlv sample_ndn none
        (4 ∷ [])
        one
        sample_extensions
        v3
        1000
        (some sample_sign)
      ≡ ok interest)
    × (decode tree_tlv sample_ndn 5 none interest (4 ∷ []) v3 true ≡ ok envelope)
    × (envelope.extensions ≡ sample_extensions)
    × (envelope.state_vector.entries ≡ one.entries)
decode-encode_v3_example =
    decode-encode_v3 tree_tlv sample_ndn tree_laws sample_laws 5 none (4 ∷ []) one sample_extensions
      1000 sample_sign one-IsValid one-IsEncodable sample_checked sample-Signs

decode-IsAccepted_example : IsAccepted tree_tlv sample_ndn sample_envelope
decode-IsAccepted_example =
    decode-IsAccepted tree_tlv sample_ndn 5 none sample_interest (4 ∷ []) v3 true sample_envelope
      sample_round.3

collect-check_extensions_example :
    collect tree_tlv [] [] sample_extensions
    ≡ (check_extensions tree_tlv sample_extensions >> ok sample_extensions)
collect-check_extensions_example = collect-check_extensions tree_tlv sample_extensions

abbrev sample_options : SyncProtocolOptions ℕ
sample_options = record {
  version = v3;
  bootstrap_time = some 7;
  sync_interest_lifetime = none;
  suppression_period = none;
  periodic_timeout = some (pos 5);
  periodic_jitter = 0;
}

abbrev no_jitter : ℕ → Bool
no_jitter j = false

sample_resolved : resolve no_jitter 5 sample_options ≡ ok (with_defaults sample_options)
unfolding resolve with_defaults timers_out_of_range is_positive is_negative default_lifetime
    default_suppression value_or bootstrap_too_far is_bootstrap_time_too_far_in_future
sample_resolved = refl
