-- ===== src/SyncProtocol.antt =====
-- ndn-svs/sync-protocol.hpp and ndn-svs/sync-protocol.cpp: the protocol's options, and the Sync
-- Interest as it is put together and taken apart.
--
-- Packets are ndn-cxx's: `Ndn` is what the code asks of a `Name`, an `Interest` and a `Data`. A name
-- is a list of components. Version 2 is compressed where `Compression` is given, as the build with
-- NDN_SVS_COMPRESSION does.
pub mod Options
pub mod Codec
pub mod Extensions
pub mod RoundTrip
pub mod Accepted
use ndn_svs.Base.{
  ℕ, zero, suc, ◌+◌, Bool, true, false, not, ◌&&◌, ◌||◌, Option, none, some, List, [], ◌∷◌, ◌++◌,
  reverse, length, ltb, leb, Ord, nat_ord, ◌==◌, if◌then◌else◌, Result, ok, err, Error, throw_if,
  ◌>>=◌, ◌>>◌,
}
use ndn_svs.Tlv.{Tlv, prepend_each}
use ndn_svs.Tlv.Kind
use ndn_svs.VersionVector.{VersionVector, empty}
use ndn_svs.Core.State.{Version, v2, v3}

pub record Ndn (Component Block Interest Data : Type 0) : Type 0 where
  pub version : ℕ → Component
  pub is_parameters_digest : Component → Bool
  pub make_interest : List Component → Block → ℕ → Interest
  pub interest_name : Interest → List Component
  pub is_digest_valid : Interest → Bool
  pub application_parameters : Interest → Option Block
  pub make_data : List Component → Block → Data
  pub data_block : Data → Block
  pub read_data : Block → Result Data
  pub data_name : Data → List Component
  pub is_signature_valid : Data → Bool
  pub data_content : Data → Block

-- `compress` makes an LzmaBlock, `decompress` takes one apart, or throws.
pub record Compression (Block : Type 0) : Type 0 where
  pub compress : Block → Block
  pub decompress : Block → Result Block

-- `DecodedSyncEnvelope`
pub record DecodedSyncEnvelope (Node Block Data : Type 0) : Type 0 where
  pub state_vector : VersionVector Node
  pub state_vector_decoded : Bool
  pub extensions : List Block
  pub state_vector_data : Option Data

abbrev pub max_extension_blocks : ℕ
max_extension_blocks = 16

-- the set of the known types met so far
unfoldable pub contains : ℕ → List ℕ → Bool
contains k [] = false
contains k (x ∷ xs) = k == x || contains k xs

abbrev pub is_known : ℕ → Bool
is_known k = k == Kind.mapping_data || k == Kind.repair_data

abbrev pub is_core : ℕ → Bool
is_core k = k == Kind.state_vector || k == Kind.data_packet

abbrev pub remember : ℕ → List ℕ → List ℕ
remember k known = if is_known k then k ∷ known else known

-- `Name::operator==`, `getPrefix(n)` and `at(-1)`
unfoldable pub same_name :
    {Component : Type 0} ⦃o : Ord Component⦄ → List Component → List Component → Bool
same_name [] [] = true
same_name (x ∷ xs) (y ∷ ys) = x == y && same_name xs ys
same_name _ _ = false

unfoldable pub take {ℓ} : {A : Type ℓ} → ℕ → List A → List A
take zero xs = []
take (suc n) [] = []
take (suc n) (x ∷ xs) = x ∷ take n xs

unfoldable pub last_is {ℓ} : {A : Type ℓ} → (A → Bool) → List A → Bool
last_is p [] = false
last_is p (x ∷ []) = p x
last_is p (x ∷ y ∷ xs) = last_is p (y ∷ xs)

unfoldable pub version_number : Version → ℕ
version_number v2 = 2
version_number v3 = 3

-- the blocks of the first type that is sought: `find` and `get`
unfoldable pub find_block : {Node Block : Type 0} → Tlv Node Block → ℕ → List Block → Option Block
find_block t k [] = none
find_block t k (x ∷ xs) = if t.type x == k then some x else find_block t k xs
