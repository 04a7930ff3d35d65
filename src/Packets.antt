-- ===== src/Packets.antt =====
-- What ndn-svs/svsync-base.cpp and ndn-svs/svspubsub.cpp ask of ndn-cxx's `Data` and of the marked
-- components of names. A packet is built from its fields and signed; bytes are numbers.
use ndn_svs.Base.{
  ℕ, ◌≡◌, Bool, true, Option, none, some, List, ◌∷◌, reverse, Result, ok, err, Error, length,
}

-- the fields that the code sets
pub record DataFields (Component : Type 0) : Type 0 where
  pub name : List Component
  pub content : List ℕ
  pub freshness_period : ℕ
  pub content_type : ℕ
  pub final_block : Option Component

-- `sign` is the constructor, the setters and the data signer, which may throw. `parse` is
-- `Data(block)`.
pub record Packets (Component Data : Type 0) : Type 0 where
  pub sign : DataFields Component → Result Data
  pub fields : Data → DataFields Component
  pub wire_encode : Data → List ℕ
  pub parse : List ℕ → Result Data

pub record PacketsLaws {Component Data : Type 0} (pk : Packets Component Data) : Type 0 where
  pub fields-sign : (f : DataFields Component) (x : Data) → pk.sign f ≡ ok x → pk.fields x ≡ f
  pub parse-wire_encode : (x : Data) → pk.parse (pk.wire_encode x) ≡ ok x

abbrev pub wire_size : {Component Data : Type 0} → Packets Component Data → Data → ℕ
wire_size pk x = length (pk.wire_encode x)

-- `ndn::MAX_NDN_PACKET_SIZE`
abbrev pub max_ndn_packet_size : ℕ
max_ndn_packet_size = 8800

-- `appendVersion`, `appendSegment`, `isVersion`, and `toSegment` where `isSegment`
pub record Markers (Component : Type 0) : Type 0 where
  pub version : ℕ → Component
  pub segment : ℕ → Component
  pub is_version : Component → Bool
  pub to_segment : Component → Option ℕ

pub record MarkersLaws {Component : Type 0} (mk : Markers Component) : Type 0 where
  pub is_version-version : (n : ℕ) → mk.is_version (mk.version n) ≡ true
  pub to_segment-segment : (n : ℕ) → mk.to_segment (mk.segment n) ≡ some n

-- the prefix of a name, and its last two components, of a name backwards
abbrev pub ends_back :
    {Component : Type 0} → List Component → Option (List Component × Component × Component)
ends_back (z ∷ y ∷ xs) = some (reverse xs, y, z)
ends_back _ = none

-- `name.getPrefix(-2)`, `name[-2]` and `name[-1]`
abbrev pub ends :
    {Component : Type 0} → List Component → Option (List Component × Component × Component)
ends name = ends_back (reverse name)

-- what must be there
abbrev pub required {ℓ} : {A : Type ℓ} → Error → Option A → Result A
required e none = err e
required e (some a) = ok a
