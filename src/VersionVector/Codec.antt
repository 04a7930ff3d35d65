-- ===== src/VersionVector/Codec.antt =====
-- The wire form of a version vector: `encode`, the decoding constructor, `encodeV2`, `decodeV2`.
-- Times are in seconds.
pub mod Decoded
pub mod RoundTrip
use ndn_svs.Base.{
  ℕ, Bool, true, false, not, ◌&&◌, ◌||◌, Option, none, some, List, [], ◌∷◌, ◌++◌, reverse, Ord,
  nat_ord, ◌==◌, if◌then◌else◌, Result, ok, err, Error, throw_if, ◌>>=◌, ◌>>◌,
}
use ndn_svs.Base.OrdMap.{OrdMap}
use ndn_svs.Tlv.{Tlv, prepend_each}
use ndn_svs.Tlv.Kind
use ndn_svs.VersionVector.{VersionVector, empty, set, is_bootstrap_time_too_far_in_future}

module _ {Node Block : Type 0} ⦃o : Ord Node⦄ (t : Tlv Node Block) where
  -- the BootstrapTime and the SeqNo of a SeqNoEntry
  unfoldable pub seq_no_pair : List Block → Result (Block × Block)
  seq_no_pair (x ∷ y ∷ []) =
      if not (t.type x == Kind.bootstrap_time) || not (t.type y == Kind.seq_no)
      then err Error.tlv_error
      else ok (x, y)
  seq_no_pair _ = err Error.tlv_error

  unfoldable pub decode_seq_no_entry :
      ℕ → Node → Block → VersionVector Node → Result (VersionVector Node)
  unfolding seq_no_pair
  decode_seq_no_entry now node_id block v = do
    throw_if (not (t.type block == Kind.seq_no_entry)) Error.tlv_error
    elements ← t.elements block
    pair ← seq_no_pair elements
    bootstrap_time ← t.read_number pair.0
    throw_if (is_bootstrap_time_too_far_in_future now bootstrap_time) Error.vector_error
    seq_no ← t.read_number pair.1
    throw_if (seq_no == 0) Error.vector_error
    set now node_id bootstrap_time seq_no v

  unfoldable pub decode_session :
      ℕ → Node → List Block → VersionVector Node → Result (VersionVector Node)
  unfolding decode_seq_no_entry
  decode_session now node_id [] v = ok v
  decode_session now node_id (block ∷ blocks) v = do
    v' ← decode_seq_no_entry now node_id block v
    decode_session now node_id blocks v'

  -- the Name that an entry begins with, and what follows it
  unfoldable pub entry_parts : List Block → Result (Block × List Block)
  entry_parts [] = err Error.tlv_error
  entry_parts (block ∷ blocks) =
      if not (t.type block == Kind.name) then err Error.tlv_error else ok (block, blocks)

  unfoldable pub decode_entry : ℕ → Block → VersionVector Node → Result (VersionVector Node)
  unfolding decode_session entry_parts
  decode_entry now block v = do
    throw_if (not (t.type block == Kind.state_vector_entry)) Error.tlv_error
    elements ← t.elements block
    parts ← entry_parts elements
    node_id ← t.read_name parts.0
    decode_session now node_id parts.1 v

  unfoldable pub decode_entries : ℕ → List Block → VersionVector Node → Result (VersionVector Node)
  unfolding decode_entry
  decode_entries now [] v = ok v
  decode_entries now (block ∷ blocks) v = do
    v' ← decode_entry now block v
    decode_entries now blocks v'

  -- `VersionVector(const ndn::Block&)`
  unfoldable pub decode : ℕ → Block → Result (VersionVector Node)
  unfolding decode_entries
  decode now block = do
    throw_if (not (t.type block == Kind.state_vector)) Error.tlv_error
    elements ← t.elements block
    decode_entries now elements empty

  -- the Name and the SeqNo of a V2 entry
  unfoldable pub v2_pair : List Block → Result (Block × Block)
  v2_pair (x ∷ y ∷ []) =
      if not (t.type x == Kind.name) || not (t.type y == Kind.seq_no_v2)
      then err Error.tlv_error
      else ok (x, y)
  v2_pair _ = err Error.tlv_error

  -- V2 has no epoch: its numbers stand under bootstrap time 0.
  unfoldable pub decode_v2_entry : ℕ → Block → VersionVector Node → Result (VersionVector Node)
  unfolding v2_pair
  decode_v2_entry now block v = do
    throw_if (not (t.type block == Kind.state_vector_entry)) Error.tlv_error
    elements ← t.elements block
    pair ← v2_pair elements
    seq_no ← t.read_number pair.1
    throw_if (seq_no == 0) Error.vector_error
    node_id ← t.read_name pair.0
    set now node_id 0 seq_no v

  unfoldable pub decode_v2_entries :
      ℕ → List Block → VersionVector Node → Result (VersionVector Node)
  unfolding decode_v2_entry
  decode_v2_entries now [] v = ok v
  decode_v2_entries now (block ∷ blocks) v = do
    v' ← decode_v2_entry now block v
    decode_v2_entries now blocks v'

  unfoldable pub decode_v2 : ℕ → Block → Result (VersionVector Node)
  unfolding decode_v2_entries
  decode_v2 now block = do
    throw_if (not (t.type block == Kind.state_vector)) Error.tlv_error
    elements ← t.elements block
    decode_v2_entries now elements empty

  -- one SeqNoEntry, as the loop prepends it
  unfoldable pub encode_seq_no_entry : ℕ × ℕ → Block
  encode_seq_no_entry (bootstrap_time, seq_no) =
      t.make Kind.seq_no_entry
        (t.number Kind.bootstrap_time bootstrap_time ∷ t.number Kind.seq_no seq_no ∷ [])

  unfoldable pub encode_entry : Node × OrdMap ℕ ℕ → Block
  unfolding encode_seq_no_entry
  encode_entry (node_id, seqs) =
      t.make Kind.state_vector_entry
        (t.name_block node_id ∷ prepend_each encode_seq_no_entry (reverse seqs) [])

  unfoldable pub encode : VersionVector Node → Block
  unfolding encode_entry
  encode v = t.make Kind.state_vector (prepend_each encode_entry (reverse v.entries) [])

  unfoldable pub encode_v2_entry : Node × ℕ → Block
  encode_v2_entry (node_id, seq_no) =
      t.make Kind.state_vector_entry (t.name_block node_id ∷ t.number Kind.seq_no_v2 seq_no ∷ [])

  unfoldable pub encode_v2 : VersionVector Node → Block
  unfolding encode_v2_entry
  encode_v2 v = t.make Kind.state_vector (prepend_each encode_v2_entry (reverse v.latest_map) [])
