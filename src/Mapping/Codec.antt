-- ===== src/Mapping/Codec.antt =====
-- `MappingList(const Block&)` and `MappingList::encode`.
use ndn_svs.Base.{
  ℕ, not, ◌||◌, List, [], ◌∷◌, ◌++◌, nat_ord, ◌==◌, if◌then◌else◌, Result, ok, err, Error, throw_if,
  ◌>>=◌, ◌>>◌,
}
use ndn_svs.Tlv.{Tlv, prepend_each}
use ndn_svs.Tlv.Kind
use ndn_svs.Core.State.{Version, v2, v3}
use ndn_svs.Mapping.{MappingEntry, MappingList}

-- `elements().at(0)`, and what stands behind it
unfoldable pub at_front : {A : Type 0} → List A → Result (A × List A)
at_front [] = err Error.out_of_range
at_front (x ∷ xs) = ok (x, xs)

module _ {Component Block : Type 0} (t : Tlv (List Component) Block) where
  -- the BootstrapTime and the SeqNo that a SeqNoEntry begins with
  unfoldable pub seq_no_entry_pair : List Block → Result (Block × Block)
  seq_no_entry_pair (x ∷ y ∷ others) =
      if not (t.type x == Kind.bootstrap_time) || not (t.type y == Kind.seq_no)
      then err Error.tlv_error
      else ok (x, y)
  seq_no_entry_pair _ = err Error.tlv_error

  -- the number of an entry, after its bootstrap time
  unfoldable pub decode_number : Version → Block → Result (ℕ × ℕ)
  unfolding seq_no_entry_pair
  decode_number v2 block = do
    throw_if (not (t.type block == Kind.seq_no)) Error.tlv_error
    seq_no ← t.read_number block
    ok (0, seq_no)
  decode_number v3 block = do
    elements ← t.elements block
    throw_if (not (t.type block == Kind.seq_no_entry)) Error.tlv_error
    pair ← seq_no_entry_pair elements
    bootstrap_time ← t.read_number pair.0
    seq_no ← t.read_number pair.1
    ok (bootstrap_time, seq_no)

  unfoldable pub decode_entry : Version → Block → Result (MappingEntry Component Block)
  unfolding decode_number at_front
  decode_entry version block = do
    elements ← t.elements block
    first ← at_front elements
    number ← decode_number version first.0
    second ← at_front first.1
    name ← t.read_name second.0
    ok (record {
      bootstrap_time = number.0;
      seq_no = number.1;
      mapping = record { name = name; blocks = second.1 };
    })

  unfoldable pub decode_each :
      Version → List Block → MappingList Component Block → Result (MappingList Component Block)
  unfolding decode_entry
  decode_each version [] m = ok m
  decode_each version (block ∷ blocks) m = do
    m' ←
        if t.type block == Kind.name
        then (do name ← t.read_name block; ok (record m { node_id = name }))
        else if t.type block == Kind.mapping_entry
        then (do
          entry ← decode_entry version block
          ok (record m { pairs = m.pairs ++ entry ∷ [] }))
        else ok m
    decode_each version blocks m'

  unfoldable pub decode : Version → Block → Result (MappingList Component Block)
  unfolding decode_each
  decode version block = do
    elements ← t.elements block
    decode_each version elements (record { node_id = []; pairs = [] })

  unfoldable pub encode_number : Version → MappingEntry Component Block → Block
  encode_number v2 entry = t.number Kind.seq_no entry.seq_no
  encode_number v3 entry =
      t.make Kind.seq_no_entry
        (t.number Kind.bootstrap_time entry.bootstrap_time ∷ t.number Kind.seq_no entry.seq_no ∷ [])

  unfoldable pub encode_entry : Version → MappingEntry Component Block → Block
  unfolding encode_number
  encode_entry version entry = t.make Kind.mapping_entry (
      encode_number version entry
      ∷ t.name_block entry.mapping.name
      ∷ prepend_each (λ b. b) entry.mapping.blocks [])

  unfoldable pub encode : Version → MappingList Component Block → Block
  unfolding encode_entry
  encode version m =
      t.make Kind.mapping_data
        (t.name_block m.node_id ∷ prepend_each (encode_entry version) m.pairs [])
