-- ===== src/Mapping/RoundTrip.antt =====
-- A list of mappings is decoded from its encoding, in the reverse order.
use ndn_svs.Base.{
  ℕ, ◌^◌, ◌<◌, ◌≡◌, refl, ◌∙◌, List, [], ◌∷◌, ◌++◌, map, reverse, nat_ord, ok, All, All-reverse,
}
use mathlib.Core.List.{append_assoc, append-nil}
use ndn_svs.Tlv.{Tlv, TlvLaws, prepend_each-map, prepend_each_self}
use ndn_svs.Tlv.Kind
use ndn_svs.Core.State.{Version, v2, v3}
use ndn_svs.Mapping.{MappingEntry, MappingList}
use ndn_svs.Mapping.Codec.{
  at_front, seq_no_entry_pair, decode_number, decode_entry, decode_each, decode, encode_number,
  encode_entry, encode,
}

-- version 2 carries no bootstrap time
unfoldable pub wire_time : Version → ℕ → ℕ
wire_time v2 bootstrap_time = 0
wire_time v3 bootstrap_time = bootstrap_time

module _ {Component Block : Type 0} where
  -- numbers of 64 bits
  abbrev pub IsWire : MappingEntry Component Block → Type 0
  IsWire e = (e.bootstrap_time < 2 ^ 64) × (e.seq_no < 2 ^ 64)

  -- an entry as the receiver has it: its additional blocks come in the reverse order
  unfoldable pub received : Version → MappingEntry Component Block → MappingEntry Component Block
  unfolding wire_time
  received version e = record {
    bootstrap_time = wire_time version e.bootstrap_time;
    seq_no = e.seq_no;
    mapping = record { name = e.mapping.name; blocks = reverse e.mapping.blocks };
  }

module _ {Component Block : Type 0} (t : Tlv (List Component) Block) (laws : TlvLaws t) where
  decode_number-encode_number :
      (version : Version) (e : MappingEntry Component Block)
      → IsWire e
      → decode_number t version (encode_number t version e)
        ≡ ok (wire_time version e.bootstrap_time, e.seq_no)
  unfolding decode_number encode_number wire_time seq_no_entry_pair
  decode_number-encode_number v2 e w =
      rw (laws.type-number, laws.read_number-number Kind.seq_no e.seq_no w.1) refl
  decode_number-encode_number v3 e w =
      rw
        (
          laws.elements-make,
          laws.type-make,
          laws.type-number Kind.bootstrap_time,
          laws.type-number Kind.seq_no,
          laws.read_number-number Kind.bootstrap_time e.bootstrap_time w.0,
          laws.read_number-number Kind.seq_no e.seq_no w.1,
        )
        refl

  decode_entry-encode_entry :
      (version : Version) (e : MappingEntry Component Block)
      → IsWire e
      → decode_entry t version (encode_entry t version e) ≡ ok (received version e)
  unfolding decode_entry encode_entry at_front received
  decode_entry-encode_entry version e w =
      rw
        (
          laws.elements-make,
          decode_number-encode_number version e w,
          laws.read_name-name_block,
          prepend_each_self,
          append-nil,
        )
        refl

  type-encode_entry :
      (version : Version) (e : MappingEntry Component Block)
      → t.type (encode_entry t version e) ≡ 206
  unfolding encode_entry
  type-encode_entry version e = laws.type-make 206 _

  decode_each-encode :
      (version : Version) (es : List (MappingEntry Component Block))
      (m : MappingList Component Block)
      → All IsWire es
      → decode_each t version (map (encode_entry t version) es ++ []) m
        ≡ ok (record m { pairs = m.pairs ++ map (received version) es })
  unfolding decode_each
  decode_each-encode version [] m w = rw (append-nil m.pairs) refl
  decode_each-encode version (e ∷ es) m w =
      rw (type-encode_entry version e, decode_entry-encode_entry version e w.0)
        (decode_each-encode version es (record m { pairs = m.pairs ++ received version e ∷ [] }) w.1
          ∙ rw (append_assoc m.pairs (received version e ∷ []) (map (received version) es)) refl)

  decode_each-name_block :
      (version : Version) (n : List Component) (blocks : List Block)
      (m : MappingList Component Block)
      → decode_each t version (t.name_block n ∷ blocks) m
        ≡ decode_each t version blocks (record m { node_id = n })
  unfolding decode_each
  decode_each-name_block version n blocks m =
      rw (laws.type-name_block, laws.read_name-name_block) refl

  -- A list of mappings whose numbers fit 64 bits is decoded from its encoding. The loops of `encode`
  -- go forward while the buffer grows at its front: the mappings come out in the reverse order, and
  -- so do the additional blocks of each. Version 2 loses the bootstrap times.
  pub decode-encode_reversed :
      (version : Version) (m : MappingList Component Block)
      → All IsWire m.pairs
      → decode t version (encode t version m)
        ≡ ok (record m { pairs = map (received version) (reverse m.pairs) })
  unfolding decode encode
  decode-encode_reversed version m w =
      rw (laws.elements-make, decode_each-name_block version m.node_id, prepend_each-map)
        (decode_each-encode version (reverse m.pairs) (record { node_id = m.node_id; pairs = [] })
          (All-reverse IsWire m.pairs w))
