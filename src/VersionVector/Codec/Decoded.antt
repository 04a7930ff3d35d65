-- ===== src/VersionVector/Codec/Decoded.antt =====
-- Whatever is decoded is a well-formed vector.
use ndn_svs.Base.{
  ℕ, ◌≡◌, ◌<◌, refl, false, List, [], ◌∷◌, Ord, nat_ord, ◌==◌, arith, ok, Error, not, Ensures,
  Ensures-bind, Ensures-any, Ensures-throw_if, Ensures-ok,
}
use ndn_svs.Base.OrdMap.{find}
use ndn_svs.Tlv.{Tlv}
use ndn_svs.Tlv.Kind
use ndn_svs.VersionVector.{
  VersionVector, empty, set, store, latest_seq_no, get_latest, get_entries,
  is_bootstrap_time_too_far_in_future,
}
use ndn_svs.VersionVector.Invariant.{IsValid, store-IsValid}
use ndn_svs.VersionVector.Codec.{
  seq_no_pair, decode_seq_no_entry, decode_session, entry_parts, decode_entry, decode_entries,
  decode, v2_pair, decode_v2_entry, decode_v2_entries, decode_v2,
}

positive : (n : ℕ) → (n == 0) ≡ false → 0 < n
positive n h = ground arith

module _ {Node : Type 0} ⦃o : Ord Node⦄ where
  pub empty-IsValid : IsValid (empty {Node = Node})
  unfolding get_latest get_entries find latest_seq_no
  empty-IsValid = record { sorted = tt; sessions = tt; latest = λ n. refl }

  -- `set` throws for number 0, and otherwise keeps the invariant.
  set-IsValid :
      (now : ℕ) (n : Node) (b s : ℕ) (v : VersionVector Node)
      → IsValid v
      → Ensures IsValid (set now n b s v)
  unfolding set
  set-IsValid now n b s v w =
      Ensures-throw_if IsValid (s == 0) Error.invalid_argument (ok (store now n b s v))
        λ h. store-IsValid now n b s v (positive s h) w

module _ {Node Block : Type 0} ⦃o : Ord Node⦄ (t : Tlv Node Block) where
  decode_seq_no_entry-IsValid :
      (now : ℕ) (n : Node) (block : Block) (v : VersionVector Node)
      → IsValid v
      → Ensures IsValid (decode_seq_no_entry t now n block v)
  unfolding decode_seq_no_entry
  decode_seq_no_entry-IsValid now n block v w =
      Ensures-throw_if IsValid (not (t.type block == Kind.seq_no_entry)) Error.tlv_error _ λ _.
        Ensures-any IsValid (t.elements block) _ λ elements.
          Ensures-any IsValid (seq_no_pair t elements) _ λ pair.
            Ensures-any IsValid (t.read_number pair.0) _ λ b.
              Ensures-throw_if IsValid (is_bootstrap_time_too_far_in_future now b)
                Error.vector_error _
                λ _. Ensures-any IsValid (t.read_number pair.1) _ λ s.
                  Ensures-throw_if IsValid (s == 0) Error.vector_error _
                    λ _. set-IsValid now n b s v w

  decode_session-IsValid :
      (now : ℕ) (n : Node) (blocks : List Block) (v : VersionVector Node)
      → IsValid v
      → Ensures IsValid (decode_session t now n blocks v)
  unfolding decode_session
  decode_session-IsValid now n [] v w = w
  decode_session-IsValid now n (block ∷ blocks) v w =
      Ensures-bind IsValid IsValid (decode_seq_no_entry t now n block v) _
        (decode_seq_no_entry-IsValid now n block v w) (decode_session-IsValid now n blocks)

  decode_entry-IsValid :
      (now : ℕ) (block : Block) (v : VersionVector Node)
      → IsValid v
      → Ensures IsValid (decode_entry t now block v)
  unfolding decode_entry
  decode_entry-IsValid now block v w =
      Ensures-throw_if IsValid (not (t.type block == Kind.state_vector_entry)) Error.tlv_error _
        λ _. Ensures-any IsValid (t.elements block) _ λ elements.
          Ensures-any IsValid (entry_parts t elements) _ λ parts.
            Ensures-any IsValid (t.read_name parts.0) _
              λ n. decode_session-IsValid now n parts.1 v w

  decode_entries-IsValid :
      (now : ℕ) (blocks : List Block) (v : VersionVector Node)
      → IsValid v
      → Ensures IsValid (decode_entries t now blocks v)
  unfolding decode_entries
  decode_entries-IsValid now [] v w = w
  decode_entries-IsValid now (block ∷ blocks) v w =
      Ensures-bind IsValid IsValid (decode_entry t now block v) _
        (decode_entry-IsValid now block v w) (decode_entries-IsValid now blocks)

  -- Whatever block the decoding constructor accepts, the vector it returns is well formed: sorted,
  -- without an empty node or a number 0, and with the greatest number of each node as its latest.
  pub decode-IsValid :
      (now : ℕ) (block : Block) (v : VersionVector Node) → decode t now block ≡ ok v → IsValid v
  unfolding decode
  decode-IsValid now block v = Ensures-ok IsValid (decode t now block) v (
      Ensures-throw_if IsValid (not (t.type block == Kind.state_vector)) Error.tlv_error _ λ _.
        Ensures-any IsValid (t.elements block) _
          λ elements. decode_entries-IsValid now elements empty empty-IsValid)

  decode_v2_entry-IsValid :
      (now : ℕ) (block : Block) (v : VersionVector Node)
      → IsValid v
      → Ensures IsValid (decode_v2_entry t now block v)
  unfolding decode_v2_entry
  decode_v2_entry-IsValid now block v w =
      Ensures-throw_if IsValid (not (t.type block == Kind.state_vector_entry)) Error.tlv_error _
        λ _. Ensures-any IsValid (t.elements block) _ λ elements.
          Ensures-any IsValid (v2_pair t elements) _ λ pair.
            Ensures-any IsValid (t.read_number pair.1) _ λ s.
              Ensures-throw_if IsValid (s == 0) Error.vector_error _
                λ _. Ensures-any IsValid (t.read_name pair.0) _ λ n. set-IsValid now n 0 s v w

  decode_v2_entries-IsValid :
      (now : ℕ) (blocks : List Block) (v : VersionVector Node)
      → IsValid v
      → Ensures IsValid (decode_v2_entries t now blocks v)
  unfolding decode_v2_entries
  decode_v2_entries-IsValid now [] v w = w
  decode_v2_entries-IsValid now (block ∷ blocks) v w =
      Ensures-bind IsValid IsValid (decode_v2_entry t now block v) _
        (decode_v2_entry-IsValid now block v w) (decode_v2_entries-IsValid now blocks)

  -- Whatever block `decodeV2` accepts, the vector it returns is well formed.
  pub decode_v2-IsValid :
      (now : ℕ) (block : Block) (v : VersionVector Node) → decode_v2 t now block ≡ ok v → IsValid v
  unfolding decode_v2
  decode_v2-IsValid now block v = Ensures-ok IsValid (decode_v2 t now block) v (
      Ensures-throw_if IsValid (not (t.type block == Kind.state_vector)) Error.tlv_error _ λ _.
        Ensures-any IsValid (t.elements block) _
          λ elements. decode_v2_entries-IsValid now elements empty empty-IsValid)
