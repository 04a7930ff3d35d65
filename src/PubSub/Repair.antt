-- ===== src/PubSub/Repair.antt =====
-- `encodeRepairRequests` and `decodeRepairRequests` of ndn-svs/svspubsub.cpp.
use ndn_svs.Base.{
  ◌≤◌, ◌<◌, ◌^◌, ◌≡◌, refl, ◌∙◌, arith, ap, sym, false, not, ◌||◌, List, [], ◌∷◌, ◌++◌, map,
  reverse, nat_ord, ◌==◌, ltb, Result, ok, err, Error, throw_if, ◌>>=◌, ◌>>◌, All,
}
use mathlib.Core.List.{append_assoc, append-nil}
use ndn_svs.Tlv.{Tlv, TlvLaws, prepend_each, prepend_each-reverse}
use ndn_svs.Tlv.Kind
use ndn_svs.Core.Merge.{MissingDataInfo}

module _ {Node Block : Type 0} (t : Tlv Node Block) where
  unfoldable pub encode_repair_entry : MissingDataInfo Node → Block
  encode_repair_entry request = t.make Kind.repair_entry (
      t.name_block request.node_id
      ∷ t.number Kind.bootstrap_time request.bootstrap_time
      ∷ t.number Kind.seq_no request.low
      ∷ t.number Kind.seq_no request.high
      ∷ [])

  -- The loop goes backward while the buffer grows at its front.
  unfoldable pub encode_repair_requests : List (MissingDataInfo Node) → Block
  unfolding encode_repair_entry
  encode_repair_requests requests =
      t.make Kind.repair_data (prepend_each encode_repair_entry (reverse requests) [])

  -- the four elements of an entry, with their types
  unfoldable pub repair_elements : List Block → Result (Block × Block × Block × Block)
  repair_elements (a ∷ b ∷ c ∷ d ∷ []) = (do
    throw_if
        (not (t.type a == Kind.name)
          || not (t.type b == Kind.bootstrap_time)
          || not (t.type c == Kind.seq_no)
          || not (t.type d == Kind.seq_no))
        Error.tlv_error
    ok (a, b, c, d))
  repair_elements _ = err Error.tlv_error

  unfoldable pub decode_repair_entry : Block → Result (MissingDataInfo Node)
  unfolding repair_elements
  decode_repair_entry entry = do
    throw_if (not (t.type entry == Kind.repair_entry)) Error.tlv_error
    elements ← t.elements entry
    parts ← repair_elements elements
    node_id ← t.read_name parts.0
    bootstrap_time ← t.read_number parts.1
    low ← t.read_number parts.2
    high ← t.read_number parts.3
    throw_if (low == 0 || ltb high low) Error.invalid_argument
    ok (record {
      node_id = node_id;
      low = low;
      high = high;
      incoming_face = 0;
      bootstrap_time = bootstrap_time;
    })

  unfoldable pub decode_repair_each :
      List Block → List (MissingDataInfo Node) → Result (List (MissingDataInfo Node))
  unfolding decode_repair_entry
  decode_repair_each [] requests = ok requests
  decode_repair_each (entry ∷ entries) requests = do
    info ← decode_repair_entry entry
    decode_repair_each entries (requests ++ info ∷ [])

  unfoldable pub decode_repair_requests : Block → Result (List (MissingDataInfo Node))
  unfolding decode_repair_each
  decode_repair_requests block = do elements ← t.elements block; decode_repair_each elements []

  -- a range of numbers of 64 bits that starts above 0, which no face has brought
  abbrev pub IsRepair : MissingDataInfo Node → Type 0
  IsRepair r =
      (1 ≤ r.low)
      × (r.low ≤ r.high)
      × (r.high < 2 ^ 64)
      × (r.bootstrap_time < 2 ^ 64)
      × (r.incoming_face ≡ 0)

module _ {Node Block : Type 0} (t : Tlv Node Block) (laws : TlvLaws t) where
  IsRepair-refused :
      (r : MissingDataInfo Node) → IsRepair t r → (r.low == 0 || ltb r.high r.low) ≡ false
  IsRepair-refused r h = ground arith

  decode_repair_entry-encode_repair_entry :
      (r : MissingDataInfo Node)
      → IsRepair t r
      → decode_repair_entry t (encode_repair_entry t r) ≡ ok r
  unfolding decode_repair_entry encode_repair_entry repair_elements
  decode_repair_entry-encode_repair_entry r h =
      rw
        (
          laws.elements-make,
          laws.type-make,
          laws.type-name_block,
          laws.type-number Kind.bootstrap_time,
          laws.type-number Kind.seq_no r.low,
          laws.type-number Kind.seq_no r.high,
          laws.read_name-name_block,
          laws.read_number-number Kind.bootstrap_time r.bootstrap_time h.3,
          laws.read_number-number Kind.seq_no r.low (omega (arith, h)),
          laws.read_number-number Kind.seq_no r.high h.2,
          IsRepair-refused r h,
        )
        (ap (λ f. ok (record r { incoming_face = f })) (sym h.4))

  decode_repair_each-encode :
      (rs done : List (MissingDataInfo Node))
      → All (IsRepair t) rs
      → decode_repair_each t (map (encode_repair_entry t) rs ++ []) done ≡ ok (done ++ rs)
  unfolding decode_repair_each
  decode_repair_each-encode [] done h = rw (append-nil done) refl
  decode_repair_each-encode (r ∷ rs) done h =
      rw (decode_repair_entry-encode_repair_entry r h.0) (
        decode_repair_each-encode rs (done ++ r ∷ []) h.1 ∙ rw (append_assoc done (r ∷ []) rs) refl)

  -- A list of requests, each with a range that is not empty, starts above 0 and fits 64 bits, is
  -- decoded from its encoding in the same order. The incoming face is not encoded.
  pub decode-encode_repair :
      (requests : List (MissingDataInfo Node))
      → All (IsRepair t) requests
      → decode_repair_requests t (encode_repair_requests t requests) ≡ ok requests
  unfolding decode_repair_requests encode_repair_requests
  decode-encode_repair requests h =
      rw (laws.elements-make, prepend_each-reverse) (decode_repair_each-encode requests [] h)
