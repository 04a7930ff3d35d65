-- ===== src/VersionVector/Codec/RoundTrip.antt =====
-- What is encoded is decoded again.
use ndn_svs.Base.{
  ℕ, ◌^◌, ◌≡◌, ◌<◌, refl, ◌∙◌, false, [], ◌∷◌, ◌++◌, map, Ord, nat_ord, ◌==◌, ==_iff, arith, ok,
  if◌then◌else◌, All, Option, none, some,
}
use ndn_svs.Base.OrdMap.{OrdMap, find, IsSorted, or_default}
use ndn_svs.Base.OrdMap.Laws.{find-tail, find-head}
use ndn_svs.Tlv.{Tlv, TlvLaws, prepend_each-reverse}
use ndn_svs.Tlv.Kind
use ndn_svs.VersionVector.{VersionVector, empty, store, get, is_bootstrap_time_too_far_in_future}
use ndn_svs.VersionVector.Invariant.{IsValid, IsSession, get-store, set-store}
use ndn_svs.VersionVector.Equality.{entries_ext}
use ndn_svs.VersionVector.Codec.{
  seq_no_pair, decode_seq_no_entry, decode_session, entry_parts, decode_entry, decode_entries,
  decode, encode_seq_no_entry, encode_entry, encode,
}
use ndn_svs.VersionVector.Codec.Decoded.{decode-IsValid}

-- a pair that can be encoded, and that a decoder at time `now` accepts
abbrev pub IsWire : ℕ → ℕ × ℕ → Type 0
IsWire now (b, s) =
    (b < 2 ^ 64) × (s < 2 ^ 64) × (0 < s) × (is_bootstrap_time_too_far_in_future now b ≡ false)

-- a vector of such pairs
abbrev pub IsEncodable : {Node : Type 0} → ℕ → VersionVector Node → Type 0
IsEncodable now v = All (λ e. All (IsWire now) e.1) v.entries

not_zero : (s : ℕ) → 0 < s → (s == 0) ≡ false
not_zero s h = ground arith

module _ {Node : Type 0} ⦃o : Ord Node⦄ where
  -- what decoding makes of a vector: its pairs stored one by one
  unfoldable store_session : ℕ → Node → OrdMap ℕ ℕ → VersionVector Node → VersionVector Node
  store_session now n [] v = v
  store_session now n ((b, s) ∷ seqs) v = store_session now n seqs (store now n b s v)

  unfoldable store_entries : ℕ → OrdMap Node (OrdMap ℕ ℕ) → VersionVector Node → VersionVector Node
  unfolding store_session
  store_entries now [] v = v
  store_entries now ((n, seqs) ∷ es) v = store_entries now es (store_session now n seqs v)

  get-store_session :
      (now : ℕ) (n : Node) (seqs : OrdMap ℕ ℕ) (v : VersionVector Node) (m : Node) (c : ℕ)
      → IsSorted seqs
      → get (store_session now n seqs v) m c
        ≡ (if m == n then or_default (get v m c) (find c seqs) else get v m c)
  unfolding store_session find
  get-store_session now n [] v m c w = ground arith
  get-store_session now n ((b, s) ∷ seqs) v m c w = ground (
    arith,
    get-store_session now n seqs (store now n b s v) m c w.1,
    get-store now n b s v m c,
    find-tail c b s seqs w.0,
    find-head b s seqs,
    ==_iff c b,
  )

  get-store_entries :
      (now : ℕ) (es : OrdMap Node (OrdMap ℕ ℕ)) (v : VersionVector Node) (m : Node) (c : ℕ)
      → IsSorted es
      → All (λ e. IsSession e.1) es
      → get (store_entries now es v) m c
        ≡ or_default (get v m c) (find c (or_default [] (find m es)))
  unfolding store_entries find
  get-store_entries now [] v m c w p = refl
  get-store_entries now ((n, seqs) ∷ es) v m c w p = ground (
    arith,
    get-store_entries now es (store_session now n seqs v) m c w.1 p.1,
    get-store_session now n seqs v m c p.0.0,
    find-tail m n seqs es w.0,
    find-head n seqs es,
    ==_iff m n,
  )

  -- Storing the pairs of a valid vector in an empty one yields its entries.
  get-store_entries-empty :
      (now : ℕ) (v : VersionVector Node) (m : Node) (c : ℕ)
      → IsValid v
      → get (store_entries now v.entries empty) m c ≡ get v m c
  unfolding get find
  get-store_entries-empty now v m c w =
      get-store_entries now v.entries empty m c w.sorted w.sessions ∙ read (find m v.entries)
    where
      read :
          (seqs : Option (OrdMap ℕ ℕ))
          → or_default 0 (find c (or_default [] seqs))
            ≡ elim seqs [ none ↦ 0 | some seqs ↦ or_default 0 (find c seqs) ]
      read none = refl
      read (some seqs) = refl

module _ {Node Block : Type 0} ⦃o : Ord Node⦄ (t : Tlv Node Block) (laws : TlvLaws t) where
  decode_seq_no_entry-encode_seq_no_entry :
      (now : ℕ) (n : Node) (b s : ℕ) (v : VersionVector Node)
      → IsWire now (b, s)
      → decode_seq_no_entry t now n (encode_seq_no_entry t (b, s)) v ≡ ok (store now n b s v)
  unfolding decode_seq_no_entry encode_seq_no_entry seq_no_pair
  decode_seq_no_entry-encode_seq_no_entry now n b s v w =
      rw
        (
          laws.type-make,
          laws.elements-make,
          laws.type-number,
          laws.type-number,
          laws.read_number-number Kind.bootstrap_time b w.0,
          w.3,
          laws.read_number-number Kind.seq_no s w.1,
          not_zero s w.2,
          set-store now n b s v w.2,
        )
        refl

  decode_session-encode :
      (now : ℕ) (n : Node) (seqs : OrdMap ℕ ℕ) (v : VersionVector Node)
      → All (IsWire now) seqs
      → decode_session t now n (map (encode_seq_no_entry t) seqs ++ []) v
        ≡ ok (store_session now n seqs v)
  unfolding decode_session store_session
  decode_session-encode now n [] v p = refl
  decode_session-encode now n ((b, s) ∷ seqs) v p =
      rw (decode_seq_no_entry-encode_seq_no_entry now n b s v p.0)
        (decode_session-encode now n seqs (store now n b s v) p.1)

  decode_entry-encode_entry :
      (now : ℕ) (n : Node) (seqs : OrdMap ℕ ℕ) (v : VersionVector Node)
      → All (IsWire now) seqs
      → decode_entry t now (encode_entry t (n, seqs)) v ≡ ok (store_session now n seqs v)
  unfolding decode_entry encode_entry entry_parts
  decode_entry-encode_entry now n seqs v p =
      rw
        (
          laws.type-make, laws.elements-make, laws.type-name_block, laws.read_name-name_block,
          prepend_each-reverse,
        )
        (decode_session-encode now n seqs v p)

  decode_entries-encode :
      (now : ℕ) (es : OrdMap Node (OrdMap ℕ ℕ)) (v : VersionVector Node)
      → All (λ e. All (IsWire now) e.1) es
      → decode_entries t now (map (encode_entry t) es ++ []) v ≡ ok (store_entries now es v)
  unfolding decode_entries store_entries
  decode_entries-encode now [] v p = refl
  decode_entries-encode now ((n, seqs) ∷ es) v p =
      rw (decode_entry-encode_entry now n seqs v p.0)
        (decode_entries-encode now es (store_session now n seqs v) p.1)

  decode-encode_stores :
      (now : ℕ) (v : VersionVector Node)
      → IsEncodable now v
      → decode t now (encode t v) ≡ ok (store_entries now v.entries empty)
  unfolding decode encode
  decode-encode_stores now v p =
      rw (laws.type-make, laws.elements-make, prepend_each-reverse)
        (decode_entries-encode now v.entries empty p)

  -- A valid vector, each of whose numbers fits 64 bits and whose bootstrap times are at most a day
  -- ahead of the decoder's clock, is decoded from its encoding: the entries are the same.
  pub decode-encode :
      (now : ℕ) (v : VersionVector Node)
      → IsValid v
      → IsEncodable now v
      → (w : VersionVector Node) × (decode t now (encode t v) ≡ ok w) × (w.entries ≡ v.entries)
  decode-encode now v w p =
      let stored = store_entries now v.entries empty in
      let e = decode-encode_stores now v p in
      (
        stored,
        e,
        entries_ext stored v (decode-IsValid t now (encode t v) stored e) w
            λ m c. get-store_entries-empty now v m c w,
      )
