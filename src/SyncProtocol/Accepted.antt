-- ===== src/SyncProtocol/Accepted.antt =====
-- Whatever Sync Interest is accepted carries a well-formed vector, and extensions that pass the checks.
use ndn_svs.Base.{
  ℕ, ◌≡◌, refl, sym, subst, Bool, true, false, not, ◌||◌, Option, List, [], Ord, nat_ord, ◌==◌,
  Result, ok, err, Error, ◌>>◌, Ensures, Ensures-bind, Ensures-any, Ensures-throw_if, Ensures-ok,
}
use ndn_svs.Tlv.{Tlv}
use ndn_svs.Tlv.Kind
use ndn_svs.VersionVector.Invariant.{IsValid}
use ndn_svs.VersionVector.Codec
use ndn_svs.VersionVector.Codec.Decoded.{decode-IsValid, decode_v2-IsValid, empty-IsValid}
use ndn_svs.Core.State.{Version, v2, v3}
use ndn_svs.SyncProtocol.{Ndn, Compression, DecodedSyncEnvelope, same_name}
use ndn_svs.SyncProtocol.Extensions.{check_extensions, collect, collect-check_extensions}
use ndn_svs.SyncProtocol.Codec.{
  uncons, require, make_sync_name, is_sync_name, decompressed, decode_state_vector, nothing_after,
  decode_semantic, decode_v3, decode_version, decode,
}

Ensures-self {ℓ κ} :
    {A : Type ℓ} (P : A → Type κ) (r : Result A) → ((a : A) → r ≡ ok a → P a) → Ensures P r
Ensures-self P (ok a) h = h a refl
Ensures-self P (err e) h = tt

module _ {Node Component Block Interest Data : Type 0} ⦃o : Ord Node⦄ ⦃oc : Ord Component⦄
    (t : Tlv Node Block) (ndn : Ndn Component Block Interest Data) where
  pub record IsAccepted (envelope : DecodedSyncEnvelope Node Block Data) : Type 0 where
    pub extensions : check_extensions t envelope.extensions ≡ ok tt
    pub state_vector : IsValid envelope.state_vector

  checked :
      (xs : List Block) (r : Result (Unit {0}))
      → check_extensions t xs ≡ r
      → Ensures (λ es. check_extensions t es ≡ ok tt) (r >> ok xs)
  checked xs (ok tt) e = e
  checked xs (err x) e = tt

  collect-checked :
      (xs : List Block) → Ensures (λ es. check_extensions t es ≡ ok tt) (collect t [] [] xs)
  collect-checked xs =
      subst (Ensures (λ es. check_extensions t es ≡ ok tt)) (sym (collect-check_extensions t xs))
        (checked xs (check_extensions t xs) refl)

  decode_state_vector-IsValid :
      (now : ℕ) (envelope : DecodedSyncEnvelope Node Block Data)
      → Ensures IsValid (decode_state_vector t ndn now envelope v3)
  unfolding decode_state_vector
  decode_state_vector-IsValid now envelope =
      Ensures-any IsValid (require Error.codec_error envelope.state_vector_data) _ λ state_data.
        Ensures-any IsValid (t.elements (ndn.data_content state_data)) _ λ content.
          Ensures-any IsValid (uncons Error.codec_error content) _ λ front.
            Ensures-throw_if IsValid (not (t.type front.0 == Kind.state_vector)) Error.tlv_error _
              λ _. Ensures-self IsValid (Codec.decode t now front.0) (decode-IsValid t now front.0)

  decode_semantic-IsAccepted :
      (semantic : Bool) (now : ℕ) (envelope : DecodedSyncEnvelope Node Block Data)
      → IsAccepted envelope
      → Ensures IsAccepted (decode_semantic t ndn semantic now envelope)
  unfolding decode_semantic
  decode_semantic-IsAccepted false now envelope a = a
  decode_semantic-IsAccepted true now envelope a =
      Ensures-bind IsValid IsAccepted (decode_state_vector t ndn now envelope v3) _
        (decode_state_vector-IsValid now envelope)
        λ v valid. record { extensions = a.extensions; state_vector = valid }

  decode_v3-IsAccepted :
      (now : ℕ) (expected : List Component) (semantic : Bool) (first : Block)
      → Ensures IsAccepted (decode_v3 t ndn now expected semantic first)
  unfolding decode_v3
  decode_v3-IsAccepted now expected semantic first =
      Ensures-throw_if IsAccepted (not (t.type first == Kind.data_packet)) Error.tlv_error _ λ _.
        Ensures-any IsAccepted (ndn.read_data first) _ λ state_data.
          Ensures-throw_if IsAccepted
            (not (same_name (ndn.data_name state_data) expected)
              || not (ndn.is_signature_valid state_data))
            Error.tlv_error _
            λ _. Ensures-any IsAccepted (t.elements (ndn.data_content state_data)) _ λ content.
              Ensures-any IsAccepted (uncons Error.tlv_error content) _ λ front.
                Ensures-throw_if IsAccepted (not (t.type front.0 == Kind.state_vector))
                  Error.tlv_error _
                  λ _.
                    Ensures-bind (λ es. check_extensions t es ≡ ok tt) IsAccepted
                      (collect t [] [] front.1) _ (collect-checked front.1)
                      λ es h.
                        decode_semantic-IsAccepted semantic now _
                          (record { extensions = h; state_vector = empty-IsValid })

  decode_version-IsAccepted :
      (now : ℕ) (expected : List Component) (version : Version) (semantic : Bool)
      (parts : Block × List Block)
      → Ensures IsAccepted (decode_version t ndn now expected version semantic parts)
  unfolding decode_version
  decode_version-IsAccepted now expected v3 semantic (first, others) =
      Ensures-bind IsAccepted IsAccepted (decode_v3 t ndn now expected semantic first) _
        (decode_v3-IsAccepted now expected semantic first)
        λ envelope a. Ensures-any IsAccepted (nothing_after others) _ λ _. a
  decode_version-IsAccepted now expected v2 semantic (first, others) =
      Ensures-throw_if IsAccepted (not (t.type first == Kind.state_vector)) Error.tlv_error _ λ _.
        Ensures-bind IsValid IsAccepted (Codec.decode_v2 t now first) _
          (Ensures-self IsValid (Codec.decode_v2 t now first) (decode_v2-IsValid t now first))
          λ v valid.
            Ensures-bind (λ es. check_extensions t es ≡ ok tt) IsAccepted (collect t [] [] others) _
              (collect-checked others) λ es h. record { extensions = h; state_vector = valid }

  -- Whatever Interest `decode` accepts, under either version, the vector it returns is well formed,
  -- and the extensions are ones that `encode` accepts: at most 16, none of them a state vector or
  -- Data, and no known type twice.
  pub decode-IsAccepted :
      (now : ℕ) (lzma : Option (Compression Block)) (interest : Interest)
      (group_prefix : List Component) (version : Version) (semantic : Bool)
      (envelope : DecodedSyncEnvelope Node Block Data)
      → decode t ndn now lzma interest group_prefix version semantic ≡ ok envelope
      → IsAccepted envelope
  unfolding decode
  decode-IsAccepted now lzma interest group_prefix version semantic envelope =
      let expected = make_sync_name t ndn group_prefix version in
      Ensures-ok IsAccepted (decode t ndn now lzma interest group_prefix version semantic) envelope
        (Ensures-throw_if IsAccepted (not (is_sync_name t ndn expected interest)) Error.tlv_error _
          λ _.
            Ensures-any IsAccepted (require Error.tlv_error (ndn.application_parameters interest)) _
              λ block. Ensures-any IsAccepted (t.elements block) _ λ elements.
                Ensures-any IsAccepted (decompressed t ndn lzma version elements) _ λ params.
                  Ensures-any IsAccepted (uncons Error.tlv_error params) _
                    λ first. decode_version-IsAccepted now expected version semantic first)
