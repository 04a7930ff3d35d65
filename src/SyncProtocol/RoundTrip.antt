-- ===== src/SyncProtocol/RoundTrip.antt =====
-- A Sync Interest that is put together is taken apart again.
use ndn_svs.Base.{
  ℕ, suc, ◌≡◌, refl, sym, ◌∙◌, Bool, true, Option, none, some, List, [], ◌∷◌, ◌++◌, length,
  length-append, Ord, nat_ord, ◌==◌, ==_self, Result, ok, arith,
}
use ndn_svs.Tlv.{Tlv, TlvLaws}
use ndn_svs.Tlv.Kind
use ndn_svs.VersionVector.{VersionVector}
use ndn_svs.VersionVector.Invariant.{IsValid}
use ndn_svs.VersionVector.Codec
use ndn_svs.VersionVector.Codec.RoundTrip.{IsEncodable, decode-encode}
use ndn_svs.Core.State.{v3}
use ndn_svs.SyncProtocol.{Ndn, Compression, DecodedSyncEnvelope, same_name, take, last_is}
use ndn_svs.SyncProtocol.Extensions.{check_extensions, collect, collect-check_extensions}
use ndn_svs.SyncProtocol.Codec.{
  uncons, require, make_sync_name, parameters_of, encode, is_sync_name, decompressed,
  decode_state_vector, nothing_after, decode_semantic, decode_v3, decode_version, decode,
}

-- ndn-cxx reads what it wrote; an Interest's name ends in the digest of its parameters.
pub record NdnLaws {Node Component Block Interest Data : Type 0} (t : Tlv Node Block)
    (ndn : Ndn Component Block Interest Data) : Type 0 where
  pub digest : Block → Component
  pub is_parameters_digest-digest : (p : Block) → ndn.is_parameters_digest (digest p) ≡ true
  pub interest_name-make :
      (name : List Component) (p : Block) (lifetime : ℕ)
      → ndn.interest_name (ndn.make_interest name p lifetime) ≡ name ++ digest p ∷ []
  pub is_digest_valid-make :
      (name : List Component) (p : Block) (lifetime : ℕ)
      → ndn.is_digest_valid (ndn.make_interest name p lifetime) ≡ true
  pub application_parameters-make :
      (name : List Component) (p : Block) (lifetime : ℕ)
      → ndn.application_parameters (ndn.make_interest name p lifetime) ≡ some p
  pub type-data_block : (d : Data) → t.type (ndn.data_block d) ≡ 6
  pub read_data-data_block : (d : Data) → ndn.read_data (ndn.data_block d) ≡ ok d

-- A signer adds a valid signature and leaves the name and the content.
pub record Signs {Component Block Interest Data : Type 0} (ndn : Ndn Component Block Interest Data)
    (sign : Data → Result Data) : Type 0 where
  pub signed : List Component → Block → Data
  pub returns :
      (name : List Component) (content : Block)
      → sign (ndn.make_data name content) ≡ ok (signed name content)
  pub data_name-signed :
      (name : List Component) (content : Block) → ndn.data_name (signed name content) ≡ name
  pub data_content-signed :
      (name : List Component) (content : Block) → ndn.data_content (signed name content) ≡ content
  pub is_signature_valid-signed :
      (name : List Component) (content : Block)
      → ndn.is_signature_valid (signed name content) ≡ true

take-append {ℓ} : {A : Type ℓ} (xs ys : List A) → take (length xs) (xs ++ ys) ≡ xs
unfolding take
take-append [] ys = refl
take-append (x ∷ xs) ys = rw (take-append xs ys) refl

last_is-append {ℓ} :
    {A : Type ℓ} (p : A → Bool) (xs : List A) (x : A) → last_is p (xs ++ x ∷ []) ≡ p x
unfolding last_is
last_is-append p [] x = refl
last_is-append p (y ∷ []) x = refl
last_is-append p (y ∷ z ∷ xs) x = last_is-append p (z ∷ xs) x

same_name_self :
    {Component : Type 0} ⦃o : Ord Component⦄ (xs : List Component) → same_name xs xs ≡ true
unfolding same_name
same_name_self [] = refl
same_name_self (x ∷ xs) = rw (==_self x, same_name_self xs) refl

one_longer {ℓ} :
    {A : Type ℓ} (xs : List A) (x : A) → (length (xs ++ x ∷ []) == suc (length xs)) ≡ true
one_longer xs x = ground (arith, length-append xs (x ∷ []))

module _ {Node Component Block Interest Data : Type 0} ⦃o : Ord Node⦄ ⦃oc : Ord Component⦄
    (t : Tlv Node Block) (ndn : Ndn Component Block Interest Data) (laws : TlvLaws t)
    (packets : NdnLaws t ndn) where
  is_sync_name-make :
      (name : List Component) (p : Block) (lifetime : ℕ)
      → is_sync_name t ndn name (ndn.make_interest name p lifetime) ≡ true
  unfolding is_sync_name
  is_sync_name-make name p lifetime =
      rw
        (
          packets.interest_name-make, packets.is_digest_valid-make, one_longer, take-append,
          same_name_self, last_is-append, packets.is_parameters_digest-digest,
        )
        refl

  type-encode : (vv : VersionVector Node) → t.type (Codec.encode t vv) ≡ 201
  unfolding Codec.encode
  type-encode vv = laws.type-make 201 _

  collect-accepted :
      (extensions : List Block)
      → check_extensions t extensions ≡ ok tt
      → collect t [] [] extensions ≡ ok extensions
  collect-accepted extensions h = collect-check_extensions t extensions ∙ rw h refl

  -- State Vector Data under its own name, with a vector that decodes and extensions that pass
  decode_v3-signed :
      (now : ℕ) (name : List Component) (vv w : VersionVector Node) (extensions : List Block)
      (sign : Data → Result Data) (s : Signs ndn sign)
      → check_extensions t extensions ≡ ok tt
      → Codec.decode t now (Codec.encode t vv) ≡ ok w
      → decode_v3 t ndn now name true
          (ndn.data_block (s.signed name (t.make Kind.content (Codec.encode t vv ∷ extensions))))
        ≡ ok (record {
          state_vector = w;
          state_vector_decoded = true;
          extensions = extensions;
          state_vector_data =
              some (s.signed name (t.make Kind.content (Codec.encode t vv ∷ extensions)));
        })
  unfolding decode_v3 uncons decode_semantic decode_state_vector require
  decode_v3-signed now name vv w extensions sign s h e =
      rw
        (
          packets.type-data_block,
          packets.read_data-data_block,
          s.data_name-signed,
          s.is_signature_valid-signed,
          same_name_self,
          s.data_content-signed,
          laws.elements-make,
          type-encode,
          collect-accepted extensions h,
          e,
        )
        refl

  decode_v3-interest :
      (now : ℕ) (lzma : Option (Compression Block)) (group_prefix name : List Component)
      (parameters : Block) (lifetime : ℕ) (first : Block)
      (envelope : DecodedSyncEnvelope Node Block Data)
      → make_sync_name t ndn group_prefix v3 ≡ name
      → t.make Kind.application_parameters (first ∷ []) ≡ parameters
      → decode_v3 t ndn now name true first ≡ ok envelope
      → decode t ndn now lzma (ndn.make_interest name parameters lifetime) group_prefix v3 true
        ≡ ok envelope
  unfolding decode require decompressed uncons decode_version nothing_after
  decode_v3-interest now none group_prefix name parameters lifetime first envelope e f g =
      rw (e, is_sync_name-make, packets.application_parameters-make, sym f, laws.elements-make, g)
        refl
  decode_v3-interest now (some lzma) group_prefix name parameters lifetime first envelope e f g =
      rw (e, is_sync_name-make, packets.application_parameters-make, sym f, laws.elements-make, g)
        refl

  -- The Sync Interest that version 3 encodes, from a valid vector, extensions that pass the checks and
  -- a signer, is decoded: its extensions are the same, and so are the entries of its vector.
  pub decode-encode_v3 :
      (now : ℕ) (lzma : Option (Compression Block)) (group_prefix : List Component)
      (vv : VersionVector Node) (extensions : List Block) (lifetime : ℕ) (sign : Data → Result Data)
      → IsValid vv
      → IsEncodable now vv
      → check_extensions t extensions ≡ ok tt
      → Signs ndn sign
      → (interest : Interest) × (envelope : DecodedSyncEnvelope Node Block Data) × (encode t ndn
            lzma group_prefix vv extensions v3 lifetime
            (some sign)
          ≡ ok interest)
        × (decode t ndn now lzma interest group_prefix v3 true ≡ ok envelope)
        × (envelope.extensions ≡ extensions)
        × (envelope.state_vector.entries ≡ vv.entries)
  unfolding encode parameters_of require
  decode-encode_v3 now lzma group_prefix vv extensions lifetime sign valid encodable h s =
      let name = make_sync_name t ndn group_prefix v3 in
      let state_data = s.signed name (t.make Kind.content (Codec.encode t vv ∷ extensions)) in
      let parameters = t.make Kind.application_parameters (ndn.data_block state_data ∷ []) in
      let decoded = decode-encode t laws now vv valid encodable in
      (
        ndn.make_interest name parameters lifetime,
        _,
        rw (h, s.returns) refl,
        decode_v3-interest now lzma group_prefix name parameters lifetime
            (ndn.data_block state_data) _ refl refl
            (decode_v3-signed now name vv decoded.0 extensions sign s h decoded.1),
        refl,
        decoded.2,
      )
