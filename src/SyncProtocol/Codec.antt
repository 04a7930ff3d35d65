-- ===== src/SyncProtocol/Codec.antt =====
-- `SyncProtocolCodec`: `makeSyncName`, `encode`, `decode` and `decodeStateVector`.
use ndn_svs.Base.{
  ℕ, suc, Bool, true, false, not, ◌&&◌, ◌||◌, Option, none, some, List, [], ◌∷◌, ◌++◌, reverse,
  length, Ord, nat_ord, ◌==◌, Result, ok, err, Error, throw_if, ◌>>=◌, ◌>>◌,
}
use ndn_svs.Tlv.{Tlv, prepend_each}
use ndn_svs.Tlv.Kind
use ndn_svs.VersionVector.{VersionVector, empty}
use ndn_svs.VersionVector.Codec
use ndn_svs.Core.State.{Version, v2, v3}
use ndn_svs.SyncProtocol.{
  Ndn, Compression, DecodedSyncEnvelope, same_name, take, last_is, version_number, find_block,
}
use ndn_svs.SyncProtocol.Extensions.{check_extensions, collect}

-- the first element, or the error that `elements().empty()` throws
unfoldable pub uncons : {A : Type 0} → Error → List A → Result (A × List A)
uncons e [] = err e
uncons e (x ∷ xs) = ok (x, xs)

unfoldable pub require : {A : Type 0} → Error → Option A → Result A
require e none = err e
require e (some a) = ok a

-- what follows the first block under version 3
unfoldable pub nothing_after : {A : Type 0} → List A → Result (Unit {0})
nothing_after [] = ok tt
nothing_after (x ∷ xs) = err Error.codec_error

module _ {Node Component Block Interest Data : Type 0} ⦃o : Ord Node⦄ ⦃oc : Ord Component⦄
    (t : Tlv Node Block) (ndn : Ndn Component Block Interest Data) where
  unfoldable pub make_sync_name : List Component → Version → List Component
  unfolding version_number
  make_sync_name group_prefix version = group_prefix ++ ndn.version (version_number version) ∷ []

  unfoldable compressed : Option (Compression Block) → Block → Block
  compressed none parameters = parameters
  compressed (some lzma) parameters =
      t.make Kind.application_parameters (lzma.compress parameters ∷ [])

  -- the ApplicationParameters of a version
  unfoldable pub parameters_of :
      Option (Compression Block)
      → List Component
      → VersionVector Node
      → List Block
      → Version
      → Option (Data → Result Data)
      → Result Block
  unfolding compressed
  parameters_of lzma sync_name state_vector extensions v3 sign_data = do
    let content = t.make Kind.content (Codec.encode t state_vector ∷ extensions)
    sign ← require Error.invalid_argument sign_data
    state_data ← sign (ndn.make_data sync_name content)
    ok (t.make Kind.application_parameters (ndn.data_block state_data ∷ []))
  parameters_of lzma sync_name state_vector extensions v2 sign_data = ok (
      compressed lzma (
        t.make Kind.application_parameters
          (Codec.encode_v2 t state_vector ∷ prepend_each (λ b. b) (reverse extensions) [])))

  unfoldable pub encode :
      Option (Compression Block)
      → List Component
      → VersionVector Node
      → List Block
      → Version
      → ℕ
      → Option (Data → Result Data)
      → Result Interest
  unfolding make_sync_name parameters_of
  encode lzma group_prefix state_vector extensions version lifetime sign_data = do
    let sync_name = make_sync_name group_prefix version
    check_extensions t extensions
    parameters ← parameters_of lzma sync_name state_vector extensions version sign_data
    ok (ndn.make_interest sync_name parameters lifetime)

  -- the name of an Interest that carries its parameters' digest
  unfoldable pub is_sync_name : List Component → Interest → Bool
  is_sync_name expected interest =
      length (ndn.interest_name interest) == suc (length expected)
      && same_name (take (length expected) (ndn.interest_name interest)) expected
      && last_is ndn.is_parameters_digest (ndn.interest_name interest)
      && ndn.is_digest_valid interest

  -- a compressed block is what `get(tlv::LzmaBlock)` finds
  unfoldable pub decompressed :
      Option (Compression Block) → Version → List Block → Result (List Block)
  unfolding find_block
  decompressed (some lzma) v2 params = elim (find_block t Kind.lzma_block params) [
    | none ↦ ok params
    | some block ↦ do
      decoded ← lzma.decompress block
      throw_if (not (t.type decoded == Kind.application_parameters)) Error.codec_error
      t.elements decoded
  ]
  decompressed (some lzma) v3 params = ok params
  decompressed none version params = ok params

  unfoldable pub decode_state_vector :
      ℕ → DecodedSyncEnvelope Node Block Data → Version → Result (VersionVector Node)
  unfolding uncons require
  decode_state_vector now envelope v2 = do
    throw_if (not envelope.state_vector_decoded) Error.codec_error
    ok envelope.state_vector
  decode_state_vector now envelope v3 = do
    state_data ← require Error.codec_error envelope.state_vector_data
    content ← t.elements (ndn.data_content state_data)
    front ← uncons Error.codec_error content
    throw_if (not (t.type front.0 == Kind.state_vector)) Error.tlv_error
    Codec.decode t now front.0

  unfoldable pub decode_semantic :
      Bool → ℕ → DecodedSyncEnvelope Node Block Data → Result (DecodedSyncEnvelope Node Block Data)
  unfolding decode_state_vector
  decode_semantic false now envelope = ok envelope
  decode_semantic true now envelope = do
    state_vector ← decode_state_vector now envelope v3
    ok (record envelope { state_vector = state_vector; state_vector_decoded = true })

  -- State Vector Data
  unfoldable pub decode_v3 :
      ℕ → List Component → Bool → Block → Result (DecodedSyncEnvelope Node Block Data)
  unfolding uncons decode_semantic
  decode_v3 now expected semantic first = do
    throw_if (not (t.type first == Kind.data_packet)) Error.tlv_error
    state_data ← ndn.read_data first
    throw_if
        (not (same_name (ndn.data_name state_data) expected)
          || not (ndn.is_signature_valid state_data))
        Error.tlv_error
    content ← t.elements (ndn.data_content state_data)
    front ← uncons Error.tlv_error content
    throw_if (not (t.type front.0 == Kind.state_vector)) Error.tlv_error
    extensions ← collect t [] [] front.1
    decode_semantic semantic now (record {
      state_vector = empty;
      state_vector_decoded = false;
      extensions = extensions;
      state_vector_data = some state_data;
    })

  -- the envelope of a version: its first block, and the blocks behind it
  unfoldable pub decode_version :
      ℕ
      → List Component
      → Version
      → Bool
      → Block × List Block
      → Result (DecodedSyncEnvelope Node Block Data)
  unfolding decode_v3 nothing_after
  decode_version now expected v3 semantic (first, others) = do
    decoded ← decode_v3 now expected semantic first
    nothing_after others
    ok decoded
  decode_version now expected v2 semantic (first, others) = do
    throw_if (not (t.type first == Kind.state_vector)) Error.tlv_error
    state_vector ← Codec.decode_v2 t now first
    extensions ← collect t [] [] others
    ok (record {
      state_vector = state_vector;
      state_vector_decoded = true;
      extensions = extensions;
      state_vector_data = none;
    })

  unfoldable pub decode :
      ℕ
      → Option (Compression Block)
      → Interest
      → List Component
      → Version
      → Bool
      → Result (DecodedSyncEnvelope Node Block Data)
  unfolding make_sync_name is_sync_name decompressed decode_version
  decode now lzma interest group_prefix version semantic = do
    let expected = make_sync_name group_prefix version
    throw_if (not (is_sync_name expected interest)) Error.tlv_error
    block ← require Error.tlv_error (ndn.application_parameters interest)
    elements ← t.elements block
    params ← decompressed lzma version elements
    first ← uncons Error.tlv_error params
    decode_version now expected version semantic first
