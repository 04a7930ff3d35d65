-- ===== src/PubSub/Assembly.antt =====
-- How the segments of a publication are put together: `decodeInnerSegments` of
-- ndn-svs/svspubsub.cpp. `return std::nullopt` and an exception, which is caught, are errors here.
use ndn_svs.Base.{
  ℕ, zero, suc, ◌+◌, ◌%◌, ◌^◌, Bool, true, false, not, ◌||◌, Option, none, some, List, [], ◌∷◌,
  ◌++◌, length, ltb, Ord, nat_ord, ◌==◌, Result, ok, err, Error, throw_if, ◌>>=◌, ◌>>◌,
}
use ndn_svs.Base.OrdMap.{OrdMap, find, insert}
use ndn_svs.Packets.{Packets, Markers, ends, required}

-- `InnerSegmentAssembly`
pub record InnerSegmentAssembly (Component : Type 0) : Type 0 where
  pub name : List Component
  pub payload : List ℕ

-- a block, as the loop reads it
pub record InnerSegment (Component Data : Type 0) : Type 0 where
  pub segment_no : ℕ
  pub final_segment : ℕ
  pub base_name : List Component
  pub inner : Data

-- the variables of the loop
pub record Collected (Component Data : Type 0) : Type 0 where
  pub segments : OrdMap ℕ Data
  pub expected_final : Option ℕ
  pub base_name : Option (List Component)

-- another value was seen before
abbrev pub differs {ℓ} : {K : Type ℓ} ⦃o : Ord K⦄ → Option K → K → Bool
differs none k = false
differs (some j) k = not (j == k)

abbrev pub is_some {ℓ} : {A : Type ℓ} → Option A → Bool
is_some none = false
is_some (some a) = true

-- what is left of a `try` block that returns an optional
abbrev pub to_optional {ℓ} : {A : Type ℓ} → Result A → Option A
to_optional (ok a) = some a
to_optional (err e) = none

module _ {Component Data : Type 0} ⦃o : Ord (List Component)⦄ (pk : Packets Component Data)
    (mk : Markers Component) where
  unfoldable pub decode_segment : List ℕ → Result (InnerSegment Component Data)
  decode_segment block = do
    inner ← pk.parse block
    parts ← required Error.codec_error (ends (pk.fields inner).name)
    segment_no ← required Error.codec_error (mk.to_segment parts.2)
    throw_if (not (mk.is_version parts.1)) Error.codec_error
    final_block ← required Error.codec_error (pk.fields inner).final_block
    final_segment ← required Error.codec_error (mk.to_segment final_block)
    throw_if (ltb final_segment segment_no || length (pk.fields inner).content == 0)
        Error.codec_error
    ok (record {
      segment_no = segment_no;
      final_segment = final_segment;
      base_name = parts.0;
      inner = inner;
    })

  unfoldable pub add_segment :
      InnerSegment Component Data → Collected Component Data → Result (Collected Component Data)
  add_segment s c = do
    throw_if
        (differs c.base_name s.base_name
          || differs c.expected_final s.final_segment
          || is_some (find s.segment_no c.segments))
        Error.codec_error
    ok (record {
      segments = insert s.segment_no s.inner c.segments;
      expected_final = some s.final_segment;
      base_name = some s.base_name;
    })

  unfoldable pub collect_segments :
      List (List ℕ) → Collected Component Data → Result (Collected Component Data)
  unfolding decode_segment add_segment
  collect_segments [] c = ok c
  collect_segments (block ∷ blocks) c = do
    s ← decode_segment block
    c' ← add_segment s c
    collect_segments blocks c'

  -- the loop over the numbers, from a number on
  unfoldable pub join_payload : ℕ → ℕ → OrdMap ℕ Data → Result (List ℕ)
  join_payload zero segment_no segments = ok []
  join_payload (suc count) segment_no segments = do
    inner ← required Error.codec_error (find segment_no segments)
    others ← join_payload count (segment_no + 1) segments
    ok ((pk.fields inner).content ++ others)

  unfoldable pub assemble : Collected Component Data → Result (InnerSegmentAssembly Component)
  unfolding join_payload
  assemble c = do
    final ← required Error.codec_error c.expected_final
    throw_if (not (length c.segments == (final + 1) % 2 ^ 64)) Error.codec_error
    name ← required Error.codec_error c.base_name
    payload ← join_payload (final + 1) 0 c.segments
    ok (record { name = name; payload = payload })

  unfoldable pub decode_inner_segments : List (List ℕ) → Option (InnerSegmentAssembly Component)
  unfolding collect_segments assemble
  decode_inner_segments blocks = to_optional do
    c ← collect_segments blocks (record { segments = []; expected_final = none; base_name = none })
    assemble c
