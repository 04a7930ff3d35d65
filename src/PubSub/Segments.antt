-- ===== src/PubSub/Segments.antt =====
-- How a large publication is cut into signed packets: `prepareOuterSegment` and
-- `prepareSegmentedPackets` of ndn-svs/svspubsub.cpp.
use ndn_svs.Base.{
  ℕ, zero, suc, ◌+◌, ◌-◌, ◌/◌, Bool, true, false, Option, none, some, List, [], ◌∷◌, ◌++◌, length,
  is_empty, take, drop, min, ltb, leb, nat_ord, ◌==◌, if◌then◌else◌, Result, ok, err, Error,
  throw_if, ◌>>=◌, ◌>>◌,
}
use ndn_svs.Packets.{Packets, Markers, wire_size, max_ndn_packet_size, required}

-- `MAX_DATA_SIZE`
abbrev pub max_data_size : ℕ
max_data_size = 8000

-- the fields of `AsyncPublication` that its segments are made of
pub record SegmentSource (Component : Type 0) : Type 0 where
  pub name : List Component
  pub outer_name : List Component
  pub freshness_period : ℕ
  pub value : List ℕ

module _ {Component Data : Type 0} (pk : Packets Component Data) (mk : Markers Component) where
  unfoldable pub is_final_packet_size_allowed : ℕ → Bool
  is_final_packet_size_allowed size = leb size max_ndn_packet_size

  unfoldable pub prepare_outer_segment :
      SegmentSource Component → ℕ → Component → ℕ → ℕ → Result Data
  prepare_outer_segment p segment_no final_block offset content_size = do
    inner ← pk.sign (record {
      name = p.name ++ mk.version 0 ∷ mk.segment segment_no ∷ [];
      content = take content_size (drop offset p.value);
      freshness_period = p.freshness_period;
      content_type = 0;
      final_block = some final_block;
    })
    pk.sign (record {
      name = p.outer_name ++ mk.version 0 ∷ mk.segment segment_no ∷ [];
      content = pk.wire_encode inner;
      freshness_period = p.freshness_period;
      content_type = 6;
      final_block = some final_block;
    })

  -- The search for the largest content whose packet fits, with the best size so far and its
  -- packet. Each round makes the range smaller: `suc high - low` rounds are enough.
  unfoldable pub search :
      (ℕ → Result Data) → ℕ → ℕ → ℕ → Option (ℕ × Data) → Result (Option (ℕ × Data))
  unfolding is_final_packet_size_allowed
  search prepare zero low high best = ok best
  search prepare (suc fuel) low high best =
      if ltb high low
      then ok best
      else (let candidate = low + (high - low) / 2 in
          prepare candidate >>= λ packet.
          if is_final_packet_size_allowed (wire_size pk packet)
          then search prepare fuel (candidate + 1) high (some (candidate, packet))
          else search prepare fuel low (candidate - 1) best)

  abbrev pub best_size : SegmentSource Component → Component → ℕ → ℕ → Result (ℕ × Data)
  best_size p final_block segment_no offset = do
    let upper = min max_data_size (length p.value - offset)
    best ← search (prepare_outer_segment p segment_no final_block offset) upper 1 upper none
    required Error.length_error best

  -- The loop over the value. Every packet takes at least one byte: as many rounds as there are
  -- bytes left are enough.
  unfoldable pub cut_segments :
      SegmentSource Component → Component → ℕ → ℕ → List Data → Result (List Data)
  unfolding search prepare_outer_segment
  cut_segments p final_block zero offset packets = ok packets
  cut_segments p final_block (suc fuel) offset packets =
      if ltb offset (length p.value)
      then (best_size p final_block (length packets) offset >>= λ best.
          cut_segments p final_block fuel (offset + best.0) (packets ++ best.1 ∷ []))
      else ok packets

  unfoldable pub all_allowed : List Data → Result (Unit {0})
  unfolding is_final_packet_size_allowed
  all_allowed [] = ok tt
  all_allowed (packet ∷ packets) =
      throw_if (if is_final_packet_size_allowed (wire_size pk packet) then false else true)
        Error.length_error
      >> all_allowed packets

  -- A pass is repeated with another number of the last segment, at most 16 times.
  unfoldable pub fit_passes : SegmentSource Component → ℕ → ℕ → Result (List Data)
  unfolding cut_segments all_allowed
  fit_passes p zero final_guess = err Error.runtime_error
  fit_passes p (suc passes) final_guess =
      cut_segments p (mk.segment final_guess) (length p.value) 0 [] >>= λ packets.
      let actual_final = length packets - 1 in
      if actual_final == final_guess
      then all_allowed packets >> ok packets
      else fit_passes p passes actual_final

  unfoldable pub prepare_segmented_packets : SegmentSource Component → Result (List Data)
  unfolding fit_passes
  prepare_segmented_packets p =
      throw_if (is_empty p.value) Error.invalid_argument
      >> fit_passes p 16 ((length p.value - 1) / max_data_size)
