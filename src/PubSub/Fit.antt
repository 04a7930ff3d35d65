-- ===== src/PubSub/Fit.antt =====
-- What the packets of a large publication are: consecutive pieces of its value, each within the
-- limit, all with the number of the last one.
use ndn_svs.Base.{
  ℕ, zero, suc, ◌+◌, ◌-◌, ◌/◌, ◌≤◌, ◌≡◌, sym, subst, ◌∙◌, ap, arith, Option, none, some, List, [],
  ◌∷◌, ◌++◌, length, length-append, take, drop, min, ltb, leb, ltb→le, leb→le, nat_ord, ◌==◌,
  ==_iff, is_empty, Result, ok, Error, throw_if, Ensures, Ensures-bind, Ensures-any, Ensures-if,
  returns_itself, Ensures-map, bind-ok,
}
use mathlib.Core.List.{append_assoc, append-nil}
use ndn_svs.Packets.{
  Packets, PacketsLaws, Markers, DataFields, wire_size, max_ndn_packet_size, required,
}
use ndn_svs.PubSub.Segments.{
  SegmentSource, max_data_size, is_final_packet_size_allowed, prepare_outer_segment, search,
  best_size, cut_segments, all_allowed, fit_passes, prepare_segmented_packets,
}

module _ {Component Data : Type 0} (pk : Packets Component Data) (mk : Markers Component) where
  -- a size within the range, with the packet that was prepared for it
  abbrev pub IsFound : (ℕ → Result Data) → ℕ → Option (ℕ × Data) → Type 0
  IsFound prepare upper none = Unit
  IsFound prepare upper (some (size, packet)) =
      (1 ≤ size)
      × (size ≤ upper)
      × (prepare size ≡ ok packet)
      × (wire_size pk packet ≤ max_ndn_packet_size)

  search-IsFound :
      (prepare : ℕ → Result Data) (upper fuel low high : ℕ) (best : Option (ℕ × Data))
      → 1 ≤ low
      → high ≤ upper
      → IsFound prepare upper best
      → Ensures (IsFound prepare upper) (search pk mk prepare fuel low high best)
  unfolding search is_final_packet_size_allowed
  search-IsFound prepare upper zero low high best l h f = f
  search-IsFound prepare upper (suc fuel) low high best l h f =
      let candidate = low + (high - low) / 2 in
      Ensures-if (IsFound prepare upper) (ltb high low) (ok best) _ (λ e. f)
        λ e0.
          let e = ltb→le high low e0 in
          Ensures-bind (λ x. prepare candidate ≡ ok x) (IsFound prepare upper) (prepare candidate) _
            (returns_itself (prepare candidate))
            λ x p.
              Ensures-if (IsFound prepare upper) (leb (wire_size pk x) max_ndn_packet_size)
                (search pk mk prepare fuel (candidate + 1) high (some (candidate, x)))
                (search pk mk prepare fuel low (candidate - 1) best)
                (λ small.
                  search-IsFound prepare upper fuel (candidate + 1) high (some (candidate, x))
                    (omega (arith, l)) h
                    (omega (arith, l, e), omega (arith, e, h), p, leb→le _ _ small))
                (λ big.
                  search-IsFound prepare upper fuel low (candidate - 1) best l (omega (arith, e, h))
                    f)

  abbrev inner_fields : SegmentSource Component → Component → ℕ → ℕ → ℕ → DataFields Component
  inner_fields p final_block segment_no offset size = record {
    name = p.name ++ mk.version 0 ∷ mk.segment segment_no ∷ [];
    content = take size (drop offset p.value);
    freshness_period = p.freshness_period;
    content_type = 0;
    final_block = some final_block;
  }

  -- a packet that carries `size` bytes of the value, from an offset on
  pub record IsPiece (p : SegmentSource Component) (final_block : Component) (segment_no offset : ℕ)
      (packet : Data) (size : ℕ) : Type 0 where
    pub inner : Data
    pub carries : (pk.fields packet).content ≡ pk.wire_encode inner
    pub holds : pk.fields inner ≡ inner_fields p final_block segment_no offset size
    pub positive : 1 ≤ size
    pub available : size ≤ min max_data_size (length p.value - offset)
    pub fits : wire_size pk packet ≤ max_ndn_packet_size

  -- Packets that carry the rest of the value, one piece after the other.
  abbrev pub AreCut : SegmentSource Component → Component → ℕ → ℕ → List Data → Type 0
  AreCut p final_block segment_no offset [] = length p.value ≤ offset
  AreCut p final_block segment_no offset (packet ∷ packets) =
      (size : ℕ) × IsPiece p final_block segment_no offset packet size
      × AreCut p final_block (segment_no + 1) (offset + size) packets

  -- the packets of a value, with the number of the last one in each
  abbrev pub AreSegments : SegmentSource Component → List Data → Type 0
  AreSegments p packets = AreCut p (mk.segment (length packets - 1)) 0 0 packets

  module _ (laws : PacketsLaws pk) where
    prepare_outer_segment-IsPiece :
        (p : SegmentSource Component) (fb : Component) (n offset size : ℕ) (packet : Data)
        → 1 ≤ size
        → size ≤ min max_data_size (length p.value - offset)
        → wire_size pk packet ≤ max_ndn_packet_size
        → prepare_outer_segment pk mk p n fb offset size ≡ ok packet
        → IsPiece p fb n offset packet size
    unfolding prepare_outer_segment
    prepare_outer_segment-IsPiece p fb n offset size packet l h f e =
        let i = bind-ok (pk.sign (inner_fields p fb n offset size)) _ packet e in
        record {
          inner = i.0;
          carries = ap (λ f. f.content) (laws.fields-sign _ packet i.2);
          holds = laws.fields-sign (inner_fields p fb n offset size) i.0 i.1;
          positive = l;
          available = h;
          fits = f;
        }

    found-IsPiece :
        (p : SegmentSource Component) (fb : Component) (n offset : ℕ) (b : Option (ℕ × Data))
        → IsFound
            (prepare_outer_segment pk mk p n fb offset)
            (min max_data_size (length p.value - offset))
            b
        → Ensures (λ b. IsPiece p fb n offset b.1 b.0) (required Error.length_error b)
    found-IsPiece p fb n offset none f = tt
    found-IsPiece p fb n offset (some b) f =
        prepare_outer_segment-IsPiece p fb n offset b.0 b.1 f.0 f.1 f.3 f.2

    best_size-IsPiece :
        (p : SegmentSource Component) (fb : Component) (n offset : ℕ)
        → Ensures (λ b. IsPiece p fb n offset b.1 b.0) (best_size pk mk p fb n offset)
    best_size-IsPiece p fb n offset =
        let prepare = prepare_outer_segment pk mk p n fb offset in
        let upper = min max_data_size (length p.value - offset) in
        Ensures-bind (IsFound prepare upper) (λ b. IsPiece p fb n offset b.1 b.0)
          (search pk mk prepare upper 1 upper none) (required Error.length_error)
          (search-IsFound prepare upper upper 1 upper none (omega arith) (omega arith) tt)
          (found-IsPiece p fb n offset)

    -- the packets that are cut are appended
    Extends : SegmentSource Component → Component → ℕ → List Data → List Data → Type 0
    Extends p fb offset done all =
        (more : List Data) × (all ≡ done ++ more) × AreCut p fb (length done) offset more

    Extends-cons :
        (p : SegmentSource Component) (fb : Component) (offset : ℕ) (done : List Data)
        (b : ℕ × Data)
        → IsPiece p fb (length done) offset b.1 b.0
        → (all : List Data) → Extends p fb (offset + b.0) (done ++ b.1 ∷ []) all
        → Extends p fb offset done all
    unfolding Extends
    Extends-cons p fb offset done b piece all e =
        let n : length (done ++ b.1 ∷ []) ≡ length done + 1 = length-append done (b.1 ∷ []) in
        (
          b.1 ∷ e.0,
          e.1 ∙ append_assoc done (b.1 ∷ []) e.0,
          (b.0, piece, subst (λ n. AreCut p fb n (offset + b.0) e.0) n e.2),
        )

    cut_segments-Extends :
        (p : SegmentSource Component) (fb : Component) (fuel offset : ℕ) (packets : List Data)
        → length p.value - offset ≤ fuel
        → Ensures (Extends p fb offset packets) (cut_segments pk mk p fb fuel offset packets)
    unfolding cut_segments Extends
    cut_segments-Extends p fb zero offset packets h =
        ([], sym (append-nil packets), omega (arith, h))
    cut_segments-Extends p fb (suc fuel) offset packets h =
        Ensures-if (Extends p fb offset packets) (ltb offset (length p.value)) _ (ok packets)
          (λ e.
            Ensures-bind (λ b. IsPiece p fb (length packets) offset b.1 b.0)
              (Extends p fb offset packets) (best_size pk mk p fb (length packets) offset) _
              (best_size-IsPiece p fb (length packets) offset)
              (λ b piece.
                Ensures-map (Extends-cons p fb offset packets b piece)
                  (cut_segments pk mk p fb fuel (offset + b.0) (packets ++ b.1 ∷ []))
                  (cut_segments-Extends p fb fuel (offset + b.0) (packets ++ b.1 ∷ [])
                    (omega (arith, h, piece.positive)))))
          (λ e. ([], sym (append-nil packets), ltb→le _ _ e))

    fit_passes-AreSegments :
        (p : SegmentSource Component) (passes guess : ℕ)
        → Ensures (AreSegments p) (fit_passes pk mk p passes guess)
    unfolding fit_passes Extends
    fit_passes-AreSegments p zero guess = tt
    fit_passes-AreSegments p (suc passes) guess =
        Ensures-bind (Extends p (mk.segment guess) 0 []) (AreSegments p)
          (cut_segments pk mk p (mk.segment guess) (length p.value) 0 []) _
          (cut_segments-Extends p (mk.segment guess) (length p.value) 0 [] (omega arith))
          λ packets e.
            Ensures-if (AreSegments p) ((length packets - 1) == guess) _
              (fit_passes pk mk p passes (length packets - 1))
              (λ same.
                Ensures-any (AreSegments p) (all_allowed pk mk packets) (λ u. ok packets)
                  (λ u.
                    let n : guess ≡ length packets - 1 =
                      sym ((==_iff (length packets - 1) guess).0 same) in
                    subst (λ g. AreCut p (mk.segment g) 0 0 packets) n
                      (subst (λ l. AreCut p (mk.segment guess) 0 0 l) (sym e.1) e.2)))
              (λ other. fit_passes-AreSegments p passes (length packets - 1))

    pub prepare_segmented_packets-AreSegments :
        (p : SegmentSource Component) → Ensures (AreSegments p) (prepare_segmented_packets pk mk p)
    unfolding prepare_segmented_packets
    prepare_segmented_packets-AreSegments p =
        Ensures-any (AreSegments p) (throw_if (is_empty p.value) Error.invalid_argument) _
          (λ u. fit_passes-AreSegments p 16 ((length p.value - 1) / max_data_size))
