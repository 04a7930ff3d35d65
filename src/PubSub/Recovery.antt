-- ===== src/PubSub/Recovery.antt =====
-- A large publication is put together again from its packets.
use mathlib.Core.List.{Permᴰ, reverse-append, reverse-reverse}
use ndn_svs.Base.{
  ℕ, suc, ◌+◌, ◌-◌, ◌%◌, ◌^◌, ◌≤◌, ◌<◌, ◌≡◌, ◌⊎◌, inl, inr, refl, sym, subst, ◌∙◌, ap, arith, false,
  not, Option, none, some, List, [], ◌∷◌, ◌++◌, map, length, length-take, length-drop, drop-drop,
  take-drop_append, take, drop, ltb, Ord, nat_ord, ◌==◌, ==_self, is_empty, ok, ◌>>=◌, Ensures-ok,
}
use ndn_svs.Base.OrdMap.{OrdMap, find, insert}
use ndn_svs.Base.OrdMap.Laws.{find-insert}
use ndn_svs.Packets.{Packets, PacketsLaws, Markers, MarkersLaws, ends, ends_back}
use ndn_svs.PubSub.Segments.{SegmentSource, prepare_segmented_packets}
use ndn_svs.PubSub.Assembly.{
  InnerSegment, Collected, differs, decode_segment, collect_segments, join_payload, assemble,
  decode_inner_segments, to_optional,
}
use ndn_svs.PubSub.Assembled.{
  Fits, added, nothing_collected, collect_segments-takes, decoded, decode_inner_segments-order,
}
use ndn_svs.PubSub.Fit.{IsPiece, AreCut, AreSegments, prepare_segmented_packets-AreSegments}

ends-append :
    {Component : Type 0} (xs : List Component) (y z : Component)
    → ends (xs ++ y ∷ z ∷ []) ≡ some (xs, y, z)
ends-append xs y z =
    ap ends_back (reverse-append xs (y ∷ z ∷ [])) ∙ ap (λ r. some (r, y, z)) (reverse-reverse xs)

positive_filled : (n : ℕ) → 1 ≤ n → (n == 0) ≡ false
positive_filled n h = ground arith

nonempty_length : (v : List ℕ) → is_empty v ≡ false → 1 ≤ length v
nonempty_length [] h = cc
nonempty_length (b ∷ bs) h = omega arith

all_present : (l n : ℕ) → l ≡ 0 + suc n → suc n < 2 ^ 64 → not (l == (n + 1) % 2 ^ 64) ≡ false
all_present l n h small =
    let e : (n + 1) % 2 ^ 64 ≡ l = omega (arith, h, small) in
    subst (λ m. not (l == m) ≡ false) (sym e) (rw (==_self l) refl)

above : (n k : ℕ) → n + 1 ≤ k → (k == n) ≡ false
above n k h = ground arith

below : (n k : ℕ) → k < n → (k == n) ≡ false
below n k h = ground arith

length_zero : {A : Type 0} (xs : List A) → length xs ≡ 0 → xs ≡ []
length_zero [] h = refl
length_zero (x ∷ xs) h = ground arith

without_packets : {P : Type 0} → P ⊎ (1 ≤ 0) → P
without_packets (inl p) = p
without_packets (inr h) = ground arith

differs-known :
    {K : Type 0} ⦃k : Ord K⦄ (seen : Option K) (a : K)
    → (seen ≡ none) ⊎ (seen ≡ some a)
    → differs seen a ≡ false
differs-known seen a (inl h) = rw (h) refl
differs-known seen a (inr h) = rw (h, ==_self a) refl

length-insert_new :
    {V : Type 0} (q : ℕ) (w : V) (m : OrdMap ℕ V)
    → find q m ≡ none
    → length (insert q w m) ≡ suc (length m)
unfolding find insert
length-insert_new q w [] h = refl
length-insert_new q w ((k, v) ∷ m) h = ground (arith, length-insert_new q w m)

module _ {Component Data : Type 0} ⦃o : Ord (List Component)⦄ (pk : Packets Component Data)
    (mk : Markers Component) (pl : PacketsLaws pk) (ml : MarkersLaws mk) where
  abbrev content_of : Data → List ℕ
  content_of x = (pk.fields x).content

  abbrev segment_of : SegmentSource Component → ℕ → ℕ → Data → InnerSegment Component Data
  segment_of p final n inner = record {
    segment_no = n;
    final_segment = final;
    base_name = p.name;
    inner = inner;
  }

  piece_length :
      (p : SegmentSource Component) (final n offset size : ℕ) (packet : Data)
      → IsPiece pk mk p (mk.segment final) n offset packet size
      → length (take size (drop offset p.value)) ≡ size
  piece_length p final n offset size packet piece =
      length-take size (drop offset p.value)
        (omega (arith, length-drop offset p.value, piece.available))

  decode_segment-IsPiece :
      (p : SegmentSource Component) (final n offset size : ℕ) (packet : Data)
      (piece : IsPiece pk mk p (mk.segment final) n offset packet size)
      → n ≤ final
      → decode_segment pk mk (content_of packet) ≡ ok (segment_of p final n piece.inner)
  unfolding decode_segment
  decode_segment-IsPiece p final n offset size packet piece h =
      let filled : (length (take size (drop offset p.value)) == 0) ≡ false = positive_filled _ (
        subst (λ k. 1 ≤ k) (sym (piece_length p final n offset size packet piece))
          piece.positive) in
      rw
        (
          piece.carries,
          pl.parse-wire_encode,
          piece.holds,
          ends-append p.name (mk.version 0) (mk.segment n),
          ml.to_segment-segment n,
          ml.is_version-version,
          ml.to_segment-segment final,
          filled,
          (let e : ltb final n ≡ false = ground arith in e),
        )
        refl

  -- what was collected before the packets from number `n` on
  abbrev IsBefore : SegmentSource Component → ℕ → ℕ → Collected Component Data → Type 0
  IsBefore p final n c =
      ((c.base_name ≡ none) ⊎ (c.base_name ≡ some p.name))
      × ((c.expected_final ≡ none) ⊎ (c.expected_final ≡ some final))
      × ((k : ℕ) → n ≤ k → find k c.segments ≡ none)

  -- what the packets from number `n` on leave behind
  record IsRecovered (p : SegmentSource Component) (final n offset : ℕ) (packets : List Data)
      (c c' : Collected Component Data) : Type 0 where
    pub collected : collect_segments pk mk (map content_of packets) c ≡ ok c'
    pub kept : (k : ℕ) → k < n → find k c'.segments ≡ find k c.segments
    pub count : length c'.segments ≡ length c.segments + length packets
    pub joined : join_payload pk mk (length packets) n c'.segments ≡ ok (drop offset p.value)
    pub named :
        ((c.base_name ≡ some p.name) × (c.expected_final ≡ some final)) ⊎ (1 ≤ length packets)
        → (c'.base_name ≡ some p.name) × (c'.expected_final ≡ some final)

  joined-cons :
      (p : SegmentSource Component) (final n offset size : ℕ) (packet : Data) (count : ℕ)
      (segments : OrdMap ℕ Data) (piece : IsPiece pk mk p (mk.segment final) n offset packet size)
      → find n segments ≡ some piece.inner
      → join_payload pk mk count (n + 1) segments ≡ ok (drop (offset + size) p.value)
      → join_payload pk mk (suc count) n segments ≡ ok (drop offset p.value)
  unfolding join_payload
  joined-cons p final n offset size packet count segments piece f j =
      rw (f, j, piece.holds)
        (ap ok (
          ap (λ rest. take size (drop offset p.value) ++ rest) (sym (drop-drop offset size p.value))
          ∙ take-drop_append size (drop offset p.value)))

  recovers :
      (p : SegmentSource Component) (final n offset : ℕ) (packets : List Data)
      (c : Collected Component Data)
      → AreCut pk mk p (mk.segment final) n offset packets
      → n + length packets ≤ suc final
      → IsBefore p final n c
      → (c' : Collected Component Data) × IsRecovered p final n offset packets c c'
  unfolding join_payload collect_segments
  recovers p final n offset [] c cut h before = (
    c,
    record {
      collected = refl;
      kept = λ k l. refl;
      count = omega arith;
      joined = ap ok (
          sym (length_zero (drop offset p.value) (omega (arith, length-drop offset p.value, cut))));
      named = λ given. without_packets given;
    },
  )
  recovers p final n offset (packet ∷ packets) c cut h before =
      let piece = cut.1 in
      let s = segment_of p final n piece.inner in
      let c1 = added s c in
      let f : Fits s c = (
        differs-known c.base_name p.name before.0,
        differs-known c.expected_final final before.1,
        before.2 n (omega arith),
      ) in
      let rest = recovers p final (n + 1) (offset + cut.0) packets c1 cut.2 (omega (arith, h)) (
        inr refl,
        inr refl,
        λ k l.
            find-insert n k piece.inner c.segments
            ∙ rw (above n k l) (before.2 k (omega (arith, l))),
      ) in
      let r = rest.1 in
      (
        rest.0,
        record {
          collected =
              collect_segments-takes pk mk (content_of packet) (map content_of packets) c s
                (decode_segment-IsPiece p final n offset cut.0 packet piece (omega (arith, h))) f
              ∙ r.collected;
          kept = λ k l.
              r.kept k (omega (arith, l))
              ∙ find-insert n k piece.inner c.segments
              ∙ rw (below n k l) refl;
          count = omega (arith, r.count, length-insert_new n piece.inner c.segments f.2);
          joined =
              joined-cons p final n offset cut.0 packet (length packets) rest.0.segments piece
                (r.kept n (omega arith)
                  ∙ find-insert n n piece.inner c.segments
                  ∙ rw (==_self n) refl)
                r.joined;
          named = λ given. r.named (inl (refl, refl));
        },
      )

  assembled :
      (p : SegmentSource Component) (x : Data) (xs : List Data) (c' : Collected Component Data)
      → length (x ∷ xs) < 2 ^ 64
      → IsRecovered p (length xs) 0 0 (x ∷ xs) nothing_collected c'
      → assemble pk mk c' ≡ ok (record { name = p.name; payload = p.value })
  unfolding assemble drop
  assembled p x xs c' small r =
      let named = r.named (inr (omega arith)) in
      let sized : not (length c'.segments == (length xs + 1) % 2 ^ 64) ≡ false =
        all_present (length c'.segments) (length xs) r.count small in
      rw
        (
          named.1,
          sized,
          named.0,
          (let e : length xs + 1 ≡ suc (length xs) = omega arith in e),
          r.joined,
        )
        refl

  recovered_segments :
      (p : SegmentSource Component) (packets : List Data)
      → AreSegments pk mk p packets
      → 1 ≤ length packets
      → length packets < 2 ^ 64
      → decode_inner_segments pk mk (map content_of packets)
        ≡ some (record { name = p.name; payload = p.value })
  unfolding find
  recovered_segments p [] cut h small = without_packets (inr h)
  recovered_segments p (x ∷ xs) cut h small =
      let final : length (x ∷ xs) - 1 ≡ length xs = omega arith in
      let cut' = subst (λ f. AreCut pk mk p (mk.segment f) 0 0 (x ∷ xs)) final cut in
      let r =
        recovers p (length xs) 0 0 (x ∷ xs) nothing_collected cut' (omega arith)
          (inl refl, inl refl, λ k l. refl) in
      decoded pk mk (map content_of (x ∷ xs))
      ∙ ap (λ c. to_optional (c >>= assemble pk mk)) r.1.collected
      ∙ ap to_optional (assembled p x xs r.0 small r.1)

  prepared_value :
      (p : SegmentSource Component) (packets : List Data)
      → prepare_segmented_packets pk mk p ≡ ok packets
      → is_empty p.value ≡ false
  unfolding prepare_segmented_packets
  prepared_value p packets h = ground arith

  nonempty_segments :
      (p : SegmentSource Component) (packets : List Data)
      → is_empty p.value ≡ false
      → AreSegments pk mk p packets
      → 1 ≤ length packets
  nonempty_segments p [] h cut = omega (arith, cut, nonempty_length p.value h)
  nonempty_segments p (x ∷ xs) h cut = omega arith

  -- A value that is cut into packets is put together again: the packets that
  -- `prepareSegmentedPackets` returns, fewer than 2 ^ 64, carry blocks from which, in any order,
  -- `decodeInnerSegments` makes the name and the value.
  pub decode_inner_segments-prepare :
      (p : SegmentSource Component) (packets : List Data) (blocks : List (List ℕ))
      → prepare_segmented_packets pk mk p ≡ ok packets
      → length packets < 2 ^ 64
      → Permᴰ blocks (map (λ x. (pk.fields x).content) packets)
      → decode_inner_segments pk mk blocks ≡ some (record { name = p.name; payload = p.value })
  decode_inner_segments-prepare p packets blocks h small perm =
      let cut =
        Ensures-ok (AreSegments pk mk p) (prepare_segmented_packets pk mk p) packets
          (prepare_segmented_packets-AreSegments pk mk pl p) h in
      decode_inner_segments-order pk mk blocks (map content_of packets) perm
      ∙ recovered_segments p packets cut
          (nonempty_segments p packets (prepared_value p packets h) cut) small
