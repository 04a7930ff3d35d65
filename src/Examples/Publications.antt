-- ===== src/Examples/Publications.antt =====
-- Packets as lists of numbers, with the laws that the publications rely on.
use ndn_svs.Base.{
  ℕ, ◌+◌, ◌-◌, ◌≡◌, refl, sym, Option, none, some, List, [], ◌∷◌, ◌++◌, length, take, take_front,
  drop_front, drop, leb, nat_ord, ◌==◌, if◌then◌else◌, Result, ok, err, Error, arith,
}
use ndn_svs.Packets.{DataFields, Packets, PacketsLaws, Markers, MarkersLaws}

abbrev pub SampleData : Type 0
SampleData = DataFields ℕ

unfoldable final_wire : Option ℕ → List ℕ
final_wire none = []
final_wire (some c) = c ∷ []

unfoldable pub wire_of : SampleData → List ℕ
unfolding final_wire
wire_of x =
    length x.name
    ∷ (x.name
        ++ length x.content
          ∷ (x.content ++ x.freshness_period ∷ x.content_type ∷ final_wire x.final_block))

unfoldable read_final : List ℕ → Option ℕ
read_final [] = none
read_final (c ∷ cs) = some c

unfoldable read_rest : List ℕ → List ℕ → List ℕ → Result SampleData
unfolding read_final
read_rest name content (f ∷ t ∷ rest) = ok (record {
  name = name;
  content = content;
  freshness_period = f;
  content_type = t;
  final_block = read_final rest;
})
read_rest name content _ = err Error.tlv_error

unfoldable read_content : List ℕ → List ℕ → Result SampleData
unfolding read_rest
read_content name [] = err Error.tlv_error
read_content name (n ∷ rest) = read_rest name (take n rest) (drop n rest)

unfoldable pub read_wire : List ℕ → Result SampleData
unfolding read_content
read_wire [] = err Error.tlv_error
read_wire (n ∷ rest) = read_content (take n rest) (drop n rest)

abbrev pub sample_packets : Packets ℕ SampleData
sample_packets = record { sign = ok; fields = λ x. x; wire_encode = wire_of; parse = read_wire }

read_final-wire : (c : Option ℕ) → read_final (final_wire c) ≡ c
unfolding read_final final_wire
read_final-wire none = refl
read_final-wire (some c) = refl

read_wire-wire_of : (x : SampleData) → read_wire (wire_of x) ≡ ok x
unfolding read_wire wire_of read_content read_rest
read_wire-wire_of x =
    rw
      (
        take_front x.name,
        drop_front x.name,
        take_front x.content,
        drop_front x.content,
        read_final-wire,
      )
      refl

ok_same : (x f : SampleData) → ok x ≡ ok f → x ≡ f
ok_same x f e = cc

pub sample_packets_laws : PacketsLaws sample_packets
sample_packets_laws = record {
  fields-sign = λ f x e. ok_same x f (sym e);
  parse-wire_encode = read_wire-wire_of;
}

abbrev pub sample_markers : Markers ℕ
sample_markers = record {
  version = λ n. 7;
  segment = λ n. n + 1000;
  is_version = λ c. c == 7;
  to_segment = λ c. if leb 1000 c then some (c - 1000) else none;
}

segment_back : (n : ℕ) → (if leb 1000 (n + 1000) then some (n + 1000 - 1000) else none) ≡ some n
segment_back n = ground arith

pub sample_markers_laws : MarkersLaws sample_markers
sample_markers_laws = record { is_version-version = λ n. refl; to_segment-segment = segment_back }
