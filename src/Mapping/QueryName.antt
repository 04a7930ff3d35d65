-- ===== src/Mapping/QueryName.antt =====
-- The names of mapping queries: `getMappingQueryDataName` and `parseMappingQueryDataName`.
use mathlib.Core.List.{append_assoc}
use ndn_svs.Base.{
  ℕ, ◌+◌, ◌-◌, ◌≡◌, refl, ap, sym, ◌∙◌, arith, Bool, true, not, ◌||◌, Option, some, List, [], ◌∷◌,
  ◌++◌, length, length-append, take, drop, take_front, drop_front, Ord, nat_ord, ◌==◌, ==_self,
  Result, ok, err, Error, throw_if, ◌>>=◌, ◌>>◌,
}
use ndn_svs.Packets.{required}
use ndn_svs.Core.State.{Version, v2, v3}
use ndn_svs.Core.Merge.{MissingDataInfo}
use ndn_svs.Mapping.{MappingProvider, Components}
use ndn_svs.Mapping.RoundTrip.{wire_time}

-- the components of a query, and what reads them back: `toNumber` may throw, the others are used
-- where the component is of their kind
pub record QueryComponents (Component : Type 0) : Type 0 where
  pub components : Components Component
  pub mapping : Component
  pub is_mapping : Component → Bool
  pub number : ℕ → Component
  pub to_number : Component → Result ℕ
  pub to_timestamp : Component → Option ℕ
  pub to_sequence_number : Component → Option ℕ

pub record QueryLaws {Component : Type 0} (qc : QueryComponents Component) : Type 0 where
  pub is_mapping-mapping : qc.is_mapping qc.mapping ≡ true
  pub to_number-number : (n : ℕ) → qc.to_number (qc.number n) ≡ ok n
  pub to_timestamp-timestamp : (n : ℕ) → qc.to_timestamp (qc.components.timestamp n) ≡ some n
  pub to_sequence_number-sequence_number :
      (n : ℕ) → qc.to_sequence_number (qc.components.sequence_number n) ≡ some n

unfoldable pub suffix_size : Version → ℕ
suffix_size v2 = 3
suffix_size v3 = 4

module _ {Component : Type 0} (qc : QueryComponents Component) where
  -- what follows the prefix
  unfoldable pub query_suffix : Version → ℕ → ℕ → ℕ → List Component
  query_suffix v2 bootstrap_time low high = qc.mapping ∷ qc.number low ∷ qc.number high ∷ []
  query_suffix v3 bootstrap_time low high =
      qc.components.timestamp bootstrap_time
      ∷ qc.mapping
      ∷ qc.components.sequence_number low
      ∷ qc.components.sequence_number high
      ∷ []

  unfoldable pub get_mapping_query_data_name :
      {Block : Type 0}
      → MissingDataInfo (List Component)
      → MappingProvider Component Block
      → List Component
  unfolding query_suffix
  get_mapping_query_data_name info p =
      (info.node_id ++ p.sync_prefix)
      ++ query_suffix p.version info.bootstrap_time info.low info.high

  -- the components behind the prefix, of which there must be three or four
  unfoldable pub read_suffix : Version → List Component → Result (ℕ × ℕ × ℕ)
  read_suffix v2 (m ∷ l ∷ h ∷ []) = do
    throw_if (not (qc.is_mapping m)) Error.invalid_argument
    low ← qc.to_number l
    high ← qc.to_number h
    ok (0, low, high)
  read_suffix v3 (b ∷ m ∷ l ∷ h ∷ []) = do
    throw_if (not (qc.is_mapping m)) Error.invalid_argument
    bootstrap_time ← required Error.invalid_argument (qc.to_timestamp b)
    low ← required Error.invalid_argument (qc.to_sequence_number l)
    high ← required Error.invalid_argument (qc.to_sequence_number h)
    ok (bootstrap_time, low, high)
  read_suffix _ _ = err Error.invalid_argument

  unfoldable pub parse_mapping_query_data_name :
      {Block : Type 0} ⦃o : Ord (List Component)⦄
      → List Component
      → MappingProvider Component Block
      → Result (MissingDataInfo (List Component))
  unfolding read_suffix suffix_size
  parse_mapping_query_data_name name p = do
    let expected_prefix = p.id ++ p.sync_prefix
    let n = length expected_prefix
    throw_if
        (not (length name == n + suffix_size p.version) || not (take n name == expected_prefix))
        Error.invalid_argument
    read ← read_suffix p.version (drop n name)
    ok (record {
      node_id = take (length name - (suffix_size p.version + length p.sync_prefix)) name;
      low = read.1;
      high = read.2;
      incoming_face = 0;
      bootstrap_time = read.0;
    })

module _ {Component : Type 0} (qc : QueryComponents Component) (laws : QueryLaws qc) where
  length-query_suffix :
      (v : Version) (b low high : ℕ) → length (query_suffix qc v b low high) ≡ suffix_size v
  unfolding query_suffix suffix_size
  length-query_suffix v2 b low high = refl
  length-query_suffix v3 b low high = refl

  read_suffix-query_suffix :
      (v : Version) (b low high : ℕ)
      → read_suffix qc v (query_suffix qc v b low high) ≡ ok (wire_time v b, low, high)
  unfolding query_suffix read_suffix wire_time
  read_suffix-query_suffix v2 b low high =
      rw (laws.is_mapping-mapping, laws.to_number-number low, laws.to_number-number high) refl
  read_suffix-query_suffix v3 b low high =
      rw
        (
          laws.is_mapping-mapping,
          laws.to_timestamp-timestamp,
          laws.to_sequence_number-sequence_number low,
          laws.to_sequence_number-sequence_number high,
        )
        refl

  parsed :
      {Block : Type 0} ⦃o : Ord (List Component)⦄ (id sync tail : List Component)
      (p : MappingProvider Component Block) (b low high : ℕ)
      → p.id ≡ id
      → p.sync_prefix ≡ sync
      → length tail ≡ suffix_size p.version
      → read_suffix qc p.version tail ≡ ok (b, low, high)
      → parse_mapping_query_data_name qc ((id ++ sync) ++ tail) p
        ≡ ok
            (record { node_id = id; low = low; high = high; incoming_face = 0; bootstrap_time = b })
  unfolding parse_mapping_query_data_name
  parsed {Block = Block} ⦃o⦄ id sync tail p b low high i s l r =
      let sizes : length ((id ++ sync) ++ tail) ≡ length (id ++ sync) + suffix_size p.version =
        length-append (id ++ sync) tail ∙ ap (λ k. length (id ++ sync) + k) l in
      let k = suffix_size p.version in
      let front : length (id ++ sync) + k - (k + length sync) ≡ length id =
        omega (arith, length-append id sync) in
      let node : take (length (id ++ sync) + k - (k + length sync)) ((id ++ sync) ++ tail) ≡ id =
        ap (λ m. take m ((id ++ sync) ++ tail)) front
        ∙ ap (take (length id)) (append_assoc id sync tail)
        ∙ take_front id (sync ++ tail) in
      rw
        (
          i,
          s,
          sizes,
          ==_self (length (id ++ sync) + suffix_size p.version),
          take_front (id ++ sync) tail,
          ==_self (id ++ sync),
          drop_front (id ++ sync) tail,
          r,
        )
        (ap
          (λ n.
            ok (record {
              node_id = n;
              low = low;
              high = high;
              incoming_face = 0;
              bootstrap_time = b;
            }))
          node)

  -- A query is read as it was meant: the provider of the node that is asked for, with the version
  -- and the group of the one that asks, reads the node and the range from the name that was built
  -- for them, and the bootstrap time under version 3; under version 2 it reads the time 0.
  pub parse-get_mapping_query_data_name :
      {Block : Type 0} ⦃o : Ord (List Component)⦄ (info : MissingDataInfo (List Component))
      (client server : MappingProvider Component Block)
      → server.id ≡ info.node_id
      → server.sync_prefix ≡ client.sync_prefix
      → server.version ≡ client.version
      → parse_mapping_query_data_name qc (get_mapping_query_data_name qc info client) server
        ≡ ok (record info {
          incoming_face = 0;
          bootstrap_time = wire_time client.version info.bootstrap_time;
        })
  unfolding get_mapping_query_data_name
  parse-get_mapping_query_data_name info client server i s v =
      let tail = query_suffix qc client.version info.bootstrap_time info.low info.high in
      parsed info.node_id client.sync_prefix tail server
        (wire_time client.version info.bootstrap_time) info.low info.high i s
        (length-query_suffix client.version info.bootstrap_time info.low info.high
          ∙ ap suffix_size (sym v))
        (ap (λ w. read_suffix qc w tail) v
          ∙ read_suffix-query_suffix client.version info.bootstrap_time info.low info.high)
