-- ===== src/Examples/Mappings.antt =====
-- The theorems on mappings, with names that are lists of numbers in the order of a dictionary.
use ndn_svs.Base.{
  ℕ, ◌+◌, ◌-◌, ◌^◌, ◌≡◌, refl, max, none, some, List, [], ◌∷◌, map, reverse, compare, Ordering,
  compare-eq, compare_self, Ord, ok, arith,
}
use Prim.Native.Nat.{eq, lt, gt}
use ndn_svs.Core.State.{v3}
use ndn_svs.Core.Merge.{MissingDataInfo}
use ndn_svs.Base.OrdMap.{find}
use ndn_svs.Mapping.{
  MappingEntry, MappingList, MappingProvider, Components, get_mapping, make_mapping_key,
}
use ndn_svs.Mapping.Codec
use ndn_svs.Mapping.Query.{on_mapping_query, response, add_each}
use ndn_svs.Mapping.RoundTrip.{received, decode-encode_reversed}
use ndn_svs.Mapping.Range.{
  mappings_in, on_mapping_query-response, on_mapping_query-runs, add_each-keeps,
}
use ndn_svs.Examples.Blocks.{Tree, nothing, branch, tree_tlv, tree_laws}

unfoldable pub compare_names : List ℕ → List ℕ → Ordering
compare_names [] [] = eq
compare_names [] (y ∷ ys) = lt
compare_names (x ∷ xs) [] = gt
compare_names (x ∷ xs) (y ∷ ys) = elim (compare x y) [
  | lt ↦ lt
  | eq ↦ compare_names xs ys
  | gt ↦ gt
]

pub names_self : (xs : List ℕ) → compare_names xs xs ≡ eq
unfolding compare_names
names_self [] = refl
names_self (x ∷ xs) = rw (compare_self x, compare_names) (names_self xs)

pub names_eq : (xs ys : List ℕ) → compare_names xs ys ≡ eq → xs ≡ ys
unfolding compare_names
names_eq [] [] h = refl
names_eq [] (y ∷ ys) h = cc
names_eq (x ∷ xs) [] h = cc
names_eq (x ∷ xs) (y ∷ ys) h = ground (arith, names_eq xs ys, compare-eq x y)

pub names_flip : (xs ys : List ℕ) → compare_names xs ys ≡ lt → compare_names ys xs ≡ gt
unfolding compare_names
names_flip [] [] h = cc
names_flip [] (y ∷ ys) h = refl
names_flip (x ∷ xs) [] h = cc
names_flip (x ∷ xs) (y ∷ ys) h = ground (arith, names_flip xs ys)

pub names_flop : (xs ys : List ℕ) → compare_names xs ys ≡ gt → compare_names ys xs ≡ lt
unfolding compare_names
names_flop [] [] h = cc
names_flop [] (y ∷ ys) h = cc
names_flop (x ∷ xs) [] h = refl
names_flop (x ∷ xs) (y ∷ ys) h = ground (arith, names_flop xs ys)

pub names_chain :
    (xs ys zs : List ℕ)
    → compare_names xs ys ≡ lt
    → compare_names ys zs ≡ lt
    → compare_names xs zs ≡ lt
unfolding compare_names
names_chain [] [] zs h k = cc
names_chain [] (y ∷ ys) [] h k = cc
names_chain [] (y ∷ ys) (z ∷ zs) h k = refl
names_chain (x ∷ xs) [] zs h k = cc
names_chain (x ∷ xs) (y ∷ ys) [] h k = cc
names_chain (x ∷ xs) (y ∷ ys) (z ∷ zs) h k = ground (arith, names_chain xs ys zs)

instance abbrev pub name_ord : Ord (List ℕ)
name_ord = record {
  cmp = compare_names;
  cmp_self = names_self;
  cmp_eq = names_eq;
  cmp_flip = names_flip;
  cmp_flop = names_flop;
  cmp_chain = names_chain;
}

abbrev Sample : Type 0
Sample = Tree (List ℕ)

abbrev pub sample_components : Components ℕ
sample_components = record { timestamp = λ b. 1000 + b; sequence_number = λ s. 2000 + s }

abbrev entry_of : ℕ → ℕ → MappingEntry ℕ Sample
entry_of s n = record {
  bootstrap_time = 7;
  seq_no = s;
  mapping = record { name = n ∷ []; blocks = branch 300 nothing ∷ branch 301 nothing ∷ [] };
}

abbrev sample_list : MappingList ℕ Sample
sample_list = record { node_id = 1 ∷ []; pairs = entry_of 3 50 ∷ entry_of 4 51 ∷ [] }

decode-encode_reversed_example :
    Codec.decode tree_tlv v3 (Codec.encode tree_tlv v3 sample_list)
    ≡ ok (record sample_list { pairs = map (received v3) (reverse sample_list.pairs) })
decode-encode_reversed_example =
    decode-encode_reversed tree_tlv tree_laws v3 sample_list
      ((omega arith, omega arith), ((omega arith, omega arith), tt))

-- a provider with the mapping of number 3
abbrev sample_provider : MappingProvider ℕ Sample
sample_provider = record {
  sync_prefix = 9 ∷ [];
  id = 1 ∷ [];
  version = v3;
  map = ((1 ∷ 1007 ∷ 2003 ∷ []), (entry_of 3 50).mapping) ∷ [];
}

abbrev query_to : ℕ → MissingDataInfo (List ℕ)
query_to high = record {
  node_id = 1 ∷ [];
  low = 2;
  high = high;
  incoming_face = 0;
  bootstrap_time = 7;
}

on_mapping_query-response_example :
    on_mapping_query sample_components 5 tree_tlv (ok (query_to 4)) sample_provider
    ≡ some (
        response sample_components tree_tlv v3
          (1 ∷ [])
          (mappings_in sample_components (max 4 2 - 2 + 1) (1 ∷ []) 7 2 sample_provider))
on_mapping_query-response_example =
    on_mapping_query-response sample_components 5 tree_tlv (query_to 4) sample_provider
      (omega arith) (omega arith) (omega arith)

on_mapping_query-runs_example :
    on_mapping_query sample_components 100 tree_tlv (ok (query_to (2 ^ 64 - 1))) sample_provider
    ≡ none
on_mapping_query-runs_example =
    on_mapping_query-runs sample_components 100 tree_tlv (query_to (2 ^ 64 - 1)) sample_provider
      (omega arith) refl

sample_known :
    get_mapping sample_components (1 ∷ []) 7 3 sample_provider ≡ ok (entry_of 3 50).mapping
unfolding get_mapping make_mapping_key find compare_names
sample_known = refl

add_each-keeps_example :
    get_mapping sample_components
      (1 ∷ [])
      7
      3
      (add_each sample_components (1 ∷ []) (entry_of 3 60 ∷ entry_of 4 61 ∷ []) sample_provider)
    ≡ ok (entry_of 3 50).mapping
add_each-keeps_example =
    add_each-keeps sample_components (1 ∷ []) (1 ∷ []) 7 3 (entry_of 3 60 ∷ entry_of 4 61 ∷ [])
      sample_provider (entry_of 3 50).mapping sample_known
