-- ===== src/Examples/Blocks.antt =====
-- Blocks as trees, with the laws that the codecs rely on.
use ndn_svs.Base.{ℕ, Bool, List, [], ◌∷◌, ◌≡◌, refl, ap, Result, ok, err, Error}
use ndn_svs.Tlv.{Tlv, TlvLaws}

pub data Tree (Node : Type 0) : Type 0 where
  nothing : Tree Node
  before : Tree Node → Tree Node → Tree Node
  branch : ℕ → Tree Node → Tree Node
  number : ℕ → ℕ → Tree Node
  named : Node → Tree Node
  packet : List ℕ → Bool → Tree Node → Tree Node

unfoldable pub pack : {Node : Type 0} → List (Tree Node) → Tree Node
pack [] = nothing
pack (x ∷ xs) = before x (pack xs)

unfoldable pub unpack : {Node : Type 0} → Tree Node → List (Tree Node)
unpack (before x xs) = x ∷ unpack xs
unpack _ = []

unfoldable pub type_of : {Node : Type 0} → Tree Node → ℕ
type_of (branch k x) = k
type_of (number k n) = k
type_of (named n) = 7
type_of (packet n s c) = 6
type_of _ = 0

unfoldable pub elements_of : {Node : Type 0} → Tree Node → Result (List (Tree Node))
unfolding unpack
elements_of (branch k x) = ok (unpack x)
elements_of _ = err Error.tlv_error

unfoldable pub number_of : {Node : Type 0} → Tree Node → Result ℕ
number_of (number k n) = ok n
number_of _ = err Error.tlv_error

unfoldable pub name_of : {Node : Type 0} → Tree Node → Result Node
name_of (named n) = ok n
name_of _ = err Error.tlv_error

abbrev pub tree_tlv : {Node : Type 0} → Tlv Node (Tree Node)
tree_tlv = record {
  type = type_of;
  elements = elements_of;
  read_number = number_of;
  read_name = name_of;
  make = λ k bs. branch k (pack bs);
  number = number;
  name_block = named;
}

unpack-pack : {Node : Type 0} (bs : List (Tree Node)) → unpack (pack bs) ≡ bs
unfolding unpack pack
unpack-pack [] = refl
unpack-pack (x ∷ xs) = ap (λ ys. x ∷ ys) (unpack-pack xs)

pub tree_laws : {Node : Type 0} → TlvLaws (tree_tlv {Node = Node})
unfolding type_of elements_of number_of name_of
tree_laws = record {
  type-make = λ k bs. refl;
  elements-make = λ k bs. ap ok (unpack-pack bs);
  type-number = λ k n. refl;
  read_number-number = λ k n h. refl;
  type-name_block = λ n. refl;
  read_name-name_block = λ n. refl;
}
