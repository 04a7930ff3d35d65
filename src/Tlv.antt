-- ===== src/Tlv.antt =====
-- ndn-svs/tlv.hpp, and what the code asks of ndn-cxx's `Block`, which is not part of the
-- repository: a block has a type; it can be read as a sequence of blocks, as a number or as a name.
pub mod Kind
use ndn_svs.Base.{
  ℕ, ◌^◌, ◌<◌, ◌≡◌, List, [], ◌∷◌, ◌++◌, refl, map, reverse, ap, ◌∙◌, Result, ok, err,
}
use mathlib.Core.List.{append_assoc, map-append, reverse-cons, reverse-reverse}

-- `readNonNegativeInteger` and `Name(block)` throw for a block of another form, `parse` for a value
-- that is no sequence of blocks.
pub record Tlv (Node Block : Type 0) : Type 0 where
  pub type : Block → ℕ
  pub elements : Block → Result (List Block)
  pub read_number : Block → Result ℕ
  pub read_name : Block → Result Node
  pub make : ℕ → List Block → Block
  pub number : ℕ → ℕ → Block
  pub name_block : Node → Block

-- What is encoded is read back. Numbers are `uint64_t`.
pub record TlvLaws {Node Block : Type 0} (t : Tlv Node Block) : Type 0 where
  pub type-make : (k : ℕ) (bs : List Block) → t.type (t.make k bs) ≡ k
  pub elements-make : (k : ℕ) (bs : List Block) → t.elements (t.make k bs) ≡ ok bs
  pub type-number : (k n : ℕ) → t.type (t.number k n) ≡ k
  pub read_number-number : (k n : ℕ) → n < 2 ^ 64 → t.read_number (t.number k n) ≡ ok n
  pub type-name_block : (n : Node) → t.type (t.name_block n) ≡ 7
  pub read_name-name_block : (n : Node) → t.read_name (t.name_block n) ≡ ok n

-- An `EncodingBuffer` grows at its front: a loop that prepends one block for each element.
unfoldable pub prepend_each {ℓ} : {A : Type ℓ} {B : Type 0} → (A → B) → List A → List B → List B
prepend_each f [] enc = enc
prepend_each f (x ∷ xs) enc = prepend_each f xs (f x ∷ enc)

pub prepend_each-map {ℓ} :
    {A : Type ℓ} {B : Type 0} (f : A → B) (xs : List A) (enc : List B)
    → prepend_each f xs enc ≡ map f (reverse xs) ++ enc
unfolding prepend_each
prepend_each-map f [] enc = refl
prepend_each-map f (x ∷ xs) enc =
    prepend_each-map f xs (f x ∷ enc) ∙ simp (reverse-cons, map-append, append_assoc)

-- Prepending from the back keeps the order.
pub prepend_each-reverse :
    {A : Type 0} {B : Type 0} (f : A → B) (xs : List A) (enc : List B)
    → prepend_each f (reverse xs) enc ≡ map f xs ++ enc
prepend_each-reverse f xs enc =
    prepend_each-map f (reverse xs) enc ∙ ap (λ ys. map f ys ++ enc) (reverse-reverse xs)

pub prepend_each_self :
    {B : Type 0} (xs enc : List B) → prepend_each (λ b. b) xs enc ≡ reverse xs ++ enc
unfolding prepend_each
prepend_each_self [] enc = refl
prepend_each_self (x ∷ xs) enc = prepend_each_self xs (x ∷ enc) ∙ simp (reverse-cons, append_assoc)
