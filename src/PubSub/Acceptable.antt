-- ===== src/PubSub/Acceptable.antt =====
-- Which collections of extra blocks pass the checks.
use ndn_svs.Base.{
  ℕ, ◌≤◌, ◌≡◌, ◌≢◌, inl, inr, refl, sym, ◌∙◌, arith, Bool, true, false, Bool-cases, List, [], ◌∷◌,
  length, ltb, ltb→le, elem, Distinct, nat_ord, ◌==◌, ==_iff, if◌then◌else◌, Result, ok, err, Error,
  throw_if, ◌>>=◌, ◌>>◌, All,
}
use ndn_svs.Tlv.Kind
use ndn_svs.Core.State.{v3}
use ndn_svs.Core.Merge.{MissingDataInfo}
use ndn_svs.Mapping.{MappingList}
use ndn_svs.Mapping.Codec
use ndn_svs.SyncProtocol.{max_extension_blocks}
use ndn_svs.PubSub.Repair.{decode_repair_requests}
use ndn_svs.PubSub.Extra.{ExtraCodec}
use ndn_svs.PubSub.Arrival.{
  data_type, is_known_extension, readable, check_child, check_children, check_extension, check_each,
  check_blocks,
}

in_turn : (r k : Result (Unit {0})) → (r >> k) ≡ ok tt → (r ≡ ok tt) × (k ≡ ok tt)
in_turn (ok u) k h = (refl, h)
in_turn (err e) k h = cc

untested : (b : Bool) (e : Error) → throw_if b e ≡ ok tt → b ≡ false
untested true e h = cc
untested false e h = refl

differs : (a b : ℕ) → a ≢ b → (a == b) ≡ false
differs a b h = ground arith

module _ {Component Data Block : Type 0} (x : ExtraCodec Component Data Block) where
  readable-ok : {A : Type 0} (r : Result A) → readable x r ≡ ok tt → (a : A) × (r ≡ ok a)
  readable-ok (ok a) h = (a, refl)
  readable-ok (err e) h = cc

  -- a block whose type is one of the three that are read, and that can be read, or any other block
  pub data CanRead (b : Block) : Type 0 where
    mappings :
        (list : MappingList Component Block)
        → x.tlv.type b ≡ Kind.mapping_data
        → Codec.decode x.tlv v3 b ≡ ok list
        → CanRead b
    packet : (d : Data) → x.tlv.type b ≡ data_type → x.read_data b ≡ ok d → CanRead b
    requests :
        (infos : List (MissingDataInfo (List Component)))
        → x.tlv.type b ≡ Kind.repair_data
        → decode_repair_requests x.tlv b ≡ ok infos
        → CanRead b
    unread :
        x.tlv.type b ≢ Kind.mapping_data
        → x.tlv.type b ≢ data_type
        → x.tlv.type b ≢ Kind.repair_data
        → CanRead b

  -- a block with all its children
  abbrev pub IsWhole : Block → Type 0
  IsWhole b =
      CanRead b
      × ((children : List Block) × (x.tlv.elements b ≡ ok children) × All CanRead children)

  -- the blocks of the known types
  unfoldable pub known : List Block → List Block
  known [] = []
  known (b ∷ bs) = if is_known_extension (x.tlv.type b) then b ∷ known bs else known bs

  abbrev pub types : List Block → List ℕ
  types [] = []
  types (b ∷ bs) = x.tlv.type b ∷ types bs

  -- what a collection has to be to be taken
  abbrev pub IsAcceptable : List Block → Type 0
  IsAcceptable blocks =
      (length blocks ≤ max_extension_blocks)
      × Distinct (types (known blocks))
      × All IsWhole (known blocks)

  check_child-CanRead : (b : Block) → CanRead b → check_child x b ≡ ok tt
  unfolding check_child
  check_child-CanRead b (mappings list t h) = rw (t, h) refl
  check_child-CanRead b (packet d t h) = rw (t, h) refl
  check_child-CanRead b (requests infos t h) = rw (t, h) refl
  check_child-CanRead b (unread f g h) =
      rw
        (
          differs (x.tlv.type b) Kind.mapping_data f,
          differs (x.tlv.type b) data_type g,
          differs (x.tlv.type b) Kind.repair_data h,
        )
        refl

  is_not : (a b : ℕ) → (a == b) ≡ false → a ≢ b
  is_not a b h e = cc (h, (==_iff a b).1 e)

  CanRead-check_child : (b : Block) → check_child x b ≡ ok tt → CanRead b
  unfolding check_child
  CanRead-check_child b h = elim (Bool-cases (x.tlv.type b == Kind.mapping_data)) [
    | inl m ↦
        let r = readable-ok (Codec.decode x.tlv v3 b) (rw (check_child, m) at h) in
        mappings r.0 ((==_iff (x.tlv.type b) Kind.mapping_data).0 m) r.1
    | inr f ↦ elim (Bool-cases (x.tlv.type b == data_type)) [
      | inl m ↦
          let r = readable-ok (x.read_data b) (rw (check_child, f, m) at h) in
          packet r.0 ((==_iff (x.tlv.type b) data_type).0 m) r.1
      | inr g ↦ elim (Bool-cases (x.tlv.type b == Kind.repair_data)) [
        | inl m ↦
            let r = readable-ok (decode_repair_requests x.tlv b) (rw (check_child, f, g, m) at h) in
            requests r.0 ((==_iff (x.tlv.type b) Kind.repair_data).0 m) r.1
        | inr k ↦
            unread (is_not (x.tlv.type b) Kind.mapping_data f) (is_not (x.tlv.type b) data_type g)
              (is_not (x.tlv.type b) Kind.repair_data k)
      ]
    ]
  ]

  check_children-CanRead : (bs : List Block) → All CanRead bs → check_children x bs ≡ ok tt
  unfolding check_children
  check_children-CanRead [] h = refl
  check_children-CanRead (b ∷ bs) h = rw (check_child-CanRead b h.0) (check_children-CanRead bs h.1)

  CanRead-check_children : (bs : List Block) → check_children x bs ≡ ok tt → All CanRead bs
  unfolding check_children
  CanRead-check_children [] h = tt
  CanRead-check_children (b ∷ bs) h =
      let i = in_turn (check_child x b) (check_children x bs) h in
      (CanRead-check_child b i.0, CanRead-check_children bs i.1)

  -- of a known type, the block itself is one that is read
  check_extension-child :
      (b : Block) (children : List Block)
      → is_known_extension (x.tlv.type b) ≡ true
      → x.tlv.elements b ≡ ok children
      → check_extension x b ≡ (check_child x b >> check_children x children)
  unfolding check_extension check_child
  check_extension-child b children k e = elim (Bool-cases (x.tlv.type b == Kind.mapping_data)) [
    | inl m ↦ rw (e, m) refl
    | inr f ↦
        let r : x.tlv.type b ≡ Kind.repair_data =
          (==_iff (x.tlv.type b) Kind.repair_data).0 (ground arith) in
        rw (e, r) refl
  ]

  pub check_extension-IsWhole :
      (b : Block)
      → is_known_extension (x.tlv.type b) ≡ true
      → IsWhole b
      → check_extension x b ≡ ok tt
  check_extension-IsWhole b k w =
      check_extension-child b w.1.0 k w.1.1
      ∙ rw (check_child-CanRead b w.0) (check_children-CanRead w.1.0 w.1.2)

  elements-read :
      (b : Block) → check_extension x b ≡ ok tt → (bs : List Block) × (x.tlv.elements b ≡ ok bs)
  unfolding check_extension
  elements-read b h = elements_of (x.tlv.elements b) _ h
    where
      elements_of :
          (r : Result (List Block)) (f : List Block → Result (Unit {0}))
          → (r >>= f) ≡ ok tt
          → (bs : List Block) × (r ≡ ok bs)
      elements_of (ok bs) f h = (bs, refl)
      elements_of (err e) f h = cc

  IsWhole-check_extension :
      (b : Block)
      → is_known_extension (x.tlv.type b) ≡ true
      → check_extension x b ≡ ok tt
      → IsWhole b
  IsWhole-check_extension b k h =
      let e = elements-read b h in
      let i =
        in_turn (check_child x b) (check_children x e.0)
          (sym (check_extension-child b e.0 k e.1) ∙ h) in
      (CanRead-check_child b i.0, (e.0, e.1, CanRead-check_children e.0 i.1))

  -- types that were not met before
  abbrev AreNew : List ℕ → List ℕ → Type 0
  AreNew seen ts = All (λ t. elem t seen ≡ false) ts

  AreNew-cons :
      (u : ℕ) (seen ts : List ℕ) → elem u ts ≡ false → AreNew seen ts → AreNew (u ∷ seen) ts
  unfolding elem
  AreNew-cons u seen [] e h = tt
  AreNew-cons u seen (t ∷ ts) e h =
      ((let n = h.0 in ground arith), AreNew-cons u seen ts (ground arith) h.1)

  AreNew-tail :
      (u : ℕ) (seen ts : List ℕ) → AreNew (u ∷ seen) ts → (elem u ts ≡ false) × AreNew seen ts
  unfolding elem
  AreNew-tail u seen [] h = (refl, tt)
  AreNew-tail u seen (t ∷ ts) h =
      let rest = AreNew-tail u seen ts h.1 in
      let n = h.0 in (ground (arith, rest.0), (ground arith, rest.1))

  -- an acceptable rest of a collection, after blocks of the types `seen`
  abbrev IsRest : List ℕ → List Block → Type 0
  IsRest seen blocks =
      AreNew seen (types (known blocks))
      × Distinct (types (known blocks))
      × All IsWhole (known blocks)

  check_each-IsRest :
      (blocks : List Block) (seen : List ℕ) → IsRest seen blocks → check_each x blocks seen ≡ ok tt
  unfolding check_each known
  check_each-IsRest [] seen h = refl
  check_each-IsRest (b ∷ bs) seen h = elim (Bool-cases (is_known_extension (x.tlv.type b))) [
    | inr other ↦ rw (other) (check_each-IsRest bs seen (rw (known, other) at h))
    | inl k ↦
        let i : IsRest seen (b ∷ bs) = h in
        let j = rw (known, k) at i in
        rw (k, j.0.0, check_extension-IsWhole b k j.2.0)
          (check_each-IsRest bs (x.tlv.type b ∷ seen)
            (AreNew-cons (x.tlv.type b) seen (types (known bs)) j.1.0 j.0.1, j.1.1, j.2.1))
  ]

  IsRest-check_each :
      (blocks : List Block) (seen : List ℕ) → check_each x blocks seen ≡ ok tt → IsRest seen blocks
  unfolding check_each known
  IsRest-check_each [] seen h = (tt, tt, tt)
  IsRest-check_each (b ∷ bs) seen h = elim (Bool-cases (is_known_extension (x.tlv.type b))) [
    | inr other ↦ rw (known, other) (IsRest-check_each bs seen (rw (check_each, other) at h))
    | inl k ↦
        let u = x.tlv.type b in
        let i =
          in_turn (throw_if (elem u seen) Error.invalid_argument)
            (check_extension x b >> check_each x bs (u ∷ seen)) (rw (check_each, k) at h) in
        let j = in_turn (check_extension x b) (check_each x bs (u ∷ seen)) i.1 in
        let rest = IsRest-check_each bs (u ∷ seen) j.1 in
        let new = AreNew-tail u seen (types (known bs)) rest.0 in
        rw (known, k)
          (
            (untested (elem u seen) Error.invalid_argument i.0, new.1),
            (new.0, rest.1),
            (IsWhole-check_extension b k j.0, rest.2),
          )
  ]

  all_new : (ts : List ℕ) → AreNew [] ts
  unfolding elem
  all_new [] = tt
  all_new (t ∷ ts) = (refl, all_new ts)

  pub check_blocks-IsAcceptable :
      (blocks : List Block) → IsAcceptable blocks → check_blocks x blocks ≡ ok tt
  unfolding check_blocks
  check_blocks-IsAcceptable blocks h =
      let few : ltb max_extension_blocks (length blocks) ≡ false = (let n = h.0 in ground arith) in
      rw (few) (check_each-IsRest blocks [] (all_new (types (known blocks)), h.1, h.2))

  pub IsAcceptable-check_blocks :
      (blocks : List Block) → check_blocks x blocks ≡ ok tt → IsAcceptable blocks
  unfolding check_blocks
  IsAcceptable-check_blocks blocks h =
      let many = ltb max_extension_blocks (length blocks) in
      let i = in_turn (throw_if many Error.invalid_argument) (check_each x blocks []) h in
      let rest = IsRest-check_each blocks [] i.1 in
      (
        ltb→le max_extension_blocks (length blocks) (untested many Error.invalid_argument i.0),
        rest.1,
        rest.2,
      )
