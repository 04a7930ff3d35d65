-- ===== src/PubSub/Chosen.antt =====
-- Which mappings of the notification list a Sync Interest carries.
use ndn_svs.Base.{
  ℕ, ◌≤◌, ◌<◌, ◌≡◌, ◌≢◌, ◌⊎◌, inl, inr, refl, ◌∙◌, arith, Bool, true, false, List, [], ◌∷◌, ◌++◌,
  ltb, ltb→le, if◌then◌else◌,
}
use ndn_svs.Mapping.{MappingEntry, MappingList}
use ndn_svs.PubSub.Extra.{
  ExtraCodec, PackOptions, include_mappings, included_mappings, encode_mappings,
}

module _ {Component Data Block : Type 0} (x : ExtraCodec Component Data Block)
    (opts : PackOptions) where
  -- the size of a list of mappings of the node, encoded
  abbrev pub size_of_list : List Component → List (MappingEntry Component Block) → ℕ
  size_of_list node pairs =
      x.size (encode_mappings x opts (record { node_id = node; pairs = pairs }))

  -- Which mappings the list ends up with: behind those already kept, each with which the encoded
  -- list is within the limit, and no other.
  pub data Chosen (node : List Component)
      : List (MappingEntry Component Block)
        → List (MappingEntry Component Block)
        → List (MappingEntry Component Block)
        → Type 0 where
    all_seen : {kept : List (MappingEntry Component Block)} → Chosen node kept [] kept
    keeps :
        {e : MappingEntry Component Block} {kept es end : List (MappingEntry Component Block)}
        → size_of_list node (kept ++ e ∷ []) ≤ opts.max_application_parameters_size
        → Chosen node (kept ++ e ∷ []) es end
        → Chosen node kept (e ∷ es) end
    leaves :
        {e : MappingEntry Component Block} {kept es end : List (MappingEntry Component Block)}
        → opts.max_application_parameters_size < size_of_list node (kept ++ e ∷ [])
        → Chosen node kept es end
        → Chosen node kept (e ∷ es) end

  Chosen-if :
      (node : List Component) (e : MappingEntry Component Block)
      (kept es : List (MappingEntry Component Block)) (b : Bool)
      → ltb opts.max_application_parameters_size (size_of_list node (kept ++ e ∷ [])) ≡ b
      → ((now : List (MappingEntry Component Block))
          → Chosen node now es
              (include_mappings x opts es (record { node_id = node; pairs = now })).pairs)
      → Chosen node kept
          (e ∷ es)
          (include_mappings x opts es (
            if b
            then record { node_id = node; pairs = kept }
            else record { node_id = node; pairs = kept ++ e ∷ [] })).pairs
  Chosen-if node e kept es true h rest = leaves (ground arith) (rest kept)
  Chosen-if node e kept es false h rest =
      keeps (ltb→le opts.max_application_parameters_size (size_of_list node (kept ++ e ∷ [])) h)
        (rest (kept ++ e ∷ []))

  include_mappings-Chosen :
      (node : List Component) (entries kept : List (MappingEntry Component Block))
      → Chosen node kept entries
          (include_mappings x opts entries (record { node_id = node; pairs = kept })).pairs
  unfolding include_mappings
  include_mappings-Chosen node [] kept = all_seen
  include_mappings-Chosen node (e ∷ es) kept =
      Chosen-if node e kept es
        (ltb opts.max_application_parameters_size (size_of_list node (kept ++ e ∷ []))) refl
        (λ now. include_mappings-Chosen node es now)

  -- the mappings of the list that go out: none without a node
  abbrev pub IsIncluded : MappingList Component Block → List (MappingEntry Component Block) → Type 0
  IsIncluded list pairs =
      ((list.node_id ≡ []) × (pairs ≡ []))
      ⊎ ((list.node_id ≢ []) × Chosen list.node_id [] list.pairs pairs)

  node_id-if :
      (b : Bool) (m n : MappingList Component Block)
      → n.node_id ≡ m.node_id
      → (if b then m else n).node_id ≡ m.node_id
  node_id-if true m n h = refl
  node_id-if false m n h = h

  include_mappings-node_id :
      (entries : List (MappingEntry Component Block)) (m : MappingList Component Block)
      → (include_mappings x opts entries m).node_id ≡ m.node_id
  unfolding include_mappings
  include_mappings-node_id [] m = refl
  include_mappings-node_id (e ∷ es) m =
      let more : MappingList Component Block = record m { pairs = m.pairs ++ e ∷ [] } in
      let over = ltb opts.max_application_parameters_size (x.size (encode_mappings x opts more)) in
      include_mappings-node_id es (if over then m else more) ∙ node_id-if over m more refl

  pub included_mappings-IsIncluded :
      (node : List Component) (pairs : List (MappingEntry Component Block))
      → let list : MappingList Component Block = record { node_id = node; pairs = pairs } in
        let r = included_mappings x opts list in (r.node_id ≡ node) × IsIncluded list r.pairs
  unfolding included_mappings
  included_mappings-IsIncluded [] pairs = (refl, inl (refl, refl))
  included_mappings-IsIncluded (c ∷ node) pairs = (
    include_mappings-node_id pairs (record { node_id = c ∷ node; pairs = [] }),
    inr ((λ e. cc), include_mappings-Chosen (c ∷ node) pairs []),
  )
