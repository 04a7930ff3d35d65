-- ===== src/PubSub/Packing.antt =====
-- The queues of what Sync Interests carry: what goes out, and that every entry leaves in the end.
use ndn_svs.Base.{
  ℕ, zero, suc, ◌+◌, ◌≤◌, ◌<◌, ◌≡◌, ◌⊎◌, refl, sym, ap, subst, ◌∙◌, List, [], ◌∷◌, ◌++◌, Result, ok,
}
use ndn_svs.Tlv.{prepend_each}
use ndn_svs.Tlv.Kind
use ndn_svs.Core.State.{v3}
use ndn_svs.Mapping.{MappingEntry, MappingList}
use ndn_svs.Mapping.Codec
use ndn_svs.Mapping.Codec.{encode}
use ndn_svs.PubSub.State.{ExtraQueues}
use ndn_svs.PubSub.Extra.{
  ExtraCodec, ExtraCodecLaws, PackOptions, Composite, pack_queue, pack_queues, included_mappings,
  encode_mappings, mapping_block, repair_block, on_get_extra_data,
}
use ndn_svs.PubSub.Queues.{
  total_size, Greedy, Greedy-fits, newest_first, Extends, Extends-trans, LeftOver,
  pack_queue-LeftOver, pack_queue-Extends, all_have_chances, LeftOver-empty,
}
use ndn_svs.PubSub.Chosen.{size_of_list, IsIncluded, included_mappings-IsIncluded}

module _ {Component Data Block : Type 0} (x : ExtraCodec Component Data Block)
    (laws : ExtraCodecLaws x) (opts : PackOptions) where
  -- what may go out, in the order in which it is tried: mappings, packets, repair requests, of each
  -- queue the newest first
  abbrev pub candidates : ExtraQueues Component Data Block → List Block
  candidates q =
      let limit = opts.max_application_parameters_size in
      let repeat = opts.piggyback_repeat_count in
      let miss = opts.piggyback_miss_limit in
      let again = opts.repair_request_repeat_count in
      (newest_first x.size (mapping_block x opts) limit repeat miss q.piggy_mapping_queue
        ++ newest_first x.size x.data_block limit repeat miss q.piggy_data_queue)
      ++ newest_first x.size (repair_block x opts) limit again miss q.repair_request_queue

  pack_queues-Extends :
      (c : Composite Block) (q : ExtraQueues Component Data Block)
      → Extends x.size opts.max_application_parameters_size
          (candidates q)
          c
          (pack_queues x opts c q).0
  unfolding pack_queues
  pack_queues-Extends c q =
      let limit = opts.max_application_parameters_size in
      let repeat = opts.piggyback_repeat_count in
      let miss = opts.piggyback_miss_limit in
      let again = opts.repair_request_repeat_count in
      let a = pack_queue x.size (mapping_block x opts) limit repeat miss q.piggy_mapping_queue c in
      let b = pack_queue x.size x.data_block limit repeat miss q.piggy_data_queue a.composite in
      let d =
        pack_queue x.size (repair_block x opts) limit again miss q.repair_request_queue
          b.composite in
      Extends-trans x.size limit _ _ c b.composite d.composite
        (Extends-trans x.size limit _ _ c a.composite b.composite
          (pack_queue-Extends x.size (mapping_block x opts) limit repeat miss q.piggy_mapping_queue
            c)
          (pack_queue-Extends x.size x.data_block limit repeat miss q.piggy_data_queue a.composite))
        (pack_queue-Extends x.size (repair_block x opts) limit again miss q.repair_request_queue
          b.composite)

  -- the blocks that the encoded list of mappings begins with
  abbrev pub list_children : MappingList Component Block → List Block
  list_children m =
      x.tlv.name_block m.node_id ∷ prepend_each (Codec.encode_entry x.tlv v3) m.pairs []

  elements-encode :
      (m : MappingList Component Block)
      → x.tlv.elements (encode_mappings x opts m) ≡ ok (list_children m)
  unfolding encode
  elements-encode m = laws.tlv_laws.elements-make Kind.mapping_data (list_children m)

  -- the composite block that the queues are packed behind
  abbrev pub composite_of : MappingList Component Block → Composite Block
  composite_of m = record { children = list_children m; size = x.size (encode_mappings x opts m) }

  on_get_extra_data-step :
      (q : ExtraQueues Component Data Block)
      → let packed =
          pack_queues x opts
            (composite_of (included_mappings x opts q.notification_mapping_list))
            q in
        on_get_extra_data x opts q ≡ (ok (x.tlv.make Kind.mapping_data packed.0.children), packed.1)
  unfolding on_get_extra_data
  on_get_extra_data-step q =
      rw (elements-encode (included_mappings x opts q.notification_mapping_list)) refl

  -- what goes out
  abbrev pub IsPacked : ExtraQueues Component Data Block → Result Block → Type 0
  IsPacked q r =
      let list = q.notification_mapping_list in
      let limit = opts.max_application_parameters_size in
      (pairs : List (MappingEntry Component Block)) × (more : List Block) × (r
        ≡ ok (
            x.tlv.make Kind.mapping_data
              (list_children (record { node_id = list.node_id; pairs = pairs }) ++ more)))
      × IsIncluded x opts list pairs
      × Greedy x.size limit (size_of_list x opts list.node_id pairs) (candidates q) more
      × ((more ≡ []) ⊎ (size_of_list x opts list.node_id pairs + total_size x.size more ≤ limit))

  -- `onGetExtraData` returns a block for any queues. It begins with the notification list's node and
  -- those of its mappings with which, one after the other, the encoded list stays within the limit
  -- (none, if the list has no node). Behind it stand those blocks of the queues of mappings, packets
  -- and repair requests, in this order and of each the newest first, whose size fits within the
  -- limit, added to the size of the encoded list and of the blocks taken before, and no others. With
  -- a block taken, these sizes add up to no more than the limit; the composite block's own header,
  -- which may grow, is not counted, so the block itself may exceed the limit by this growth.
  pub on_get_extra_data-IsPacked :
      (q : ExtraQueues Component Data Block) → IsPacked q (on_get_extra_data x opts q).0
  on_get_extra_data-IsPacked q =
      let given = q.notification_mapping_list in
      let list = included_mappings x opts given in
      let limit = opts.max_application_parameters_size in
      let e = pack_queues-Extends (composite_of list) q in
      let i = included_mappings-IsIncluded x opts given.node_id given.pairs in
      let named : list ≡ record { node_id = given.node_id; pairs = list.pairs } =
        ap (λ n. record { node_id = n; pairs = list.pairs }) i.0 in
      let greedy =
        subst (λ m. Greedy x.size limit (x.size (encode_mappings x opts m)) (candidates q) e.0)
          named e.3 in
      (
        list.pairs,
        e.0,
        ap (λ r. r.0) (on_get_extra_data-step q)
            ∙ ap (λ c. ok (x.tlv.make Kind.mapping_data c)) e.1
            ∙ ap (λ m. ok (x.tlv.make Kind.mapping_data (list_children m ++ e.0))) named,
        i.1,
        greedy,
        Greedy-fits x.size limit (size_of_list x opts given.node_id list.pairs) (candidates q) e.0
            greedy,
      )

  -- a number of Sync Interests, while nothing is added
  unfoldable pub rounds : ℕ → ExtraQueues Component Data Block → ExtraQueues Component Data Block
  rounds zero q = q
  rounds (suc n) q = (on_get_extra_data x opts (rounds n q)).1

  abbrev Leftovers : ℕ → ExtraQueues Component Data Block → Type 0
  Leftovers n q =
      LeftOver x.size (mapping_block x opts) opts.max_application_parameters_size
        opts.piggyback_repeat_count opts.piggyback_miss_limit n q.piggy_mapping_queue
      × LeftOver x.size x.data_block opts.max_application_parameters_size
          opts.piggyback_repeat_count opts.piggyback_miss_limit n q.piggy_data_queue
      × LeftOver x.size (repair_block x opts) opts.max_application_parameters_size
          opts.repair_request_repeat_count opts.piggyback_miss_limit n q.repair_request_queue

  pack_queues-Leftovers :
      (n : ℕ) (c : Composite Block) (q : ExtraQueues Component Data Block)
      → Leftovers n q
      → Leftovers (suc n) (pack_queues x opts c q).1
  unfolding pack_queues
  pack_queues-Leftovers n c q l =
      let limit = opts.max_application_parameters_size in
      let repeat = opts.piggyback_repeat_count in
      let miss = opts.piggyback_miss_limit in
      let again = opts.repair_request_repeat_count in
      let a = pack_queue x.size (mapping_block x opts) limit repeat miss q.piggy_mapping_queue c in
      let b = pack_queue x.size x.data_block limit repeat miss q.piggy_data_queue a.composite in
      (
        pack_queue-LeftOver x.size (mapping_block x opts) limit repeat miss n q.piggy_mapping_queue
            c l.0,
        pack_queue-LeftOver x.size x.data_block limit repeat miss n q.piggy_data_queue a.composite
            l.1,
        pack_queue-LeftOver x.size (repair_block x opts) limit again miss n q.repair_request_queue
            b.composite l.2,
      )

  rounds-Leftovers : (n : ℕ) (q : ExtraQueues Component Data Block) → Leftovers n (rounds n q)
  unfolding rounds
  rounds-Leftovers zero q =
      let limit = opts.max_application_parameters_size in
      let repeat = opts.piggyback_repeat_count in
      let miss = opts.piggyback_miss_limit in
      let again = opts.repair_request_repeat_count in
      (
        all_have_chances x.size (mapping_block x opts) limit repeat miss q.piggy_mapping_queue,
        all_have_chances x.size x.data_block limit repeat miss q.piggy_data_queue,
        all_have_chances x.size (repair_block x opts) limit again miss q.repair_request_queue,
      )
  rounds-Leftovers (suc n) q =
      let r = rounds n q in
      let c = composite_of (included_mappings x opts r.notification_mapping_list) in
      subst (Leftovers (suc n)) (sym (ap (λ p. p.1) (on_get_extra_data-step r)))
        (pack_queues-Leftovers n c r (rounds-Leftovers n q))

  -- Nothing is repeated for ever: after more Sync Interests than the repeat count and the miss
  -- limit together, while nothing is added, the queues of mappings, packets and repair requests are
  -- empty, whatever fitted.
  pub rounds_empty :
      (n : ℕ) (q : ExtraQueues Component Data Block)
      → opts.piggyback_repeat_count + opts.piggyback_miss_limit < n
      → opts.repair_request_repeat_count + opts.piggyback_miss_limit < n
      → let r = rounds n q in
        (r.piggy_mapping_queue ≡ []) × (r.piggy_data_queue ≡ []) × (r.repair_request_queue ≡ [])
  rounds_empty n q h k =
      let limit = opts.max_application_parameters_size in
      let repeat = opts.piggyback_repeat_count in
      let miss = opts.piggyback_miss_limit in
      let again = opts.repair_request_repeat_count in
      let l = rounds-Leftovers n q in
      let r = rounds n q in
      (
        LeftOver-empty x.size (mapping_block x opts) limit repeat miss n r.piggy_mapping_queue h
            l.0,
        LeftOver-empty x.size x.data_block limit repeat miss n r.piggy_data_queue h l.1,
        LeftOver-empty x.size (repair_block x opts) limit again miss n r.repair_request_queue k l.2,
      )
