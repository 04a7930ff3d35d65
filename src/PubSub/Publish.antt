-- ===== src/PubSub/Publish.antt =====
-- Publications of `SVSPubSub`: numbers are reserved, packets are staged, and the handler on the Face
-- thread commits them in the order of their numbers.
--
-- The hooks for tests are not set, and adding to the queues and the provider does not throw, so the
-- rollback behind them is not reached.
use ndn_svs.Base.{
  ℕ, ◌+◌, Bool, true, not, ◌||◌, Option, none, some, List, [], ◌∷◌, ◌++◌, is_empty, max, Ord,
  nat_ord, ◌==◌, if◌then◌else◌, Error, throw_if,
}
use ndn_svs.Base.OrdMap.{OrdMap, find, insert, erase, or_default}
use ndn_svs.Base.Action.{Action, ◌>>=◌, ◌>>◌, done, return, lift, gets, modify}
use ndn_svs.Mapping.{MappingEntry, MappingEntryPair, insert_mapping}
use ndn_svs.Core.State.{get_seq_no}
use ndn_svs.Core.Publish.{update_own_seq_no}
use ndn_svs.SyncBase.{
  SyncBase, on_part, on_store, on_core, node_option, insert_prepared_data_batch, insert_data_at_seq,
  put_prepared_data,
}
use ndn_svs.PubSub.State.{
  fresh_piggy, AsyncPublication, PreparedPublication, Outputs, PubSub, Env, Kind, bytes, packet,
}
use ndn_svs.PubSub.Prepare.{data_name, prepare, prepare_reserved_bytes}

-- `m[nid][seq] = v`
unfoldable pub insert_two {ℓ} :
    {K V : Type ℓ} ⦃o : Ord K⦄ → K → ℕ → V → OrdMap K (OrdMap ℕ V) → OrdMap K (OrdMap ℕ V)
insert_two nid seq v m = insert nid (insert seq v (or_default [] (find nid m))) m

-- the entry of a number is erased, and the node with its last one
unfoldable pub erase_two {ℓ} :
    {K V : Type ℓ} ⦃o : Ord K⦄ → K → ℕ → OrdMap ℕ V → OrdMap K (OrdMap ℕ V) → OrdMap K (OrdMap ℕ V)
erase_two nid seq entries m =
    let left = erase seq entries in if is_empty left then erase nid m else insert nid left m

module _ {Component Data Interest Block S : Type 0} ⦃o : Ord (List Component)⦄
    (env : Env Component Data Interest Block S) where
  abbrev pub State : Type 0
  State = PubSub Component Data Interest Block S

  abbrev pub Prepared : Type 0
  Prepared = PreparedPublication Component Data Block

  abbrev pub Out : Type 0
  Out = Outputs Component Data Interest Block S

  -- a method of the synchronization object, or of its store or core
  abbrev pub on_base :
      {A : Type 0} → Action (SyncBase Component Data Interest Block S) A → Action Out A
  on_base = on_part (λ x. x.base) (λ b x. record x { base = b })

  abbrev pub update_core : ℕ → List Component → Action Out (Unit {0})
  update_core seq nid =
      on_base (on_core (update_own_seq_no env.wire env.draws seq (node_option nid)))

  abbrev pub core_seq_no : State → List Component → ℕ
  core_seq_no s nid = get_seq_no s.outputs.base.core (node_option nid)

  unfoldable pub insert_publication_mapping :
      Bool → List Component → ℕ → ℕ → List Component → List Block → Out → Out
  insert_publication_mapping use_timestamp nid bootstrap_time seq name additional x =
      let entry : MappingEntryPair Component Block = record {
        name = name;
        blocks = if use_timestamp then additional ++ env.timestamp_block ∷ [] else additional;
      } in
      let list = x.queues.notification_mapping_list in
      let numbered : MappingEntry Component Block = record {
        bootstrap_time = bootstrap_time;
        seq_no = seq;
        mapping = entry;
      } in
      record x {
        queues = record x.queues {
          notification_mapping_list =
              if is_empty list.node_id || (list.node_id == nid)
              then record { node_id = nid; pairs = list.pairs ++ numbered ∷ [] }
              else list;
          piggy_mapping_queue =
              x.queues.piggy_mapping_queue
              ++ fresh_piggy (record { node_id = nid; mapping = numbered }) ∷ [];
        };
        provider = insert_mapping env.components nid bootstrap_time seq entry x.provider;
      }

  abbrev push_piggy : Option Data → Out → Out
  push_piggy none x = x
  push_piggy (some d) x = record x {
    queues = record x.queues { piggy_data_queue = x.queues.piggy_data_queue ++ fresh_piggy d ∷ [] };
  }

  abbrev put_first : Bool → List Data → Action Out (Unit {0})
  put_first true (d ∷ ds) = on_base (put_prepared_data env.store d)
  put_first _ _ = done

  -- The publication is passed by reference: that it is stored is kept when a later step throws.
  unfoldable pub commit_prepared_publication : Bool → Action (Out × Prepared) (Unit {0})
  unfolding insert_publication_mapping insert_prepared_data_batch put_prepared_data
  commit_prepared_publication use_timestamp = do
    p ← gets (λ x. x.1)
    lift (throw_if (not p.ok) Error.runtime_error)
    (if p.stored
        then done
        else (on_part (λ x. x.0) (λ out x. (out, x.1))
              (on_base
                (on_store (insert_prepared_data_batch env.packets env.store p.outer_packets)))
            >> modify (λ x. (x.0, record x.1 { stored = not (is_empty p.outer_packets) }))))
    modify λ x. (
      push_piggy p.piggy_packet (
          insert_publication_mapping use_timestamp p.node_prefix p.bootstrap_time p.seq_no
            p.mapping_name p.mapping_blocks x.0),
      x.1,
    )
    on_part (λ x. x.0) (λ out x. (out, x.1)) (put_first p.put_first_packet_to_face p.outer_packets)

  -- `m_data_prefix` where no node is given
  abbrev pub node_of : State → List Component → List Component
  node_of s [] = s.data_prefix
  node_of s (x ∷ xs) = x ∷ xs

  abbrev on_outputs : {A : Type 0} → Action Out A → Action State A
  on_outputs = on_part (λ s. s.outputs) (λ x s. record s { outputs = x })

  -- the number in `m_reservedSeqNo`, raised to the core's
  abbrev pub raised : State → List Component → ℕ
  raised s nid = max (or_default 0 (find nid s.reserved_seq_no)) (core_seq_no s nid)

  -- The node's next number to commit is set with its first reservation only.
  abbrev pub reserve : List Component → ℕ → State → State
  reserve nid seq s = record s {
    reserved_seq_no = insert nid seq s.reserved_seq_no;
    next_async_commit_seq = elim (find nid s.next_async_commit_seq) [
      | none ↦ insert nid seq s.next_async_commit_seq
      | some n ↦ s.next_async_commit_seq
    ];
  }

  unfoldable pub reserve_seq_no : List Component → Action State ℕ
  reserve_seq_no nid = do
    s ← gets (λ s. s)
    let seq = raised s nid + 1
    modify (reserve nid seq)
    return seq

  -- `publish` of a name
  unfoldable pub publish_name : List Component → List Component → List Block → Action State ℕ
  unfolding reserve_seq_no insert_publication_mapping
  publish_name name node_prefix mapping_blocks = do
    s ← gets (λ s. s)
    let nid = node_of s node_prefix
    seq ← reserve_seq_no nid
    modify λ t. record t {
      outputs =
          insert_publication_mapping s.use_timestamp nid s.outputs.base.core.bootstrap_time seq name
            mapping_blocks t.outputs;
    }
    on_outputs (update_core seq nid)
    return seq

  unfoldable pub publish_packet : Data → List Component → List Block → Action State ℕ
  unfolding reserve_seq_no insert_publication_mapping insert_data_at_seq
  publish_packet x node_prefix mapping_blocks = do
    s ← gets (λ s. s)
    let nid = node_of s node_prefix
    let f = env.packets.fields x
    seq ← reserve_seq_no nid
    on_outputs (
        on_base (
          insert_data_at_seq env.packets env.store env.wire env.draws (data_name env s)
            (env.packets.wire_encode x) f.freshness_period nid seq 6))
    modify λ t. record t {
      outputs =
          insert_publication_mapping s.use_timestamp nid s.outputs.base.core.bootstrap_time seq
            f.name mapping_blocks t.outputs;
    }
    on_outputs (update_core seq nid)
    return seq

  -- the steps of a commit and the announcement of its number
  abbrev pub commit_and_announce : Bool → ℕ → List Component → Action (Out × Prepared) (Unit {0})
  commit_and_announce use_timestamp seq nid = do
    commit_prepared_publication use_timestamp
    on_part (λ x. x.0) (λ out x. (out, x.1)) (update_core seq nid)

  -- `publish` of bytes
  unfoldable pub publish_bytes :
      List Component → List ℕ → List Component → ℕ → List Block → Action State ℕ
  unfolding prepare_reserved_bytes commit_prepared_publication
  publish_bytes name value node_prefix freshness mapping_blocks = do
    s ← gets (λ s. s)
    let nid = node_of s node_prefix
    modify λ t. record t {
      reserved_seq_no = insert nid (or_default 0 (find nid s.reserved_seq_no)) t.reserved_seq_no;
    }
    let seq = raised s nid + 1
    prepared ← lift (
        prepare_reserved_bytes env s
          (record {
            kind = bytes value;
            bootstrap_time = s.outputs.base.core.bootstrap_time;
            seq_no = seq;
            name = name;
            node_prefix = nid;
            freshness_period = freshness;
            mapping_blocks = mapping_blocks;
          })
          value)
    on_outputs
        λ x. let r = commit_and_announce s.use_timestamp seq nid (x, prepared) in (r.0, r.1.0)
    modify λ t. record t {
      reserved_seq_no = insert nid seq t.reserved_seq_no;
      next_async_commit_seq = insert nid (seq + 1) t.next_async_commit_seq;
    }
    return seq

  -- the number is taken, and the handler is posted
  abbrev pub staged : List Component → ℕ → Prepared → State → State
  staged nid seq prepared s = record (reserve nid seq s) {
    staged_publication_packets =
        insert_two nid seq prepared.outer_packets s.staged_publication_packets;
    posted = s.posted ++ record prepared { stored = not (is_empty prepared.outer_packets) } ∷ [];
  }

  abbrev pub store_packets : List Data → Action State (Unit {0})
  store_packets packets =
      if is_empty packets
      then done
      else on_outputs
          (on_base (on_store (insert_prepared_data_batch env.packets env.store packets)))

  unfoldable pub stage_prepared : List Component → ℕ → Prepared → Action State ℕ
  unfolding insert_prepared_data_batch
  stage_prepared nid seq prepared = do
    store_packets prepared.outer_packets
    modify (staged nid seq prepared)
    return seq

  -- Everything that may throw comes before the number is taken, but for the raise to the core's.
  unfoldable pub prepare_and_stage_async_publication :
      AsyncPublication Component Data Block → Action State ℕ
  unfolding prepare stage_prepared
  prepare_and_stage_async_publication publication = do
    s ← gets (λ s. s)
    let nid = publication.node_prefix
    let reserved = raised s nid
    modify λ t. record t { reserved_seq_no = insert nid reserved t.reserved_seq_no }
    prepared ← lift (
        prepare env s
          (record publication {
            seq_no = reserved + 1;
            bootstrap_time = s.outputs.base.core.bootstrap_time;
          })
          publication.kind)
    stage_prepared nid (reserved + 1) prepared

  abbrev pub async_publication :
      Kind Data
      → List Component
      → List Component
      → ℕ
      → List Block
      → State
      → AsyncPublication Component Data Block
  async_publication kind name node_prefix freshness mapping_blocks s = record {
    kind = kind;
    bootstrap_time = 0;
    seq_no = 0;
    name = elim kind [ packet x ↦ (env.packets.fields x).name | _ ↦ name ];
    node_prefix = node_of s node_prefix;
    freshness_period = elim kind [
      | packet x ↦ (env.packets.fields x).freshness_period
      | _ ↦ freshness
    ];
    mapping_blocks = mapping_blocks;
  }

  -- `publishAsync` and `publishPacketAsync`
  unfoldable pub publish_async :
      Kind Data → List Component → List Component → ℕ → List Block → Action State ℕ
  unfolding prepare_and_stage_async_publication
  publish_async kind name node_prefix freshness mapping_blocks = do
    s ← gets (λ s. s)
    prepare_and_stage_async_publication
        (async_publication kind name node_prefix freshness mapping_blocks s)
