-- ===== src/PubSub/Stuck.antt =====
-- Runs of a node whose next number to commit has no publication.
use ndn_svs.Base.{
  ℕ, Bool-cases, inl, inr, suc, ◌+◌, ◌≤◌, ◌<◌, ◌≡◌, ◌⊎◌, refl, sym, subst, ap, ◌∙◌, arith, true,
  false, ◌&&◌, Option, none, some, List, [], ◌∷◌, All, All-append, length, Ord, nat_ord, ◌==◌,
  ==_iff, ==_self, ok, Ensures, Ensures-any, Ensures-ok, Ensures-if,
}
use ndn_svs.Base.OrdMap.{OrdMap, find, insert, IsSorted, or_default}
use ndn_svs.Base.OrdMap.Laws.{find-insert}
use ndn_svs.Base.Action.{Action, ◌>>=◌, ◌>>◌, return, Keeps, Keeps-bind, Keeps-lift, modify}
use ndn_svs.Packets.{wire_size}
use ndn_svs.PubSub.Segments.{is_final_packet_size_allowed, prepare_segmented_packets}
use ndn_svs.PubSub.State.{AsyncPublication, Env, Kind, bytes, name_only, packet}
use ndn_svs.PubSub.Prepare.{
  prepare, prepare_reserved_bytes, prepare_reserved_packet, prepare_reserved_name_only, data_name,
}
use ndn_svs.PubSub.Publish.{
  node_of, async_publication, staged, store_packets, stage_prepared, update_core, State, Prepared,
  Out, raised, reserve, reserve_seq_no, publish_name, publish_async,
  prepare_and_stage_async_publication,
}
use ndn_svs.SyncBase.{on_part}
use ndn_svs.PubSub.Commit.{
  commit_ready_prepared_publications, on_prepared_publication, on_commit_retry,
}
use ndn_svs.PubSub.Nested.{find_two}
use ndn_svs.PubSub.Stalled.{
  IsStalled, IsOther, IsStalled-reserved, on_prepared_publication-IsStalled,
  on_commit_retry-IsStalled, commit_rounds_of_stalled,
}

greater : (n k : ℕ) → n < k → (k == n) ≡ false
greater n k h = ground arith

module _ {Component Data Interest Block S : Type 0} ⦃o : Ord (List Component)⦄
    (env : Env Component Data Interest Block S) where
  -- the prepared publication is of the node and the number that were asked for
  abbrev IsFor : AsyncPublication Component Data Block → Prepared env → Type 0
  IsFor p r = (r.node_prefix ≡ p.node_prefix) × (r.seq_no ≡ p.seq_no)

  prepare-IsFor :
      (s : State env) (p : AsyncPublication Component Data Block) (kind : Kind Data)
      → Ensures (IsFor p) (prepare env s p kind)
  unfolding prepare prepare_reserved_bytes prepare_reserved_packet prepare_reserved_name_only
  prepare-IsFor s p (bytes value) = Ensures-any (IsFor p) (env.packets.sign _) _ λ inner.
      Ensures-any (IsFor p) (env.packets.sign _) _ λ outer.
        Ensures-if (IsFor p)
          (is_final_packet_size_allowed env.packets env.markers (wire_size env.packets outer)) _ _
          (λ small. (refl, refl))
          (λ large.
            Ensures-any (IsFor p)
              (prepare_segmented_packets env.packets env.markers (record {
                name = p.name;
                outer_name = data_name env s p.node_prefix p.bootstrap_time p.seq_no;
                freshness_period = p.freshness_period;
                value = value;
              }))
              (λ x. ok (record (prepare_reserved_name_only env p) { outer_packets = x }))
              (λ packets. (refl, refl)))
  prepare-IsFor s p name_only = (refl, refl)
  prepare-IsFor s p (packet x) = Ensures-any (IsFor p) (env.packets.sign _) _ λ outer. (refl, refl)

  -- what happens to the publications of a node: `publishAsync`, `publish` of a name, a handler from
  -- the io context, a timer of a retry, and whatever else changes the core, the store or the queues
  pub data Event : Type 0 where
    async : Kind Data → List Component → List Component → ℕ → List Block → Event
    named : List Component → List Component → List Block → Event
    handler : Event
    timer : List Component → ℕ → Event
    outside : Out env → Event

  abbrev pub run_handler : List (Prepared env) → State env → State env
  run_handler [] s = s
  run_handler (p ∷ ps) s = on_prepared_publication env p (record s { posted = ps })

  unfoldable pub handle : Event → State env → State env
  handle (async kind name prefix freshness blocks) s =
      (publish_async env kind name prefix freshness blocks s).1
  handle (named name prefix blocks) s = (publish_name env name prefix blocks s).1
  handle handler s = run_handler s.posted s
  handle (timer q k) s = on_commit_retry env q k s
  handle (outside x) s = record s { outputs = x }

  unfoldable pub run : List Event → State env → State env
  unfolding handle
  run [] s = s
  run (e ∷ es) s = run es (handle e s)

  module _ (nid : List Component) (n : ℕ) where
    abbrev Stalls : {A : Type 0} → Action (State env) A → Type 0
    Stalls m = Keeps (IsStalled env nid n) m

    next_of_reserve :
        (q : List Component) (v : ℕ) (m : OrdMap (List Component) ℕ)
        → find nid m ≡ some n
        → (e : Option ℕ) → find q m ≡ e
        → find nid (elim e [ none ↦ insert q v m | some k ↦ m ]) ≡ some n
    next_of_reserve q v m h none e = elim (Bool-cases (nid == q)) [
      | inl same ↦ cc ((==_iff nid q).0 same, h, e)
      | inr other ↦ find-insert q nid v m ∙ rw (other) h
    ]
    next_of_reserve q v m h (some k) e = h

    enough :
        (q : List Component) (s : State env)
        → IsStalled env nid n s
        → (q == nid) ≡ true
        → n ≤ raised env s q
    enough q s i same =
        let e : or_default 0 (find nid s.reserved_seq_no)
            ≡ or_default 0 (find q s.reserved_seq_no) =
          ap (λ q. or_default 0 (find q s.reserved_seq_no)) (sym ((==_iff q nid).0 same)) in
        omega (arith, i.given, e)

    reserve-IsStalled :
        (q : List Component) (s t : State env)
        → IsStalled env nid n s
        → IsStalled env nid n t
        → IsStalled env nid n (reserve env q (raised env s q + 1) t)
    reserve-IsStalled q s t i j = record {
      next =
          next_of_reserve q (raised env s q + 1) t.next_async_commit_seq j.next
            (find q t.next_async_commit_seq) refl;
      missing = j.missing;
      given =
          IsStalled-reserved env nid n q (raised env s q + 1) t.reserved_seq_no
            (λ same. omega (arith, enough q s i same)) j.given;
      sorted = j.sorted;
      others = j.others;
    }

    outputs-IsStalled :
        (s : State env) (x : Out env)
        → IsStalled env nid n s
        → IsStalled env nid n (record s { outputs = x })
    outputs-IsStalled s x i = record {
      next = i.next;
      missing = i.missing;
      given = i.given;
      sorted = i.sorted;
      others = i.others;
    }

    -- a method of the outputs, and what follows it
    then-IsStalled :
        {A B : Type 0} (m : Action (Out env) A) (f : A → Action (State env) B)
        → ((a : A) → Stalls (f a))
        → Stalls (on_part (λ s. s.outputs) (λ x s. record s { outputs = x }) m >>= f)
    then-IsStalled m f h =
        Keeps-bind (IsStalled env nid n)
          (on_part (λ s. s.outputs) (λ x s. record s { outputs = x }) m) f
          (λ s i. outputs-IsStalled s (m s.outputs).1 i) h

    publish_name-IsStalled :
        (name node_prefix : List Component) (blocks : List Block)
        → Stalls (publish_name env name node_prefix blocks)
    unfolding publish_name reserve_seq_no
    publish_name-IsStalled name prefix blocks s i =
        let q = node_of env s prefix in
        then-IsStalled (update_core env (raised env s q + 1) q) (λ u. return (raised env s q + 1))
          (λ u s i. i) _
          (outputs-IsStalled (reserve env q (raised env s q + 1) s) _ (reserve-IsStalled q s s i i))

    store_packets-IsStalled : (packets : List Data) → Stalls (store_packets env packets)
    store_packets-IsStalled [] s i = i
    store_packets-IsStalled (x ∷ xs) s i = outputs-IsStalled s _ i

    other_number :
        (q : List Component) (s : State env) (p : Prepared env)
        → p.node_prefix ≡ q
        → p.seq_no ≡ raised env s q + 1
        → IsStalled env nid n s
        → ((p.node_prefix == nid) && (p.seq_no == n)) ≡ false
    other_number q s p f g i = elim (Bool-cases (q == nid)) [
      | inl same ↦
          let a : (p.seq_no == n) ≡ false =
            greater n p.seq_no (omega (arith, g, enough q s i same)) in
          ground (arith, a)
      | inr other ↦ rw (f, other) refl
    ]

    staged-IsStalled :
        (q : List Component) (s t : State env) (prepared : Prepared env)
        → prepared.node_prefix ≡ q
        → prepared.seq_no ≡ raised env s q + 1
        → IsStalled env nid n s
        → IsStalled env nid n t
        → IsStalled env nid n (staged env q (raised env s q + 1) prepared t)
    staged-IsStalled q s t prepared f g i j =
        let k = reserve-IsStalled q s t i j in
        record {
          next = k.next;
          missing = k.missing;
          given = k.given;
          sorted = k.sorted;
          others =
              All-append (IsOther env nid n) t.posted _ k.others
                (other_number q s prepared f g i, tt);
        }

    stage-IsStalled :
        (p : AsyncPublication Component Data Block)
        → Stalls (prepare_and_stage_async_publication env p)
    unfolding prepare_and_stage_async_publication stage_prepared
    stage-IsStalled p s i =
        let q = p.node_prefix in
        let r = raised env s q in
        let numbered : AsyncPublication Component Data Block = record p {
          seq_no = r + 1;
          bootstrap_time = s.outputs.base.core.bootstrap_time;
        } in
        Keeps-lift (IsStalled env nid n) (prepare env s numbered p.kind)
          (λ prepared. stage_prepared env q (r + 1) prepared)
          (λ prepared e.
            let f =
              Ensures-ok (IsFor numbered) (prepare env s numbered p.kind) prepared
                (prepare-IsFor s numbered p.kind) e in
            Keeps-bind (IsStalled env nid n) (store_packets env prepared.outer_packets)
              (λ u. modify (staged env q (r + 1) prepared) >> return (r + 1))
              (store_packets-IsStalled prepared.outer_packets)
              (λ u t j. staged-IsStalled q s t prepared f.0 f.1 i j))
          (record s { reserved_seq_no = insert q r s.reserved_seq_no })
          (record {
            next = i.next;
            missing = i.missing;
            given = IsStalled-reserved env nid n q r s.reserved_seq_no (enough q s i) i.given;
            sorted = i.sorted;
            others = i.others;
          })

    handler-IsStalled :
        (ps : List (Prepared env)) (s : State env)
        → ps ≡ s.posted
        → IsStalled env nid n s
        → IsStalled env nid n (run_handler ps s)
    handler-IsStalled [] s e i = i
    handler-IsStalled (p ∷ ps) s e i =
        let others : All (IsOther env nid n) (p ∷ ps) =
          subst (All (IsOther env nid n)) (sym e) i.others in
        on_prepared_publication-IsStalled env nid n p (record s { posted = ps }) others.0
          (record {
            next = i.next;
            missing = i.missing;
            given = i.given;
            sorted = i.sorted;
            others = others.1;
          })

    handle-IsStalled :
        (e : Event) (s : State env) → IsStalled env nid n s → IsStalled env nid n (handle e s)
    unfolding handle publish_async
    handle-IsStalled (async kind name prefix freshness blocks) s i =
        stage-IsStalled (async_publication env kind name prefix freshness blocks s) s i
    handle-IsStalled (named name prefix blocks) s i = publish_name-IsStalled name prefix blocks s i
    handle-IsStalled handler s i = handler-IsStalled s.posted s refl i
    handle-IsStalled (timer q k) s i = on_commit_retry-IsStalled env nid n q k s i
    handle-IsStalled (outside x) s i = outputs-IsStalled s x i

    run-IsStalled :
        (es : List Event) (s : State env) → IsStalled env nid n s → IsStalled env nid n (run es s)
    unfolding run
    run-IsStalled [] s i = i
    run-IsStalled (e ∷ es) s i = run-IsStalled es (handle e s) (handle-IsStalled e s i)

    -- a node with no asynchronous publication, or whose asynchronous publications are all committed
    pub record IsIdle (s : State env) : Type 0 where
      pub due_number :
          (find nid s.next_async_commit_seq ≡ none) ⊎ (find nid s.next_async_commit_seq ≡ some n)
      pub number : raised env s nid + 1 ≡ n
      pub missing : find_two nid n s.prepared_publications ≡ none
      pub sorted : IsSorted s.prepared_publications
      pub others : All (IsOther env nid n) s.posted

    next_given :
        (m : OrdMap (List Component) ℕ)
        → (find nid m ≡ none) ⊎ (find nid m ≡ some n)
        → find nid (elim (find nid m) [ none ↦ insert nid n m | some k ↦ m ]) ≡ some n
    next_given m (inl h) = rw (h) (find-insert nid nid n m ∙ rw (==_self nid) refl)
    next_given m (inr h) = rw (h) h

    reserve_next-IsStalled : (s : State env) → IsIdle s → IsStalled env nid n (reserve env nid n s)
    reserve_next-IsStalled s i =
        let e : find nid (insert nid n s.reserved_seq_no) ≡ some n =
          find-insert nid nid n s.reserved_seq_no ∙ rw (==_self nid) refl in
        record {
          next = next_given s.next_async_commit_seq i.due_number;
          missing = i.missing;
          given = subst (λ v. n ≤ or_default 0 v) (sym e) (omega arith);
          sorted = i.sorted;
          others = i.others;
        }

    named-IsStalled :
        (name : List Component) (prefix : List Component) (blocks : List Block) (s : State env)
        → node_of env s prefix ≡ nid
        → IsIdle s
        → IsStalled env nid n (publish_name env name prefix blocks s).1
    unfolding publish_name reserve_seq_no
    named-IsStalled name prefix blocks s q i =
        let q' = node_of env s prefix in
        let r = raised env s q' + 1 in
        then-IsStalled (update_core env r q') (λ u. return r) (λ u s i. i) _
          (outputs-IsStalled (reserve env q' r s) _ (
            subst (λ x. IsStalled env nid n (reserve env x (raised env s x + 1) s)) (sym q)
              (subst (λ k. IsStalled env nid n (reserve env nid k s)) (sym i.number)
                (reserve_next-IsStalled s i))))

    -- After `publish` of a name by an idle node, no asynchronous publication of the node is ever
    -- committed: the number it was given stays the next to commit, and after any run of further
    -- publications, handlers, retries and changes elsewhere the commit loop of the node does
    -- nothing. `publish` of bytes, which sets the next number, is not among the events.
    pub publish_name_stalls :
        (name : List Component) (prefix : List Component) (blocks : List Block)
        (events : List Event) (s : State env)
        → node_of env s prefix ≡ nid
        → IsIdle s
        → let t = run events (publish_name env name prefix blocks s).1 in
          (find nid t.next_async_commit_seq ≡ some n)
          × (commit_ready_prepared_publications env nid t ≡ t)
    unfolding commit_ready_prepared_publications
    publish_name_stalls name prefix blocks events s q i =
        let t = run events (publish_name env name prefix blocks s).1 in
        let j =
          run-IsStalled events (publish_name env name prefix blocks s).1
            (named-IsStalled name prefix blocks s q i) in
        (
          j.next,
          commit_rounds_of_stalled env nid n
              (suc (length (or_default [] (find nid t.prepared_publications)))) t j,
        )
