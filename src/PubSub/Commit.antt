-- ===== src/PubSub/Commit.antt =====
-- The handler that commits prepared publications on the Face thread, and its retries.
use ndn_svs.Base.{
  ℕ, zero, suc, ◌+◌, ◌-◌, ◌*◌, ◌^◌, Bool, true, false, Option, none, some, List, [], ◌∷◌, ◌++◌,
  length, min, max, Ord, nat_ord, ◌==◌, if◌then◌else◌, Result, ok, err,
}
use ndn_svs.Base.OrdMap.{OrdMap, find, insert, or_default}
use ndn_svs.PubSub.State.{Env}
use ndn_svs.PubSub.Publish.{
  insert_two, erase_two, commit_prepared_publication, commit_and_announce, State, Prepared, Out,
}

module _ {Component Data Interest Block S : Type 0} ⦃o : Ord (List Component)⦄
    (env : Env Component Data Interest Block S) where
  -- the entries of a node, with the publication that is due: the one with the node's next number,
  -- unless its retry is scheduled
  abbrev pub due_of :
      ℕ
      → OrdMap ℕ (Prepared env)
      → Option (Prepared env)
      → Option (ℕ × OrdMap ℕ (Prepared env) × Prepared env)
  due_of n entries none = none
  due_of n entries (some p) = if p.retry_scheduled then none else some (n, entries, p)

  abbrev pub due_in :
      ℕ → Option (OrdMap ℕ (Prepared env)) → Option (ℕ × OrdMap ℕ (Prepared env) × Prepared env)
  due_in n none = none
  due_in n (some entries) = due_of n entries (find n entries)

  abbrev pub due_at :
      Option ℕ
      → Option (OrdMap ℕ (Prepared env))
      → Option (ℕ × OrdMap ℕ (Prepared env) × Prepared env)
  due_at none entries = none
  due_at (some n) entries = due_in n entries

  unfoldable pub due :
      List Component → State env → Option (ℕ × OrdMap ℕ (Prepared env) × Prepared env)
  due nid s = due_at (find nid s.next_async_commit_seq) (find nid s.prepared_publications)

  unfoldable pub retry_delay : ℕ → ℕ → ℕ → ℕ
  retry_delay attempts initial maximum = max 1 (min maximum (initial * 2 ^ min (attempts - 1) 10))

  abbrev pub add_retry : List Component → ℕ → Option (Prepared env) → State env → State env
  add_retry nid seq none s = s
  add_retry nid seq (some p) s = record s {
    retries =
        s.retries
        ++ ((
          retry_delay p.commit_attempts s.async_commit_retry_initial s.async_commit_retry_max,
          nid,
          seq,
        ))
          ∷ [];
  }

  unfoldable pub schedule_prepared_publication_retry : List Component → ℕ → State env → State env
  unfolding retry_delay
  schedule_prepared_publication_retry nid seq s =
      add_retry nid seq (find seq (or_default [] (find nid s.prepared_publications))) s

  -- `requeueFailedPublication`
  unfoldable pub requeue : List Component → Prepared env → State env → State env
  unfolding schedule_prepared_publication_retry
  requeue nid p s = schedule_prepared_publication_retry nid p.seq_no (record s {
    prepared_publications =
        insert_two nid p.seq_no
          (record p { commit_attempts = p.commit_attempts + 1; retry_scheduled = true })
          s.prepared_publications;
  })

  -- what follows a commit: the next number is due, and the loop goes on, unless it threw
  abbrev pub after_commit :
      List Component
      → ℕ
      → Result (Unit {0}) × (Out env × Prepared env)
      → State env
      → Bool × State env
  after_commit nid n (ok u, x) s = (
    true,
    record s {
      outputs = x.0;
      next_async_commit_seq =
          if n == x.1.seq_no
          then insert nid (n + 1) s.next_async_commit_seq
          else s.next_async_commit_seq;
    },
  )
  after_commit nid n (err e, x) s = (false, requeue nid x.1 (record s { outputs = x.0 }))

  unfoldable pub commit_due :
      List Component → ℕ × OrdMap ℕ (Prepared env) × Prepared env → State env → Bool × State env
  unfolding requeue commit_prepared_publication
  commit_due nid d s =
      after_commit nid d.0 (commit_and_announce env s.use_timestamp d.2.seq_no nid (s.outputs, d.2))
        (record s { prepared_publications = erase_two nid d.0 d.1 s.prepared_publications })

  -- The loop, or none when the rounds run out before it ends. Each round but the last takes one
  -- publication of the node away: one round more than the node has publications is enough.
  unfoldable pub commit_rounds : ℕ → List Component → State env → Option (State env)
  unfolding due commit_due
  commit_rounds zero nid s = none
  commit_rounds (suc fuel) nid s = elim (due nid s) [
    | none ↦ some s
    | some d ↦
        let r = commit_due nid d s in
        elim r.0 [ true ↦ commit_rounds fuel nid r.1 | false ↦ some r.1 ]
  ]

  unfoldable pub commit_ready_prepared_publications : List Component → State env → State env
  unfolding commit_rounds
  commit_ready_prepared_publications nid s =
      or_default s
        (commit_rounds (suc (length (or_default [] (find nid s.prepared_publications)))) nid s)

  abbrev pub unstage : List Component → ℕ → Option (OrdMap ℕ (List Data)) → State env → State env
  unstage nid seq none s = s
  unstage nid seq (some entries) s = record s {
    staged_publication_packets = erase_two nid seq entries s.staged_publication_packets;
  }

  unfoldable pub on_prepared_publication : Prepared env → State env → State env
  unfolding commit_ready_prepared_publications
  on_prepared_publication p s =
      let t = unstage p.node_prefix p.seq_no (find p.node_prefix s.staged_publication_packets) s in
      commit_ready_prepared_publications p.node_prefix (record t {
        prepared_publications = insert_two p.node_prefix p.seq_no p t.prepared_publications;
      })

  abbrev pub retry_entry : List Component → ℕ → Option (Prepared env) → State env → State env
  retry_entry nid seq none s = s
  retry_entry nid seq (some p) s = commit_ready_prepared_publications nid (record s {
    prepared_publications =
        insert_two nid seq (record p { retry_scheduled = false }) s.prepared_publications;
  })

  -- the timer of a retry
  unfoldable pub on_commit_retry : List Component → ℕ → State env → State env
  unfolding commit_ready_prepared_publications
  on_commit_retry nid seq s =
      retry_entry nid seq (find seq (or_default [] (find nid s.prepared_publications))) s
