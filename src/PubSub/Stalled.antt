-- ===== src/PubSub/Stalled.antt =====
-- A number that was given away without a prepared publication stops the commits of its node.
use ndn_svs.Base.{
  ℕ, zero, suc, ◌+◌, ◌≤◌, ◌≡◌, refl, sym, subst, ap, ◌∙◌, arith, Bool, true, false, ◌&&◌, Option,
  none, some, List, [], All, length, Ord, nat_ord, ◌==◌, ==_iff, Bool-cases, inl, inr, Result, ok,
  err,
}
use ndn_svs.Base.OrdMap.{OrdMap, find, insert, IsSorted, or_default}
use ndn_svs.Base.OrdMap.Laws.{find-insert}
use ndn_svs.Base.Action.{Keeps}
use ndn_svs.PubSub.State.{Env}
use ndn_svs.PubSub.Publish.{insert_two, State, Prepared, Out, commit_and_announce}
use ndn_svs.PubSub.Nested.{
  find_two, find_two-insert_two, find_two-erase_two, insert_two-IsSorted, erase_two-IsSorted,
}
use ndn_svs.PubSub.Commit.{
  due, due_in, commit_due, commit_rounds, commit_ready_prepared_publications, requeue, add_retry,
  unstage, retry_entry, schedule_prepared_publication_retry, after_commit, on_prepared_publication,
  on_commit_retry,
}

both_true : (a b : Bool) → (a && b) ≡ true → (a ≡ true) × (b ≡ true)
both_true a b h = ground arith

module _ {Component Data Interest Block S : Type 0} ⦃o : Ord (List Component)⦄
    (env : Env Component Data Interest Block S) (nid : List Component) (n : ℕ) where
  -- not the publication of the number `n`
  abbrev pub IsOther : Prepared env → Type 0
  IsOther p = ((p.node_prefix == nid) && (p.seq_no == n)) ≡ false

  -- The number `n` is the next to commit, and was given away, but its publication is not prepared
  -- and will not be.
  pub record IsStalled (s : State env) : Type 0 where
    pub next : find nid s.next_async_commit_seq ≡ some n
    pub missing : find_two nid n s.prepared_publications ≡ none
    pub given : n ≤ or_default 0 (find nid s.reserved_seq_no)
    pub sorted : IsSorted s.prepared_publications
    pub others : All IsOther s.posted

  due_in_missing :
      (entries : Option (OrdMap ℕ (Prepared env)))
      → find n (or_default [] entries) ≡ none
      → due_in env n entries ≡ none
  due_in_missing none h = refl
  due_in_missing (some entries) h = rw (h) refl

  due_of_stalled : (s : State env) → IsStalled s → due env nid s ≡ none
  unfolding due
  due_of_stalled s h = rw (h.next) (due_in_missing (find nid s.prepared_publications) h.missing)

  pub commit_rounds_of_stalled :
      (fuel : ℕ) (s : State env) → IsStalled s → or_default s (commit_rounds env fuel nid s) ≡ s
  unfolding commit_rounds
  commit_rounds_of_stalled zero s h = refl
  commit_rounds_of_stalled (suc fuel) s h = rw (due_of_stalled s h, commit_rounds) refl

  -- the number of a node is given once more, or raised
  pub IsStalled-reserved :
      (q : List Component) (k : ℕ) (m : OrdMap (List Component) ℕ)
      → ((q == nid) ≡ true → n ≤ k)
      → n ≤ or_default 0 (find nid m)
      → n ≤ or_default 0 (find nid (insert q k m))
  IsStalled-reserved q k m h g =
      ground (arith, find-insert q nid k m, o.cmp_eq nid q, o.cmp_self nid)

  -- another node's next number
  IsStalled-next :
      (q : List Component) (k : ℕ) (m : OrdMap (List Component) ℕ)
      → (q == nid) ≡ false
      → find nid m ≡ some n
      → find nid (insert q k m) ≡ some n
  IsStalled-next q k m h e = ground (arith, find-insert q nid k m, o.cmp_eq nid q, o.cmp_self nid)

  retry_of :
      (q : List Component) (k : ℕ) (p : Option (Prepared env)) (s : State env)
      → IsStalled s
      → IsStalled (add_retry env q k p s)
  retry_of q k none s h = h
  retry_of q k (some p) s h = record {
    next = h.next;
    missing = h.missing;
    given = h.given;
    sorted = h.sorted;
    others = h.others;
  }

  retry_added :
      (q : List Component) (k : ℕ) (s : State env)
      → IsStalled s
      → IsStalled (schedule_prepared_publication_retry env q k s)
  unfolding schedule_prepared_publication_retry
  retry_added q k s h = retry_of q k (find k (or_default [] (find q s.prepared_publications))) s h

  requeue-IsStalled :
      (q : List Component) (p : Prepared env) (s : State env)
      → (q == nid) ≡ false
      → IsStalled s
      → IsStalled (requeue env q p s)
  unfolding requeue
  requeue-IsStalled q p s h i = retry_added q p.seq_no _ (record {
    next = i.next;
    missing =
        find_two-insert_two nid q n p.seq_no _ s.prepared_publications (ground arith) i.missing;
    given = i.given;
    sorted = insert_two-IsSorted q p.seq_no _ s.prepared_publications i.sorted;
    others = i.others;
  })

  after_commit-IsStalled :
      (q : List Component) (k : ℕ) (r : Result (Unit {0})) (x : Out env × Prepared env)
      (s : State env)
      → (q == nid) ≡ false
      → IsStalled s
      → IsStalled (after_commit env q k (r, x) s).1
  after_commit-IsStalled q k (ok u) x s h i = record {
    next = ground (arith, IsStalled-next q (k + 1) s.next_async_commit_seq h i.next, i.next);
    missing = i.missing;
    given = i.given;
    sorted = i.sorted;
    others = i.others;
  }
  after_commit-IsStalled q k (err e) x s h i =
      requeue-IsStalled q x.1 (record s { outputs = x.0 }) h
        (record {
          next = i.next;
          missing = i.missing;
          given = i.given;
          sorted = i.sorted;
          others = i.others;
        })

  commit_due-IsStalled :
      (q : List Component) (d : ℕ × OrdMap ℕ (Prepared env) × Prepared env) (s : State env)
      → (q == nid) ≡ false
      → IsStalled s
      → IsStalled (commit_due env q d s).1
  unfolding commit_due
  commit_due-IsStalled q d s h i =
      let r = commit_and_announce env s.use_timestamp d.2.seq_no q (s.outputs, d.2) in
      after_commit-IsStalled q d.0 r.0 r.1 _ h (record {
        next = i.next;
        missing = find_two-erase_two nid q n d.0 d.1 s.prepared_publications h i.sorted i.missing;
        given = i.given;
        sorted = erase_two-IsSorted q d.0 d.1 s.prepared_publications i.sorted;
        others = i.others;
      })

  round-IsStalled :
      (fuel : ℕ) (q : List Component) (d : ℕ × OrdMap ℕ (Prepared env) × Prepared env)
      (s0 s : State env)
      → (q == nid) ≡ false
      → ((s : State env) → IsStalled s → IsStalled (or_default s0 (commit_rounds env fuel q s)))
      → IsStalled s
      → (b : Bool) (t : State env) → commit_due env q d s ≡ (b, t)
      → IsStalled (or_default s0 (elim b [ true ↦ commit_rounds env fuel q t | false ↦ some t ]))
  round-IsStalled fuel q d s0 s h rest i true t e =
      rest t (subst (λ r. IsStalled r.1) e (commit_due-IsStalled q d s h i))
  round-IsStalled fuel q d s0 s h rest i false t e =
      subst (λ r. IsStalled r.1) e (commit_due-IsStalled q d s h i)

  rounds_of_other :
      (fuel : ℕ) (q : List Component)
      → (q == nid) ≡ false
      → (s0 : State env) → IsStalled s0
      → (s : State env) → IsStalled s
      → IsStalled (or_default s0 (commit_rounds env fuel q s))
  unfolding commit_rounds
  rounds_of_other zero q h s0 i0 s i = i0
  rounds_of_other (suc fuel) q h s0 i0 s i =
      elim (due env q s)
        as (λ d. IsStalled (
          or_default s0 (elim d [
            | none ↦ some s
            | some d ↦
                let r = commit_due env q d s in
                elim r.0 [ true ↦ commit_rounds env fuel q r.1 | false ↦ some r.1 ]
          ]))) [
            | none ↦ i
            | some d ↦
                round-IsStalled fuel q d s0 s h (rounds_of_other fuel q h s0 i0) i
                  (commit_due env q d s).0 (commit_due env q d s).1 refl
          ]

  pub commits-IsStalled :
      (q : List Component) (s : State env)
      → IsStalled s
      → IsStalled (commit_ready_prepared_publications env q s)
  unfolding commit_ready_prepared_publications
  commits-IsStalled q s i =
      let fuel = suc (length (or_default [] (find q s.prepared_publications))) in
      elim (Bool-cases (q == nid)) [
        | inl same ↦
            let e : q ≡ nid = (==_iff q nid).0 same in
            subst IsStalled
              (sym (commit_rounds_of_stalled fuel s i)
                ∙ ap (λ q. or_default s (commit_rounds env fuel q s)) (sym e))
              i
        | inr other ↦ rounds_of_other fuel q other s i s i
      ]

  unstage-IsStalled :
      (q : List Component) (k : ℕ) (e : Option (OrdMap ℕ (List Data))) (s : State env)
      → IsStalled s
      → IsStalled (unstage env q k e s)
  unstage-IsStalled q k none s i = i
  unstage-IsStalled q k (some e) s i = record {
    next = i.next;
    missing = i.missing;
    given = i.given;
    sorted = i.sorted;
    others = i.others;
  }

  put-IsStalled :
      (q : List Component) (k : ℕ) (p : Prepared env) (s : State env)
      → ((q == nid) && (k == n)) ≡ false
      → IsStalled s
      → IsStalled (record s { prepared_publications = insert_two q k p s.prepared_publications })
  put-IsStalled q k p s h i = record {
    next = i.next;
    missing = find_two-insert_two nid q n k p s.prepared_publications h i.missing;
    given = i.given;
    sorted = insert_two-IsSorted q k p s.prepared_publications i.sorted;
    others = i.others;
  }

  pub on_prepared_publication-IsStalled :
      (p : Prepared env) (s : State env)
      → IsOther p
      → IsStalled s
      → IsStalled (on_prepared_publication env p s)
  unfolding on_prepared_publication
  on_prepared_publication-IsStalled p s h i =
      let q = p.node_prefix in
      let e = find q s.staged_publication_packets in
      commits-IsStalled q _ (
        put-IsStalled q p.seq_no p (unstage env q p.seq_no e s) h
          (unstage-IsStalled q p.seq_no e s i))

  retry_entry-IsStalled :
      (q : List Component) (k : ℕ) (e : Option (Prepared env)) (s : State env)
      → ((q == nid) && (k == n)) ≡ false
      → IsStalled s
      → IsStalled (retry_entry env q k e s)
  retry_entry-IsStalled q k none s h i = i
  retry_entry-IsStalled q k (some p) s h i =
      commits-IsStalled q _ (put-IsStalled q k (record p { retry_scheduled = false }) s h i)

  pub on_commit_retry-IsStalled :
      (q : List Component) (k : ℕ) → Keeps IsStalled (λ s. (ok tt, on_commit_retry env q k s))
  unfolding on_commit_retry
  on_commit_retry-IsStalled q k s i = elim (Bool-cases ((q == nid) && (k == n))) [
    | inl same ↦
        let b = both_true (q == nid) (k == n) same in
        let e : find_two q k s.prepared_publications ≡ none =
          cc (i.missing, (==_iff q nid).0 b.0, (==_iff k n).0 b.1) in
        subst (λ e. IsStalled (retry_entry env q k e s)) (sym e) i
    | inr other ↦ retry_entry-IsStalled q k _ s other i
  ]
