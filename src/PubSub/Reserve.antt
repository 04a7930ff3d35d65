-- ===== src/PubSub/Reserve.antt =====
-- Which number an asynchronous publication takes, and that one that throws takes none.
use ndn_svs.Base.{
  ℕ, ◌+◌, ◌≡◌, refl, ◌∙◌, ap, arith, List, [], ◌∷◌, ◌++◌, some, max, Ord, not, ==_self, Result, ok,
  err, is_empty,
}
use ndn_svs.Base.OrdMap.{find, insert, or_default}
use ndn_svs.Base.OrdMap.Laws.{find-insert}
use ndn_svs.Base.Action.{go_on, modify, ◌>>◌, return}
use ndn_svs.PubSub.State.{Env, Kind}
use ndn_svs.PubSub.Prepare.{prepare}
use ndn_svs.PubSub.Publish.{
  State, Prepared, raised, staged, store_packets, stage_prepared, core_seq_no, node_of,
  prepare_and_stage_async_publication, publish_async, async_publication,
}

max_same : (r c : ℕ) → max (max r c) c ≡ max r c
max_same r c = omega arith

module _ {Component Data Interest Block S : Type 0} ⦃o : Ord (List Component)⦄
    (env : Env Component Data Interest Block S) (q : List Component) (s : State env) where
  -- A publication that returns has the number behind the last reserved one, which is now reserved,
  -- and one more handler waits. After one that throws the next number is the same, and nothing
  -- waits, is staged or is due that was not before.
  abbrev pub TakesNumber : Result ℕ × State env → Type 0
  TakesNumber (ok seq, t) =
      (seq ≡ raised env s q + 1)
      × (find q t.reserved_seq_no ≡ some seq)
      × ((p : Prepared env) × (t.posted ≡ s.posted ++ p ∷ []))
  TakesNumber (err e, t) =
      (raised env t q ≡ raised env s q)
      × (t.next_async_commit_seq ≡ s.next_async_commit_seq)
      × (t.posted ≡ s.posted)
      × (t.staged_publication_packets ≡ s.staged_publication_packets)
      × (t.prepared_publications ≡ s.prepared_publications)
      × (t.outputs.base.core ≡ s.outputs.base.core)

  abbrev raise : State env
  raise = record s { reserved_seq_no = insert q (raised env s q) s.reserved_seq_no }

  find_self : (k : ℕ) → find q (insert q k s.reserved_seq_no) ≡ some k
  find_self k = find-insert q q k s.reserved_seq_no ∙ rw (==_self q) refl

  raised_again : raised env raise q ≡ raised env s q
  raised_again =
      ap (λ v. max (or_default 0 v) (core_seq_no env s q)) (find_self (raised env s q))
      ∙ max_same (or_default 0 (find q s.reserved_seq_no)) (core_seq_no env s q)

  taken :
      (prepared : Prepared env) (t : State env)
      → t.posted ≡ s.posted
      → TakesNumber (ok (raised env s q + 1), staged env q (raised env s q + 1) prepared t)
  taken prepared t e =
      let p : Prepared env = record prepared { stored = not (is_empty prepared.outer_packets) } in
      (
        refl,
        find-insert q q (raised env s q + 1) t.reserved_seq_no ∙ rw (==_self q) refl,
        (p, ap (λ l. l ++ p ∷ []) e),
      )

  stored_first :
      (prepared : Prepared env) (t : State env) (r : Result (Unit {0}))
      → raised env t q ≡ raised env s q
      → t.posted ≡ s.posted
      → t.next_async_commit_seq ≡ s.next_async_commit_seq
      → t.staged_publication_packets ≡ s.staged_publication_packets
      → t.prepared_publications ≡ s.prepared_publications
      → t.outputs.base.core ≡ s.outputs.base.core
      → TakesNumber (
          go_on r
            (λ u.
              modify (staged env q (raised env s q + 1) prepared) >> return (raised env s q + 1))
            t)
  stored_first prepared t (ok u) a b c d e f = taken prepared t b
  stored_first prepared t (err x) a b c d e f = (a, c, b, d, e, f)

  stage_prepared-TakesNumber :
      (prepared : Prepared env) (packets : List Data)
      → packets ≡ prepared.outer_packets
      → TakesNumber (
          go_on
            (store_packets env packets raise).0
            (λ u.
              modify (staged env q (raised env s q + 1) prepared) >> return (raised env s q + 1))
            (store_packets env packets raise).1)
  stage_prepared-TakesNumber prepared [] e =
      stored_first prepared raise (ok tt) raised_again refl refl refl refl refl
  stage_prepared-TakesNumber prepared (x ∷ xs) e =
      stored_first prepared (store_packets env (x ∷ xs) raise).1
        (store_packets env (x ∷ xs) raise).0 raised_again refl refl refl refl refl

  prepared_first :
      (r : Result (Prepared env))
      → TakesNumber (go_on r (λ prepared. stage_prepared env q (raised env s q + 1) prepared) raise)
  unfolding stage_prepared
  prepared_first (ok prepared) = stage_prepared-TakesNumber prepared prepared.outer_packets refl
  prepared_first (err e) = (raised_again, refl, refl, refl, refl, refl)

module _ {Component Data Interest Block S : Type 0} ⦃o : Ord (List Component)⦄
    (env : Env Component Data Interest Block S) where
  -- `publishAsync` takes a number only when it returns. Then it is the number behind the greater of
  -- the last reserved one and the core's, and one more handler waits. When it throws, at any step,
  -- the next publication gets the number that this one would have had, and no publication waits, is
  -- staged or prepared that was not before; the core is as it was.
  pub publish_async-TakesNumber :
      (kind : Kind Data) (name prefix : List Component) (freshness : ℕ) (blocks : List Block)
      (s : State env)
      → TakesNumber env
          (node_of env s prefix)
          s
          (publish_async env kind name prefix freshness blocks s)
  unfolding publish_async prepare_and_stage_async_publication
  publish_async-TakesNumber kind name prefix freshness blocks s =
      let q = node_of env s prefix in
      prepared_first env q s (
        prepare env s
          (record (async_publication env kind name prefix freshness blocks s) {
            seq_no = raised env s q + 1;
            bootstrap_time = s.outputs.base.core.bootstrap_time;
          })
          kind)
