-- ===== src/PubSub/Ends.antt =====
-- The commit loop ends: its rounds are enough.
use ndn_svs.Base.{
  ℕ, zero, suc, ◌+◌, ◌<◌, ◌≡◌, refl, sym, subst, ap, ◌∙◌, arith, Bool, true, false, Option, none,
  some, List, [], ◌∷◌, length, is_empty, Ord, nat_ord, Result, ok, err,
}
use ndn_svs.Base.OrdMap.{OrdMap, find, erase, IsSorted, or_default}
use ndn_svs.Base.OrdMap.Laws.{find-insert, find-erase}
use ndn_svs.PubSub.State.{Env}
use ndn_svs.PubSub.Publish.{erase_two, State, Prepared, Out, commit_and_announce}
use ndn_svs.PubSub.Commit.{
  due, due_at, due_of, commit_due, commit_rounds, commit_ready_prepared_publications, after_commit,
}
use ndn_svs.PubSub.Nested.{erase_two-IsSorted}

length-erase_found :
    {V : Type 0} (q : ℕ) (m : OrdMap ℕ V) (v : V)
    → find q m ≡ some v
    → suc (length (erase q m)) ≡ length m
unfolding find erase
length-erase_found q [] v h = cc
length-erase_found q ((k, w) ∷ m) v h = ground (arith, length-erase_found q m v)

empty_length : {A : Type 0} (xs : List A) → is_empty xs ≡ true → length xs ≡ 0
empty_length [] h = refl
empty_length (x ∷ xs) h = cc

module _ {Component V : Type 0} ⦃o : Ord (List Component)⦄ where
  -- how many entries a node has
  abbrev pub count_two : List Component → OrdMap (List Component) (OrdMap ℕ V) → ℕ
  count_two nid m = length (or_default [] (find nid m))

  count-erase_two :
      (nid : List Component) (n : ℕ) (entries : OrdMap ℕ V) (v : V)
      (m : OrdMap (List Component) (OrdMap ℕ V))
      → IsSorted m
      → find n entries ≡ some v
      → suc (count_two nid (erase_two nid n entries m)) ≡ length entries
  unfolding erase_two
  count-erase_two nid n entries v m s h =
      let l = length-erase_found n entries v h in
      ground (
        arith,
        l,
        empty_length (erase n entries),
        find-insert nid nid (erase n entries) m,
        find-erase nid nid m s,
        o.cmp_self nid,
      )

module _ {Component Data Interest Block S : Type 0} ⦃o : Ord (List Component)⦄
    (env : Env Component Data Interest Block S) (nid : List Component) where
  abbrev Due : Type 0
  Due = ℕ × OrdMap ℕ (Prepared env) × Prepared env

  abbrev IsDue : Option (OrdMap ℕ (Prepared env)) → Due → Type 0
  IsDue entries d = (entries ≡ some d.1) × (find d.0 d.1 ≡ some d.2)

  due_of-IsDue :
      (n : ℕ) (entries : OrdMap ℕ (Prepared env)) (p : Option (Prepared env)) (d : Due)
      → find n entries ≡ p
      → due_of env n entries p ≡ some d
      → IsDue (some entries) d
  due_of-IsDue n entries none d h e = cc
  due_of-IsDue n entries (some p) d h e = ground (arith)

  due_at-IsDue :
      (n : Option ℕ) (entries : Option (OrdMap ℕ (Prepared env))) (d : Due)
      → due_at env n entries ≡ some d
      → IsDue entries d
  due_at-IsDue none entries d e = cc
  due_at-IsDue (some n) none d e = cc
  due_at-IsDue (some n) (some entries) d e = due_of-IsDue n entries (find n entries) d refl e

  due-IsDue :
      (s : State env) (d : Due)
      → due env nid s ≡ some d
      → IsDue (find nid s.prepared_publications) d
  unfolding due
  due-IsDue s d e =
      due_at-IsDue (find nid s.next_async_commit_seq) (find nid s.prepared_publications) d e

  after_commit-keeps :
      (n : ℕ) (r : Result (Unit {0})) (x : Out env × Prepared env) (s : State env)
      → (after_commit env nid n (r, x) s).0 ≡ true
      → (after_commit env nid n (r, x) s).1.prepared_publications ≡ s.prepared_publications
  after_commit-keeps n (ok u) x s h = refl
  after_commit-keeps n (err e) x s h = cc

  abbrev count : State env → ℕ
  count s = count_two nid s.prepared_publications

  commit_due-shrinks :
      (d : Due) (s : State env)
      → IsSorted s.prepared_publications
      → due env nid s ≡ some d
      → (commit_due env nid d s).0 ≡ true
      → let t = (commit_due env nid d s).1 in
        IsSorted t.prepared_publications × (suc (count t) ≡ count s)
  unfolding commit_due
  commit_due-shrinks d s sorted h b =
      let i = due-IsDue s d h in
      let r = commit_and_announce env s.use_timestamp d.2.seq_no nid (s.outputs, d.2) in
      let left = erase_two nid d.0 d.1 s.prepared_publications in
      let same = after_commit-keeps d.0 r.0 r.1 (record s { prepared_publications = left }) b in
      (
        subst IsSorted (sym same) (erase_two-IsSorted nid d.0 d.1 s.prepared_publications sorted),
        ap (λ m. suc (count_two nid m)) same
            ∙ count-erase_two nid d.0 d.1 d.2 s.prepared_publications sorted i.1
            ∙ ap (λ e. length (or_default [] e)) (sym i.0),
      )

  -- what is left to do after a round
  abbrev goes_on : ℕ → Bool → State env → Option (State env)
  goes_on fuel b t = elim b [ true ↦ commit_rounds env fuel nid t | false ↦ some t ]

  goes_on_same :
      (fuel : ℕ) (b : Bool) (t : State env)
      → (b ≡ true → commit_rounds env (suc fuel) nid t ≡ commit_rounds env fuel nid t)
      → goes_on (suc fuel) b t ≡ goes_on fuel b t
  goes_on_same fuel true t h = h refl
  goes_on_same fuel false t h = refl

  round_same :
      (fuel : ℕ) (s : State env) (e : Option Due)
      → due env nid s ≡ e
      → ((d : Due)
          → due env nid s ≡ some d
          → (commit_due env nid d s).0 ≡ true
          → let t = (commit_due env nid d s).1 in
            commit_rounds env (suc fuel) nid t ≡ commit_rounds env fuel nid t)
      → commit_rounds env (suc (suc fuel)) nid s ≡ commit_rounds env (suc fuel) nid s
  unfolding commit_rounds
  round_same fuel s none h f = rw (h, commit_rounds) refl
  round_same fuel s (some d) h f =
      rw (h, commit_rounds)
        (goes_on_same fuel (commit_due env nid d s).0 (commit_due env nid d s).1 (f d h))

  one_more_round :
      (fuel : ℕ) (s : State env)
      → IsSorted s.prepared_publications
      → count s < fuel
      → commit_rounds env (suc fuel) nid s ≡ commit_rounds env fuel nid s
  one_more_round zero s sorted h = ground arith
  one_more_round (suc fuel) s sorted h = round_same fuel s (due env nid s) refl λ d e b.
      let i = commit_due-shrinks d s sorted e b in
      one_more_round fuel (commit_due env nid d s).1 i.0 (omega (arith, i.1, h))

  -- the loop has ended within the rounds
  abbrev Ends : ℕ → State env → Type 0
  Ends fuel s = (t : State env) × (commit_rounds env fuel nid s ≡ some t)

  goes_on-Ends :
      (fuel : ℕ) (b : Bool) (t : State env)
      → (b ≡ true → Ends fuel t)
      → (u : State env) × (goes_on fuel b t ≡ some u)
  goes_on-Ends fuel true t h = h refl
  goes_on-Ends fuel false t h = (t, refl)

  round-Ends :
      (fuel : ℕ) (s : State env) (e : Option Due)
      → due env nid s ≡ e
      → ((d : Due)
          → due env nid s ≡ some d
          → (commit_due env nid d s).0 ≡ true
          → Ends fuel (commit_due env nid d s).1)
      → Ends (suc fuel) s
  unfolding commit_rounds
  round-Ends fuel s none h f = (s, rw (h, commit_rounds) refl)
  round-Ends fuel s (some d) h f =
      let i = goes_on-Ends fuel (commit_due env nid d s).0 (commit_due env nid d s).1 (f d h) in
      (i.0, rw (h, commit_rounds) i.1)

  rounds_end :
      (fuel : ℕ) (s : State env) → IsSorted s.prepared_publications → count s < fuel → Ends fuel s
  rounds_end zero s sorted h = ground arith
  rounds_end (suc fuel) s sorted h = round-Ends fuel s (due env nid s) refl λ d e b.
      let i = commit_due-shrinks d s sorted e b in
      rounds_end fuel (commit_due env nid d s).1 i.0 (omega (arith, i.1, h))

  -- The commit loop ends. Where the map of the prepared publications is sorted, as every map is,
  -- it needs one round more than the node has prepared publications: with these, and any number of
  -- further rounds, it ends in the state that `commitReadyPreparedPublications` returns, where a loop
  -- that ran out of rounds would have none.
  pub commit_rounds-enough :
      (more : ℕ) (s : State env)
      → IsSorted s.prepared_publications
      → commit_rounds env (more + suc (count s)) nid s
        ≡ some (commit_ready_prepared_publications env nid s)
  unfolding commit_ready_prepared_publications
  commit_rounds-enough zero s sorted =
      let i = rounds_end (suc (count s)) s sorted (omega arith) in
      ap (λ k. commit_rounds env k nid s)
        (let e : 0 + suc (count s) ≡ suc (count s) = omega arith in e)
      ∙ i.1
      ∙ ap (λ r. some (or_default s r)) (sym i.1)
  commit_rounds-enough (suc more) s sorted =
      ap (λ k. commit_rounds env k nid s)
        (let e : suc more + suc (count s) ≡ suc (more + suc (count s)) = omega arith in e)
      ∙ one_more_round (more + suc (count s)) s sorted (omega arith)
      ∙ commit_rounds-enough more s sorted
