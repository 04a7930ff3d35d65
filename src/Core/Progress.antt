-- ===== src/Core/Progress.antt =====
-- No operation of the core makes an entry of its vector smaller, and none changes the vector under
-- one generation.
use ndn_svs.Base.{
  ℕ, ◌+◌, ◌≤◌, ◌<◌, ◌≡◌, refl, ◌∙◌, Bool, true, false, Option, none, some, arith, Ord, nat_ord,
  if◌then◌else◌, inl, inr, Result, ok, err, ==_iff, lt→ltb,
}
use ndn_svs.Base.Action.{Action, go_on, ◌>>=◌, ◌>>◌, done, modify}
use ndn_svs.VersionVector.{VersionVector, get, store}
use ndn_svs.VersionVector.Invariant.{get-store, set-store}
use ndn_svs.Core.Merge.Total.{compute_merge_state_vector-total}
use ndn_svs.Core.Merge.Values.{get-merged-le}
use ndn_svs.Core.Merge.Newness.{other_vector_new-same}
use ndn_svs.Core.State.{Core, Wire, Draws, merge_state_vector, or_self}
use ndn_svs.Core.Send.{retx_sync_interest, schedule_retx, recorded_is_older, send_sync_interest}
use ndn_svs.Core.Receive.{on_sync_interest_validated_serial}
use ndn_svs.Core.Publish.{update_seq_no, schedule_publication_sync, announce}
use ndn_svs.Core.Quiet.{
  Same, Quiet, send_sync_interest-Quiet, send_local_publication-Quiet, after_merge-Quiet,
}
use ndn_svs.Core.Parallel.{serial-decoded, serial_undecoded, merged_core, Result-cases}

module _ {Node Interest Block : Type 0} ⦃o : Ord Node⦄ where
  pub record Progress (c c' : Core Node Interest Block) : Type 0 where
    pub grows : (n : Node) (b : ℕ) → get c.vv n b ≤ get c'.vv n b
    pub generation : c.state_generation ≤ c'.state_generation
    pub same : c'.state_generation ≡ c.state_generation → c'.vv ≡ c.vv
    pub pool : c'.processing_pool ≡ c.processing_pool

  pub Progress-trans :
      {a b c : Core Node Interest Block} → Progress a b → Progress b c → Progress a c
  Progress-trans {a} {b} {c} p q = record {
    grows = λ n t. omega (arith, p.grows n t, q.grows n t);
    generation = omega (arith, p.generation, q.generation);
    same = λ e.
        q.same (omega (arith, e, p.generation, q.generation))
        ∙ p.same (omega (arith, e, p.generation, q.generation));
    pool = q.pool ∙ p.pool;
  }

  pub Same-Progress : {c c' : Core Node Interest Block} → Same c c' → Progress c c'
  Same-Progress {c} {c'} s = record {
    grows = λ n b. rw s.vector (omega arith);
    generation = omega (arith, s.generation);
    same = λ e. s.vector;
    pool = s.pool;
  }

  pub refl-Progress : (c : Core Node Interest Block) → Progress c c
  refl-Progress c = Same-Progress (record { vector = refl; generation = refl; pool = refl })

  go_on-Progress :
      {A B : Type 0} (r : Result A) (f : A → Action (Core Node Interest Block) B)
      (c : Core Node Interest Block)
      → ((a : A) (c : Core Node Interest Block) → Progress c (f a c).1)
      → Progress c (go_on r f c).1
  go_on-Progress (ok a) f c q = q a c
  go_on-Progress (err e) f c q = refl-Progress c

  bind-Progress :
      {A B : Type 0} (m : Action (Core Node Interest Block) A)
      (f : A → Action (Core Node Interest Block) B)
      → ((c : Core Node Interest Block) → Progress c (m c).1)
      → ((a : A) (c : Core Node Interest Block) → Progress c (f a c).1)
      → (c : Core Node Interest Block) → Progress c ((m >>= f) c).1
  bind-Progress m f p q c = Progress-trans (p c) (go_on-Progress (m c).0 f (m c).1 q)

  -- Merging is progress.
  merge-Progress :
      (now : ℕ) (v : VersionVector Node) (c : Core Node Interest Block)
      → Progress c (merge_state_vector now v c).1
  unfolding merge_state_vector
  merge-Progress now v c =
      rw (compute_merge_state_vector-total now c.vv v, merge_state_vector)
        (record {
          grows = λ n b. get-merged-le now c.vv v n b;
          generation = ground arith;
          same = λ e. (other_vector_new-same now c.vv v (ground arith)).0;
          pool = refl;
        })

module _ {Node Interest Block : Type 0} ⦃o : Ord Node⦄ (w : Wire Node Interest Block)
    (d : Draws) where
  merged_core-Progress :
      (c : Core Node Interest Block) (v : VersionVector Node) → Progress c (merged_core w d c v)
  merged_core-Progress c v = record {
    grows = λ n b. get-merged-le d.wall_clock c.vv v n b;
    generation = ground arith;
    same = λ e. (other_vector_new-same d.wall_clock c.vv v (ground arith)).0;
    pool = refl;
  }

  pub serial-Progress :
      (i : Interest) (c : Core Node Interest Block)
      → Progress c (on_sync_interest_validated_serial w d i c).1
  serial-Progress i c = elim (Result-cases (w.decode true i)) [
    | inl (e, h) ↦ rw (serial-decoded w d i c e h) (
        Progress-trans (merged_core-Progress c e.state_vector)
          (Same-Progress (after_merge-Quiet w d _ e.extensions e.state_vector _ _ _)))
    | inr (x, h) ↦
        rw (serial_undecoded w d i c x h)
          (Same-Progress (record { vector = refl; generation = refl; pool = refl }))
  ]

  recorded_is_older-Progress :
      (r : Option (VersionVector Node)) (c : Core Node Interest Block)
      → Progress c (recorded_is_older w d r c).1
  unfolding recorded_is_older
  recorded_is_older-Progress none c = refl-Progress c
  recorded_is_older-Progress (some v) c =
      bind-Progress (merge_state_vector d.wall_clock v) _ (merge-Progress d.wall_clock v)
        (λ r. refl-Progress) c

  send_newer-Progress :
      (b : Bool) (c : Core Node Interest Block)
      → Progress c ((if b then send_sync_interest w else done) c).1
  send_newer-Progress true c = Same-Progress (send_sync_interest-Quiet w c)
  send_newer-Progress false c = refl-Progress c

  pub retx-Progress :
      (send : Bool) (delay : ℕ) (c : Core Node Interest Block)
      → Progress c (retx_sync_interest w d send delay c).1
  unfolding retx_sync_interest schedule_retx
  retx-Progress false delay c =
      Same-Progress (record { vector = refl; generation = refl; pool = refl })
  retx-Progress true delay c =
      bind-Progress
        (recorded_is_older w d c.recorded_vv >>= λ newer.
          (if newer then send_sync_interest w else done)
          >> modify (λ (c : Core Node Interest Block). record c { recorded_vv = none }))
        _
        (bind-Progress (recorded_is_older w d c.recorded_vv) _
          (recorded_is_older-Progress c.recorded_vv)
          λ newer.
            bind-Progress (if newer then send_sync_interest w else done) _
              (send_newer-Progress newer)
              λ _ c. Same-Progress (record { vector = refl; generation = refl; pool = refl }))
        (λ _ c. Same-Progress (record { vector = refl; generation = refl; pool = refl })) c

  announce-Quiet : Quiet (announce w d)
  unfolding announce schedule_publication_sync
  announce-Quiet c = ground (arith, send_local_publication-Quiet w d c)

  -- A publication with a greater number is progress.
  pub update_seq_no-Progress :
      (seq b : ℕ) (nid : Option Node) (c : Core Node Interest Block)
      → get c.vv (or_self c nid) b < seq
      → Progress c (update_seq_no w d seq b nid c).1
  unfolding update_seq_no
  update_seq_no-Progress seq b nid c h =
      let t = or_self c nid in
      let c' : Core Node Interest Block = record c {
        vv = store d.wall_clock t b seq c.vv;
        state_generation = c.state_generation + 1;
      } in
      let first : Progress c c' = record {
        grows =
            λ n k. ground (arith, get-store d.wall_clock t b seq c.vv n k, ==_iff n t, ==_iff k b);
        generation = omega arith;
        same = λ e. absurd (omega (arith, e));
        pool = refl;
      } in
      rw (set-store d.wall_clock t b seq c.vv (omega arith), lt→ltb _ _ h)
        (Progress-trans {b = c'} first (Same-Progress (announce-Quiet c')))
