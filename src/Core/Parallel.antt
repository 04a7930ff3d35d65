-- ===== src/Core/Parallel.antt =====
-- The parallel handler of a Sync Interest does what the serial one does.
use ndn_svs.Base.{
  ℕ, ◌+◌, ◌≡◌, refl, ◌∙◌, ap, Bool, true, false, none, some, List, [], ◌∷◌, ◌++◌, arith, Ord,
  nat_ord, if◌then◌else◌, Bool-cases, ◌⊎◌, inl, inr, Error, Result, ok, err, ◌==◌, ==_iff,
}
use ndn_svs.Base.Action.{Action, go_on, ◌>>=◌, done}
use ndn_svs.VersionVector.{VersionVector}
use ndn_svs.Core.Merge.{MissingDataInfo, MergeComputation}
use ndn_svs.Core.Merge.Total.{merged, compute_merge_state_vector-total}
use ndn_svs.Core.State.{
  Core, Wire, Draws, Stats, Envelope, SyncProcessingJob, merge_state_vector, recv_block,
  record_vector, count,
}
use ndn_svs.Core.Receive.{
  recv_each, deliver_extensions, report_missing, respond, after_merge,
  on_sync_interest_validated_serial, processing_worker, process_sync_interest_result,
}

abbrev pub no_stats : Stats
no_stats = record {
  jobs_submitted = 0;
  jobs_completed = 0;
  jobs_dropped = 0;
  jobs_stale = 0;
  production_submitted = 0;
  production_completed = 0;
  production_dropped = 0;
  production_stale = 0;
  malformed_envelope = 0;
  signature_policy = 0;
  vector_decode = 0;
}

pub Result-cases :
    {A : Type 0} (r : Result A) → ((a : A) × (r ≡ ok a)) ⊎ ((e : Error) × (r ≡ err e))
Result-cases (ok a) = inl (a, refl)
Result-cases (err e) = inr (e, refl)

module _ {Node Interest Block : Type 0} where
  -- the outcome of a handler, but for the counters
  abbrev pub outcome :
      Result (Unit {0}) × Core Node Interest Block → Result (Unit {0}) × Core Node Interest Block
  outcome (r, c) = (r, record c { stats = no_stats })

  -- `m` neither reads nor writes the counters
  abbrev Blind :
      {A : Type 0} → (Core Node Interest Block → Result A × Core Node Interest Block) → Type 0
  Blind m =
      (c : Core Node Interest Block) (s : Stats)
      → m (record c { stats = s }) ≡ ((m c).0, record ((m c).1) { stats = s })

  go_on-Blind :
      {A B : Type 0} (r : Result A) (f : A → Action (Core Node Interest Block) B)
      (c : Core Node Interest Block) (s : Stats)
      → ((a : A) → Blind (f a))
      → go_on r f (record c { stats = s })
        ≡ ((go_on r f c).0, record ((go_on r f c).1) { stats = s })
  go_on-Blind (ok a) f c s q = q a c s
  go_on-Blind (err e) f c s q = refl

  bind-Blind :
      {A B : Type 0} (m : Action (Core Node Interest Block) A)
      (f : A → Action (Core Node Interest Block) B)
      → Blind m
      → ((a : A) → Blind (f a))
      → Blind (m >>= f)
  bind-Blind m f p q c s = ap (λ x. go_on x.0 f x.1) (p c s) ∙ go_on-Blind (m c).0 f (m c).1 s q

  if-Blind :
      {A : Type 0} (b : Bool) (m n : Action (Core Node Interest Block) A)
      → Blind m
      → Blind n
      → Blind (if b then m else n)
  if-Blind true m n p q = p
  if-Blind false m n p q = q

module _ {Node Interest Block : Type 0} ⦃o : Ord Node⦄ (w : Wire Node Interest Block)
    (d : Draws) where
  recv_each-Blind : (bs : List Block) (v : VersionVector Node) → Blind (recv_each w d bs v)
  unfolding recv_each
  recv_each-Blind [] v c s = refl
  recv_each-Blind (b ∷ bs) v c s =
      recv_each-Blind bs v (record c { effects = c.effects ++ recv_block b v ∷ [] }) s

  deliver_extensions-Blind :
      (bs : List Block) (v : VersionVector Node) → Blind (deliver_extensions w d bs v)
  unfolding deliver_extensions
  deliver_extensions-Blind [] v c s = refl
  deliver_extensions-Blind (b ∷ bs) v c s = ground (arith, recv_each-Blind (b ∷ bs) v c s)

  report_missing-Blind :
      (face : ℕ) (infos : List (MissingDataInfo Node)) → Blind (report_missing w d face infos)
  unfolding report_missing
  report_missing-Blind face [] c s = refl
  report_missing-Blind face (i ∷ infos) c s = refl

  record_vector-Blind :
      (v : VersionVector Node)
      → Blind (record_vector {Interest = Interest} {Block = Block} d.wall_clock v)
  unfolding record_vector
  record_vector-Blind v c s = ground arith

  respond-Blind : (mine : Bool) (v : VersionVector Node) → Blind (respond w d mine v)
  unfolding respond
  respond-Blind mine v c s = ground arith

  after_merge-Blind :
      (face : ℕ) (bs : List Block) (v : VersionVector Node) (mine : Bool)
      (infos : List (MissingDataInfo Node))
      → Blind (after_merge w d face bs v mine infos)
  unfolding after_merge
  after_merge-Blind face bs v mine infos =
      bind-Blind (deliver_extensions w d bs v) _ (deliver_extensions-Blind bs v) (λ _.
        bind-Blind (report_missing w d face infos) _ (report_missing-Blind face infos) λ _.
          bind-Blind (record_vector d.wall_clock v) _ (record_vector-Blind v)
            λ b. if-Blind b done _ (λ c s. refl) (respond-Blind mine v))

  -- the core after a merge, before what follows it
  abbrev pub merged_core : Core Node Interest Block → VersionVector Node → Core Node Interest Block
  merged_core c v =
      let m = merged d.wall_clock c.vv v in
      record c {
        vv = m.merged_vector;
        state_generation =
            if m.other_vector_new then c.state_generation + 1 else c.state_generation;
      }

  -- the serial handler of a packet that decodes
  pub serial-decoded :
      (i : Interest) (c : Core Node Interest Block) (e : Envelope Node Block)
      → w.decode true i ≡ ok e
      → on_sync_interest_validated_serial w d i c
        ≡ after_merge w d
            (w.incoming_face i)
            e.extensions
            e.state_vector
            (merged d.wall_clock c.vv e.state_vector).my_vector_new
            (merged d.wall_clock c.vv e.state_vector).missing_data
            (merged_core c e.state_vector)
  unfolding on_sync_interest_validated_serial merge_state_vector
  serial-decoded i c e h =
      rw (h, on_sync_interest_validated_serial)
        (rw (compute_merge_state_vector-total d.wall_clock c.vv e.state_vector, merge_state_vector))

  pub serial_undecoded :
      (i : Interest) (c : Core Node Interest Block) (x : Error)
      → w.decode true i ≡ err x
      → on_sync_interest_validated_serial w d i c ≡ (
        ok tt,
        record c { stats = record (c.stats) { vector_decode = c.stats.vector_decode + 1 } },
      )
  unfolding on_sync_interest_validated_serial
  serial_undecoded i c x h = rw (h, on_sync_interest_validated_serial)

  counted-outcome :
      (r : Result (Unit {0})) (f : Stats → Stats) (c : Core Node Interest Block)
      → outcome (go_on r (λ _. count f) c) ≡ outcome (r, c)
  counted-outcome (ok a) f c = refl
  counted-outcome (err e) f c = refl

  serial-stats :
      (i : Interest) (c : Core Node Interest Block) (s : Stats)
      → outcome (on_sync_interest_validated_serial w d i (record c { stats = s }))
        ≡ outcome (on_sync_interest_validated_serial w d i c)
  serial-stats i c s = elim (Result-cases (w.decode true i)) [
    | inl (e, h) ↦
        let v = e.state_vector in
        let m = merged d.wall_clock c.vv v in
        rw (serial-decoded i c e h, serial-decoded i (record c { stats = s }) e h)
          (ap outcome (
            after_merge-Blind (w.incoming_face i) e.extensions v m.my_vector_new m.missing_data
              (merged_core c v) s))
    | inr (x, h) ↦ rw (serial_undecoded i c x h, serial_undecoded i (record c { stats = s }) x h)
  ]

  worker-decoded :
      (job : SyncProcessingJob Node Interest) (e : Envelope Node Block)
      → w.decode true job.interest ≡ ok e
      → processing_worker w d job ≡ record {
        job = job;
        decoded = some (e, merged d.wall_clock job.local_vector e.state_vector);
      }
  unfolding processing_worker
  worker-decoded job e h =
      rw (h, processing_worker)
        (rw (
          compute_merge_state_vector-total d.wall_clock job.local_vector e.state_vector,
          processing_worker,
        ))

  worker_undecoded :
      (job : SyncProcessingJob Node Interest) (x : Error)
      → w.decode true job.interest ≡ err x
      → processing_worker w d job ≡ record { job = job; decoded = none }
  unfolding processing_worker
  worker_undecoded job x h = rw (h, processing_worker)

  -- the counters after a result that was up to date
  abbrev completed : Stats → Stats
  completed s = record s { jobs_completed = s.jobs_completed + 1 }

  process_current :
      (job : SyncProcessingJob Node Interest) (e : Envelope Node Block) (m : MergeComputation Node)
      (c : Core Node Interest Block)
      → (c.state_generation == job.state_generation) ≡ true
      → process_sync_interest_result w d (record { job = job; decoded = some (e, m) }) c
        ≡ (after_merge w d
                (w.incoming_face job.interest)
                e.extensions
                e.state_vector
                m.my_vector_new
                m.missing_data
              >>= λ _. count completed)
            (record c {
              vv = m.merged_vector;
              state_generation =
                  if m.other_vector_new then c.state_generation + 1 else c.state_generation;
            })
  unfolding process_sync_interest_result
  process_current job e m c h = rw (h, if◌then◌else◌)

  process_stale :
      (job : SyncProcessingJob Node Interest) (e : Envelope Node Block) (m : MergeComputation Node)
      (c : Core Node Interest Block)
      → (c.state_generation == job.state_generation) ≡ false
      → process_sync_interest_result w d (record { job = job; decoded = some (e, m) }) c
        ≡ on_sync_interest_validated_serial w d job.interest
            (record c { stats = record (c.stats) { jobs_stale = c.stats.jobs_stale + 1 } })
  unfolding process_sync_interest_result
  process_stale job e m c h = rw (h, if◌then◌else◌)

  -- Unless the job is out of date with no change of the generation, the result of a worker ends as
  -- the serial handler does on the packet, but for the counters.
  pub process-serial :
      (job : SyncProcessingJob Node Interest) (c : Core Node Interest Block)
      → (c.state_generation ≡ job.state_generation → job.local_vector ≡ c.vv)
      → outcome (process_sync_interest_result w d (processing_worker w d job) c)
        ≡ outcome (on_sync_interest_validated_serial w d job.interest c)
  unfolding process_sync_interest_result
  process-serial job c same = elim (Result-cases (w.decode true job.interest)) [
    | inl (e, h) ↦ elim (Bool-cases (c.state_generation == job.state_generation)) [
      | inl now ↦
          let v = e.state_vector in
          let m = merged d.wall_clock c.vv v in
          let r =
            after_merge w d (w.incoming_face job.interest) e.extensions v m.my_vector_new
              m.missing_data (merged_core c v) in
          rw
            (
              worker-decoded job e h,
              process_current job e _ c now,
              serial-decoded job.interest c e h,
            )
            (rw (same ((==_iff _ _).0 now)) (counted-outcome r.0 completed r.1))
      | inr late ↦
          rw (worker-decoded job e h, process_stale job e _ c late)
            (serial-stats job.interest c (record (c.stats) { jobs_stale = c.stats.jobs_stale + 1 }))
    ]
    | inr (x, h) ↦ rw (serial_undecoded job.interest c x h, worker_undecoded job x h)
  ]
