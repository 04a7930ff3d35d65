-- ===== src/Core/Receive.antt =====
-- Receiving Sync Interests: validation, the serial handler, and the parallel one with its workers.
-- Callbacks do not throw. `m_validationGate` without an owner is a core that is no more.
use ndn_svs.Base.{
  ℕ, ◌+◌, ◌*◌, Bool, true, false, not, Option, none, some, List, [], ◌∷◌, ltb, Ord, nat_ord, ◌==◌,
  if◌then◌else◌, ok, err,
}
use ndn_svs.Base.Action.{Action, ◌>>=◌, ◌>>◌, done, gets, modify}
use ndn_svs.VersionVector.{VersionVector}
use ndn_svs.Core.Merge.{MissingDataInfo, MergeComputation, compute_merge_state_vector}
use ndn_svs.Core.State.{
  Core, Wire, Draws, Envelope, v2, v3, verified, structural_unverified, rejected, null, hmac,
  other_signer, no_recv, recv_extra_block, recv_extra_blocks, on_update, recv_block, recv_blocks,
  validate, Pool, SyncProcessingJob, emit, count, merge_state_vector, record_vector,
  enter_suppression_state,
}
use ndn_svs.Core.Send.{post, retx_sync_interest}

-- `SyncProcessingResult`; `none` is a result that is not ok.
pub record SyncProcessingResult (Node Interest Block : Type 0) : Type 0 where
  pub job : SyncProcessingJob Node Interest
  pub decoded : Option (Envelope Node Block × MergeComputation Node)

-- `for (auto& e : missing) e.incomingFace = incomingFace;`
abbrev pub from_face :
    {Node : Type 0} → ℕ → List (MissingDataInfo Node) → List (MissingDataInfo Node)
from_face face [] = []
from_face face (info ∷ infos) = record info { incoming_face = face } ∷ from_face face infos

module _ {Node Interest Block : Type 0} ⦃o : Ord Node⦄ (w : Wire Node Interest Block)
    (d : Draws) where
  -- the loop over the extensions for the callback of one block
  unfoldable pub recv_each :
      List Block → VersionVector Node → Action (Core Node Interest Block) (Unit {0})
  recv_each [] v = done
  recv_each (b ∷ bs) v = do emit (recv_block b v); recv_each bs v

  unfoldable pub deliver_extensions :
      List Block → VersionVector Node → Action (Core Node Interest Block) (Unit {0})
  unfolding recv_each
  deliver_extensions [] v = done
  deliver_extensions (b ∷ bs) v = do
    c ← gets (λ c. c)
    elim c.recv_extra [
      | no_recv ↦ done
      | recv_extra_block ↦ recv_each (b ∷ bs) v
      | recv_extra_blocks ↦ emit (recv_blocks (b ∷ bs) v)
    ]

  unfoldable pub report_missing :
      ℕ → List (MissingDataInfo Node) → Action (Core Node Interest Block) (Unit {0})
  report_missing face [] = done
  report_missing face (info ∷ infos) = emit (on_update (from_face face (info ∷ infos)))

  -- "If incoming state identical/newer to local vector, reset timer; if incoming state is older,
  -- send sync interest" soon, unless others do
  unfoldable pub respond : Bool → VersionVector Node → Action (Core Node Interest Block) (Unit {0})
  unfolding enter_suppression_state retx_sync_interest
  respond false v = retx_sync_interest w d false 0
  respond true v = do
    enter_suppression_state v
    c ← gets (λ c. c)
    let delay = w.suppression_curve c.max_suppression_time d.reply_dist
    if ltb (d.current_time + delay * 1000) c.next_sync_interest
        then retx_sync_interest w d false delay
        else done

  -- what follows the merge in both modes: whether the vector was only recorded
  unfoldable pub after_merge :
      ℕ
      → List Block
      → VersionVector Node
      → Bool
      → List (MissingDataInfo Node)
      → Action (Core Node Interest Block) (Unit {0})
  unfolding deliver_extensions report_missing respond record_vector
  after_merge face extensions v my_vector_new missing = do
    deliver_extensions extensions v
    report_missing face missing
    was_recorded ← record_vector d.wall_clock v
    if was_recorded then done else respond my_vector_new v

  unfoldable pub on_sync_interest_validated_serial :
      Interest → Action (Core Node Interest Block) (Unit {0})
  unfolding after_merge merge_state_vector
  on_sync_interest_validated_serial i = elim (w.decode true i) [
    | err e ↦ count λ s. record s { vector_decode = s.vector_decode + 1 }
    | ok envelope ↦ do
      r ← merge_state_vector d.wall_clock envelope.state_vector
      after_merge (w.incoming_face i) envelope.extensions envelope.state_vector r.my_vector_new
          r.missing_info
  ]

  -- the job of a processing worker
  unfoldable pub processing_worker :
      SyncProcessingJob Node Interest → SyncProcessingResult Node Interest Block
  processing_worker job = record {
    job = job;
    decoded = elim (w.decode true job.interest) [
      | err e ↦ none
      | ok envelope ↦
          elim (compute_merge_state_vector d.wall_clock job.local_vector envelope.state_vector) [
            | err e ↦ none
            | ok m ↦ some (envelope, m)
          ]
    ];
  }

  unfoldable pub process_sync_interest_result :
      SyncProcessingResult Node Interest Block → Action (Core Node Interest Block) (Unit {0})
  unfolding after_merge on_sync_interest_validated_serial
  process_sync_interest_result r = elim r.decoded [
    | none ↦ count λ s. record s { vector_decode = s.vector_decode + 1 }
    | some (envelope, m) ↦ do
      c ← gets (λ c. c)
      if not (c.state_generation == r.job.state_generation)
          then (do
            count λ s. record s { jobs_stale = s.jobs_stale + 1 }
            on_sync_interest_validated_serial r.job.interest)
          else (do
            modify λ c. record c {
              vv = m.merged_vector;
              state_generation =
                  if m.other_vector_new then c.state_generation + 1 else c.state_generation;
            }
            after_merge (w.incoming_face r.job.interest) envelope.extensions envelope.state_vector
                m.my_vector_new m.missing_data
            count λ s. record s { jobs_completed = s.jobs_completed + 1 })
  ]

  -- post the job to the pool, if there is one
  unfoldable pub post_or_serial :
      Option (Pool (SyncProcessingJob Node Interest))
      → Interest
      → Action (Core Node Interest Block) (Unit {0})
  unfolding on_sync_interest_validated_serial post
  post_or_serial none i = on_sync_interest_validated_serial i
  post_or_serial (some pool) i = do
    c ← gets (λ c. c)
    let posted =
        post pool
          (record { interest = i; local_vector = c.vv; state_generation = c.state_generation })
    if posted.0
        then (do
          modify λ c. record c { processing_pool = some posted.1 }
          count λ s. record s { jobs_submitted = s.jobs_submitted + 1 })
        else (do
          count λ s. record s { jobs_dropped = s.jobs_dropped + 1 }
          on_sync_interest_validated_serial i)

  unfoldable pub on_sync_interest_validated :
      Interest → Action (Core Node Interest Block) (Unit {0})
  unfolding post_or_serial
  on_sync_interest_validated i = do c ← gets (λ c. c); post_or_serial c.processing_pool i

  -- the callbacks that the validator is given for the State Vector Data
  unfoldable pub on_state_data_valid : Interest → Action (Core Node Interest Block) (Unit {0})
  on_state_data_valid i = do
    modify λ c. record c { last_validation_status = verified }
    on_sync_interest_validated i

  unfoldable pub on_state_data_invalid : Action (Core Node Interest Block) (Unit {0})
  on_state_data_invalid = do
    modify λ c. record c { last_validation_status = rejected }
    count λ s. record s { signature_policy = s.signature_policy + 1 }

  unfoldable pub on_sync_interest_v3 : Interest → Action (Core Node Interest Block) (Unit {0})
  on_sync_interest_v3 i = elim (w.decode false i) [
    | err e ↦ do
      modify λ c. record c { last_validation_status = rejected }
      count λ s. record s { malformed_envelope = s.malformed_envelope + 1 }
    | ok envelope ↦ do
      c ← gets (λ c. c)
      if not envelope.has_state_data
          then modify (λ c. record c { last_validation_status = rejected })
          else (if c.has_validator then emit (validate i) else (do
            modify λ c. record c { last_validation_status = structural_unverified }
            on_sync_interest_validated i))
  ]

  unfoldable pub on_sync_interest : Interest → Action (Core Node Interest Block) (Unit {0})
  on_sync_interest i = elim w.version [
    | v3 ↦ on_sync_interest_v3 i
    | v2 ↦ elim w.signer_type [
      | null ↦ on_sync_interest_validated i
      | hmac ↦ if w.hmac_valid i then on_sync_interest_validated i else done
      | other_signer ↦ do
        c ← gets (λ c. c)
        if c.has_validator then emit (validate i) else on_sync_interest_validated i
    ]
  ]
