-- ===== src/Core/Run.antt =====
-- The core under any sequence of packets, verdicts, finished workers, timers and publications, in
-- any order. A worker reads its job and the wire alone, so it is run where its result arrives.
pub mod Jobs
use ndn_svs.Base.{
  ℕ, zero, suc, ◌+◌, ◌≤◌, ◌≡◌, refl, sym, subst, ◌∙◌, ap, true, false, Option, none, some, List, [],
  ◌∷◌, ◌++◌, arith, Ord, nat_ord, Bool-cases, inl, inr, Option-cases, Result, All, All-append,
  All-map, leb, length,
}
use ndn_svs.Core.State.{
  Core, Wire, Draws, Pool, SyncProcessingJob, ValidationStatus, Stats, Effect, validate, rejected,
  structural_unverified, get_seq_no, verified,
}
use ndn_svs.Core.Send.{retx_sync_interest, post}
use ndn_svs.Core.Receive.{
  on_sync_interest, on_sync_interest_v3, on_sync_interest_validated, post_or_serial,
  on_state_data_valid, on_sync_interest_validated_serial, on_state_data_invalid, processing_worker,
  process_sync_interest_result,
}
use ndn_svs.Core.Publish.{update_own_seq_no, on_publication_sync}
use ndn_svs.Core.Quiet.{send_local_publication-Quiet}
use ndn_svs.Core.Parallel.{outcome, process-serial}
use ndn_svs.Core.Progress.{
  Progress, Same-Progress, serial-Progress, retx-Progress, update_seq_no-Progress,
}

pub data Event (Interest : Type 0) : Type 0 where
  arrives : Interest → Event Interest
  validates : Interest → Event Interest
  refuses : Event Interest
  works : ℕ → Event Interest
  retransmits : Event Interest
  batches : Event Interest
  publishes : Event Interest

-- the k-th element, and the list without it
unfoldable pub pick : {A : Type 0} → ℕ → List A → Option (A × List A)
pick k [] = none
pick zero (x ∷ xs) = some (x, xs)
pick (suc k) (x ∷ xs) = elim (pick k xs) [ none ↦ none | some (y, ys) ↦ some (y, x ∷ ys) ]

abbrev pub jobs :
    {Node Interest : Type 0}
    → Option (Pool (SyncProcessingJob Node Interest))
    → List (SyncProcessingJob Node Interest)
jobs none = []
jobs (some p) = p.queue

abbrev pub with_queue : {Job : Type 0} → List Job → Option (Pool Job) → Option (Pool Job)
with_queue rest none = none
with_queue rest (some p) = some (record p { queue = rest })

module _ {Node Interest Block : Type 0} where
  abbrev pub left :
      List (SyncProcessingJob Node Interest) → Core Node Interest Block → Core Node Interest Block
  left rest c = record c { processing_pool = with_queue rest c.processing_pool }

  -- A job that was taken under the core's generation was taken of the core's vector.
  abbrev pub Current : Core Node Interest Block → SyncProcessingJob Node Interest → Type 0
  Current c j =
      (j.state_generation ≤ c.state_generation)
      × (c.state_generation ≡ j.state_generation → j.local_vector ≡ c.vv)

  pub record Fresh (c : Core Node Interest Block) : Type 0 where
    pub current : All (Current c) (jobs c.processing_pool)

module _ {Node Interest Block : Type 0} ⦃o : Ord Node⦄ (w : Wire Node Interest Block) where
  -- the result of a worker arrives
  unfoldable pub finish :
      Draws
      → Option (SyncProcessingJob Node Interest × List (SyncProcessingJob Node Interest))
      → Core Node Interest Block
      → Core Node Interest Block
  finish d none c = c
  finish d (some (j, rest)) c =
      (process_sync_interest_result w d (processing_worker w d j) (left rest c)).1

  unfoldable pub step : Draws × Event Interest → Core Node Interest Block → Core Node Interest Block
  unfolding finish
  step (d, arrives i) c = (on_sync_interest w d i c).1
  step (d, validates i) c = (on_state_data_valid w d i c).1
  step (d, refuses) c = (on_state_data_invalid w d c).1
  step (d, works k) c = finish d (pick k (jobs c.processing_pool)) c
  step (d, retransmits) c = (retx_sync_interest w d true 0 c).1
  step (d, batches) c = (on_publication_sync w d c).1
  step (d, publishes) c = (update_own_seq_no w d (get_seq_no c none + 1) none c).1

  unfoldable pub run :
      List (Draws × Event Interest) → Core Node Interest Block → Core Node Interest Block
  run [] c = c
  run (e ∷ es) c = run es (step e c)
