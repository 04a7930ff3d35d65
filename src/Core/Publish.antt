-- ===== src/Core/Publish.antt =====
-- Local publications, the batching of their Sync Interests, and the settings of the core.
-- `m_localPublicationSyncHook` is a test hook, and not set.
use ndn_svs.Base.{
  ℕ, ◌+◌, Bool, true, false, not, Option, none, some, ltb, Ord, nat_ord, max, if◌then◌else◌, [],
}
use ndn_svs.Base.Action.{Action, ◌>>=◌, ◌>>◌, done, lift, gets, modify, swallow}
use ndn_svs.VersionVector.{set, get}
use ndn_svs.Core.State.{Core, Wire, Draws, or_self}
use ndn_svs.Core.Send.{retx_sync_interest, send_local_publication_sync_interest}

module _ {Node Interest Block : Type 0} ⦃o : Ord Node⦄ where
  unfoldable pub schedule_publication_sync : Action (Core Node Interest Block) (Unit {0})
  schedule_publication_sync = modify λ c. if c.publication_sync_pending then c else record c {
    publication_sync_pending = true;
    publication_sync_event = some c.batch_window;
  }

  unfoldable pub set_sync_interest_batching :
      Bool → ℕ → Action (Core Node Interest Block) (Unit {0})
  set_sync_interest_batching enabled window = modify λ c.
      let c' = record c { sync_interest_batching = enabled; batch_window = window } in
      if enabled
      then c'
      else record c' { publication_sync_pending = false; publication_sync_event = none }

  -- a negative delay, which is set to 0, is not a ℕ
  unfoldable pub set_max_suppression_time : ℕ → Action (Core Node Interest Block) (Unit {0})
  set_max_suppression_time delay = modify λ c. record c { max_suppression_time = delay }

  -- `shutdown` runs the jobs that are queued, and their results are dropped; so is the queue here.
  unfoldable pub set_parallel_sync_processing :
      Bool → ℕ → Action (Core Node Interest Block) (Unit {0})
  set_parallel_sync_processing enabled max_queue_size = modify λ c.
      if not enabled then record c { processing_pool = none } else elim c.processing_pool [
        | none ↦ record c {
          processing_pool = some (record { queue = []; max_queue_size = max 1 max_queue_size });
        }
        | some pool ↦ c
      ]

  unfoldable pub set_parallel_sync_production :
      Bool → ℕ → Bool → Bool → Action (Core Node Interest Block) (Unit {0})
  set_parallel_sync_production enabled max_queue_size sign extra_block = modify λ c.
      if not enabled
      then record c {
        production_pool = none;
        production_signing = false;
        production_extra_block = false;
      }
      else record c {
        production_pool = elim c.production_pool [
          | none ↦ some (record { queue = []; max_queue_size = max 1 max_queue_size })
          | some pool ↦ some pool
        ];
        production_signing = sign;
        production_extra_block = extra_block;
      }

module _ {Node Interest Block : Type 0} ⦃o : Ord Node⦄ (w : Wire Node Interest Block)
    (d : Draws) where
  -- the timer of `sendInitialInterest`
  unfoldable pub send_initial_interest : Action (Core Node Interest Block) (Unit {0})
  unfolding retx_sync_interest
  send_initial_interest = do
    modify λ c. record c { initialized = true }
    retx_sync_interest w d true 0

  -- the timer of `schedulePublicationSync`
  unfoldable pub on_publication_sync : Action (Core Node Interest Block) (Unit {0})
  unfolding send_local_publication_sync_interest
  on_publication_sync = do
    modify λ c. record c { publication_sync_pending = false; publication_sync_event = none }
    send_local_publication_sync_interest w d

  -- the `try` block of `updateSeqNo`
  unfoldable pub announce : Action (Core Node Interest Block) (Unit {0})
  unfolding send_local_publication_sync_interest schedule_publication_sync
  announce = do
    c ← gets (λ c. c)
    swallow (
        if c.sync_interest_batching
        then schedule_publication_sync
        else send_local_publication_sync_interest w d)

  unfoldable pub update_seq_no : ℕ → ℕ → Option Node → Action (Core Node Interest Block) (Unit {0})
  unfolding announce
  update_seq_no seq bootstrap_time nid = do
    c ← gets (λ c. c)
    let t_nid = or_self c nid
    let prev = get c.vv t_nid bootstrap_time
    v ← lift (set d.wall_clock t_nid bootstrap_time seq c.vv)
    modify λ c. record c {
      vv = v;
      state_generation = if ltb prev seq then c.state_generation + 1 else c.state_generation;
    }
    if ltb prev seq then announce else done

  -- the overload with the core's own bootstrap time
  unfoldable pub update_own_seq_no : ℕ → Option Node → Action (Core Node Interest Block) (Unit {0})
  unfolding update_seq_no
  update_own_seq_no seq nid = do
    c ← gets (λ c. c)
    update_seq_no seq c.bootstrap_time (some (or_self c nid))
