-- ===== src/Core/Send.antt =====
-- Sending Sync Interests: serially or through the production workers, and the timer that repeats
-- them. `m_parallelSyncProduction` and its pool are one field: they are set and reset together.
use ndn_svs.Base.{
  ℕ, ◌+◌, ◌*◌, ◌%◌, ◌^◌, Bool, true, false, ◌&&◌, ◌||◌, not, Option, none, some, List, [], ◌∷◌,
  ◌++◌, leb, Ord, nat_ord, ◌==◌, if◌then◌else◌, ok, err, length,
}
use ndn_svs.Base.Action.{Action, ◌>>=◌, ◌>>◌, done, return, lift, gets, modify, swallow}
use ndn_svs.VersionVector.{VersionVector}
use ndn_svs.Core.State.{
  Core, Wire, Draws, Version, v2, v3, null, hmac, other_signer, GetExtra, no_extra, get_extra_block,
  get_extra_blocks, express_interest, Pool, SyncProductionJob, emit, count, merge_state_vector,
}

-- `SyncWorkerPool::post`: whether the job was queued, and the pool after it.
unfoldable pub post : {Job : Type 0} → Pool Job → Job → Bool × Pool Job
post p job =
    if leb p.max_queue_size (length p.queue)
    then (false, p)
    else (true, record p { queue = p.queue ++ job ∷ [] })

abbrev pub is_v2 : Version → Bool
is_v2 v2 = true
is_v2 v3 = false

-- the blocks of the producer callback
unfoldable pub extra_of :
    {Node Block : Type 0} → GetExtra Node Block → VersionVector Node → List Block
extra_of no_extra v = []
extra_of (get_extra_block f) v = f v ∷ []
extra_of (get_extra_blocks f) v = f v

abbrev pub has_extra : {Node Block : Type 0} → GetExtra Node Block → Bool
has_extra no_extra = false
has_extra (get_extra_block f) = true
has_extra (get_extra_blocks f) = true

-- `SyncProductionResult`; `none` is an Interest with no ApplicationParameters.
pub record SyncProductionResult (Node Interest Block : Type 0) : Type 0 where
  pub job : SyncProductionJob Node Block
  pub is_ok : Bool
  pub interest : Option Interest
  pub signed_in_worker : Bool
  pub extra_block_built_in_worker : Bool

module _ {Node Interest Block : Type 0} ⦃o : Ord Node⦄ (w : Wire Node Interest Block) where
  unfoldable pub sign_sync_interest : Interest → Interest
  sign_sync_interest i = elim w.signer_type [
    | null ↦ i
    | hmac ↦ w.hmac_sign i
    | other_signer ↦ w.sign i
  ]

  unfoldable pub send_sync_interest_serial : Action (Core Node Interest Block) (Unit {0})
  unfolding sign_sync_interest extra_of
  send_sync_interest_serial = do
    c ← gets (λ c. c)
    if not c.initialized then done else (do
      interest ← lift (w.encode c.vv (extra_of c.get_extra c.vv))
      emit (express_interest (if is_v2 w.version then sign_sync_interest interest else interest)))

  unfoldable pub send_sync_interest : Action (Core Node Interest Block) (Unit {0})
  unfolding send_sync_interest_serial post
  send_sync_interest = do
    c ← gets (λ c. c)
    if not c.initialized then done else elim c.production_pool [
      | none ↦ send_sync_interest_serial
      | some pool ↦
          let job : SyncProductionJob Node Block = record {
            local_vector = c.vv;
            extra_blocks = if c.production_extra_block then [] else extra_of c.get_extra c.vv;
            state_generation = c.state_generation;
          } in
          let (queued, pool') = post pool job in
          if queued
          then (do
            modify λ c. record c { production_pool = some pool' }
            count λ s. record s { production_submitted = s.production_submitted + 1 })
          else (do
            count λ s. record s { production_dropped = s.production_dropped + 1 }
            send_sync_interest_serial)
    ]

  -- the job of a production worker, with the core's settings and callback
  unfoldable pub production_worker :
      Bool
      → Bool
      → GetExtra Node Block
      → SyncProductionJob Node Block
      → SyncProductionResult Node Interest Block
  unfolding sign_sync_interest extra_of
  production_worker signing extra_block extra job =
      let built = extra_block && has_extra extra in
      let extensions = if built then extra_of extra job.local_vector else job.extra_blocks in
      let sign = signing && is_v2 w.version in
      if is_v2 w.version || signing
      then elim (w.encode job.local_vector extensions) [
        | err e ↦ record {
          job = job;
          is_ok = false;
          interest = none;
          signed_in_worker = false;
          extra_block_built_in_worker = built;
        }
        | ok i ↦ record {
          job = job;
          is_ok = true;
          interest = some (if sign then sign_sync_interest i else i);
          signed_in_worker = sign;
          extra_block_built_in_worker = built;
        }
      ]
      else record {
        job = job;
        is_ok = true;
        interest = none;
        signed_in_worker = false;
        extra_block_built_in_worker = built;
      }

  unfoldable pub process_sync_production_result :
      SyncProductionResult Node Interest Block → Action (Core Node Interest Block) (Unit {0})
  unfolding sign_sync_interest
  process_sync_production_result r =
      if not r.is_ok
      then count (λ s. record s { production_dropped = s.production_dropped + 1 })
      else (do
        c ← gets (λ c. c)
        let stale = not (c.state_generation == r.job.state_generation)
        if stale && not r.extra_block_built_in_worker
            then count (λ s. record s { production_stale = s.production_stale + 1 })
            else (do
              if stale
                  then count (λ s. record s { production_stale = s.production_stale + 1 })
                  else done
              interest ← elim r.interest [
                | none ↦ lift (w.encode r.job.local_vector r.job.extra_blocks)
                | some i ↦ return i
              ]
              emit (
                  express_interest (
                    if not r.signed_in_worker && is_v2 w.version
                    then sign_sync_interest interest
                    else interest))
              count λ s. record s { production_completed = s.production_completed + 1 }))

  module _ (d : Draws) where
    -- store the scheduled time and set the timer; `1000 * delay` is an `unsigned int`
    unfoldable pub schedule_retx : ℕ → Action (Core Node Interest Block) (Unit {0})
    schedule_retx delay = modify λ c. record c {
      next_sync_interest = d.current_time + 1000 * delay % 2 ^ 32;
      retx_event = some delay;
    }

    -- `!m_recordedVv || mergeStateVector(*m_recordedVv).myVectorNew`
    unfoldable pub recorded_is_older :
        Option (VersionVector Node) → Action (Core Node Interest Block) Bool
    unfolding merge_state_vector
    recorded_is_older none = return true
    recorded_is_older (some v) = do r ← merge_state_vector d.wall_clock v; return r.my_vector_new

    unfoldable pub retx_sync_interest : Bool → ℕ → Action (Core Node Interest Block) (Unit {0})
    unfolding schedule_retx recorded_is_older send_sync_interest
    retx_sync_interest send delay = do
      if send
          then (do
            c ← gets (λ c. c)
            newer ← recorded_is_older c.recorded_vv
            if newer then send_sync_interest else done
            modify λ c. record c { recorded_vv = none })
          else done
      schedule_retx (if delay == 0 then d.retx_dist else delay)

    unfoldable pub send_local_publication_sync_interest :
        Action (Core Node Interest Block) (Unit {0})
    unfolding schedule_retx send_sync_interest
    send_local_publication_sync_interest = swallow (do
      modify λ c. record c { recorded_vv = none }
      send_sync_interest
      schedule_retx d.retx_dist)
