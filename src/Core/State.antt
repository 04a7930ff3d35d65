-- ===== src/Core/State.antt =====
-- The state of `SVSyncCore`, and the steps on its vectors.
--
-- What the core asks of the code around it is the record `Wire`: the packet codec with its
-- signatures. Callbacks into the application are effects, in the order in which they are made. A
-- draw from a random distribution and a reading of a clock are fields of `Draws`. Counters of
-- milliseconds are not kept.
use ndn_svs.Base.{
  ℕ, ◌+◌, Bool, true, false, Option, none, some, List, [], ◌∷◌, ◌++◌, ltb, Ord, nat_ord, ◌==◌,
  if◌then◌else◌, Result, ok,
}
use ndn_svs.Base.OrdMap.{OrdMap}
use ndn_svs.Base.Results
use ndn_svs.Base.Action.{Action, ◌>>=◌, ◌>>◌, return, lift, gets, modify}
use ndn_svs.VersionVector.{VersionVector, set, get, get_latest}
use ndn_svs.Core.Merge.{MissingDataInfo, compute_merge_state_vector}

pub data Version : Type 0 where
  v2 v3 : Version

-- `SVSyncCore::ValidationStatus`
pub data ValidationStatus : Type 0 where
  never verified structural_unverified rejected : ValidationStatus

-- `getSignerType()` of the Interest signer
pub data SignerType : Type 0 where
  null hmac other_signer : SignerType

-- The result of `SyncProtocolCodec::decode`, with whether it holds State Vector Data.
pub record Envelope (Node Block : Type 0) : Type 0 where
  pub state_vector : VersionVector Node
  pub extensions : List Block
  pub has_state_data : Bool

-- The codec as a node uses it. `decode` and `encode` stand for `SyncProtocolCodec` at one reading of
-- the clock: of the time stamps that a decoded vector carries no theorem assumes anything.
pub record Wire (Node Interest Block : Type 0) : Type 0 where
  pub version : Version
  pub signer_type : SignerType
  pub decode : Bool → Interest → Result (Envelope Node Block)
  pub encode : VersionVector Node → List Block → Result Interest
  pub hmac_sign : Interest → Interest
  pub sign : Interest → Interest
  pub hmac_valid : Interest → Bool
  pub incoming_face : Interest → ℕ
  pub suppression_curve : ℕ → ℕ → ℕ

-- One reading of the clocks and the random numbers for a call.
pub record Draws : Type 0 where
  pub wall_clock : ℕ
  pub current_time : ℕ
  pub retx_dist : ℕ
  pub reply_dist : ℕ

-- the producer callback, of one block or of a collection
pub data GetExtra (Node Block : Type 0) : Type 0 where
  no_extra : GetExtra Node Block
  get_extra_block : (VersionVector Node → Block) → GetExtra Node Block
  get_extra_blocks : (VersionVector Node → List Block) → GetExtra Node Block

-- which receiver callback is set
pub data RecvExtra : Type 0 where
  no_recv recv_extra_block recv_extra_blocks : RecvExtra

pub data Effect (Node Interest Block : Type 0) : Type 0 where
  express_interest : Interest → Effect Node Interest Block
  on_update : List (MissingDataInfo Node) → Effect Node Interest Block
  recv_block : Block → VersionVector Node → Effect Node Interest Block
  recv_blocks : List Block → VersionVector Node → Effect Node Interest Block
  validate : Interest → Effect Node Interest Block

-- `SyncProcessingJob`
pub record SyncProcessingJob (Node Interest : Type 0) : Type 0 where
  pub interest : Interest
  pub local_vector : VersionVector Node
  pub state_generation : ℕ

-- `SyncProductionJob`
pub record SyncProductionJob (Node Block : Type 0) : Type 0 where
  pub local_vector : VersionVector Node
  pub extra_blocks : List Block
  pub state_generation : ℕ

-- the counters of `SyncProcessingStats` and `SyncRejectionStats` that count events
pub record Stats : Type 0 where
  pub jobs_submitted : ℕ
  pub jobs_completed : ℕ
  pub jobs_dropped : ℕ
  pub jobs_stale : ℕ
  pub production_submitted : ℕ
  pub production_completed : ℕ
  pub production_dropped : ℕ
  pub production_stale : ℕ
  pub malformed_envelope : ℕ
  pub signature_policy : ℕ
  pub vector_decode : ℕ

-- A `SyncWorkerPool`: the queue in front of the workers.
pub record Pool (Job : Type 0) : Type 0 where
  pub queue : List Job
  pub max_queue_size : ℕ

pub record Core (Node Interest Block : Type 0) : Type 0 where
  pub id : Node
  pub bootstrap_time : ℕ
  pub has_validator : Bool
  pub get_extra : GetExtra Node Block
  pub recv_extra : RecvExtra
  pub max_suppression_time : ℕ
  pub vv : VersionVector Node
  pub state_generation : ℕ
  pub recorded_vv : Option (VersionVector Node)
  pub next_sync_interest : ℕ
  pub retx_event : Option ℕ
  pub publication_sync_event : Option ℕ
  pub publication_sync_pending : Bool
  pub initialized : Bool
  pub sync_interest_batching : Bool
  pub batch_window : ℕ
  pub processing_pool : Option (Pool (SyncProcessingJob Node Interest))
  pub production_pool : Option (Pool (SyncProductionJob Node Block))
  pub production_signing : Bool
  pub production_extra_block : Bool
  pub last_validation_status : ValidationStatus
  pub stats : Stats
  pub effects : List (Effect Node Interest Block)

-- `MergeResult`
pub record MergeResult (Node : Type 0) : Type 0 where
  pub my_vector_new : Bool
  pub other_vector_new : Bool
  pub missing_info : List (MissingDataInfo Node)

-- the bodies of the loops of `recordVector`
module _ {Node : Type 0} ⦃o : Ord Node⦄ (now : ℕ) where
  unfoldable pub record_session :
      Node → OrdMap ℕ ℕ → VersionVector Node → Result (VersionVector Node)
  record_session nid [] v = ok v
  record_session nid ((bootstrap_time, seq_other) ∷ seqs) v =
      Results.◌>>=◌
        (if ltb (get v nid bootstrap_time) seq_other
          then set now nid bootstrap_time seq_other v
          else ok v)
        (record_session nid seqs)

  unfoldable pub record_entries :
      OrdMap Node (OrdMap ℕ ℕ) → VersionVector Node → Result (VersionVector Node)
  unfolding record_session
  record_entries [] v = ok v
  record_entries ((nid, seqs) ∷ entries) v =
      Results.◌>>=◌ (record_session nid seqs v) (record_entries entries)

module _ {Node Interest Block : Type 0} ⦃o : Ord Node⦄ where
  abbrev pub emit : Effect Node Interest Block → Action (Core Node Interest Block) (Unit {0})
  emit e = modify λ c. record c { effects = c.effects ++ e ∷ [] }

  abbrev pub count : (Stats → Stats) → Action (Core Node Interest Block) (Unit {0})
  count f = modify λ c. record c { stats = f c.stats }

  unfoldable pub merge_state_vector :
      ℕ → VersionVector Node → Action (Core Node Interest Block) (MergeResult Node)
  merge_state_vector now other = do
    local ← gets (λ c. c.vv)
    r ← lift (compute_merge_state_vector now local other)
    modify λ c. record c {
      vv = r.merged_vector;
      state_generation = if r.other_vector_new then c.state_generation + 1 else c.state_generation;
    }
    return (record {
      my_vector_new = r.my_vector_new;
      other_vector_new = r.other_vector_new;
      missing_info = r.missing_data;
    })

  -- An exception of `set` would leave the vector half written; it is never thrown.
  unfoldable pub record_into :
      Option (VersionVector Node) → ℕ → VersionVector Node → Action (Core Node Interest Block) Bool
  unfolding record_entries
  record_into none now received = return false
  record_into (some v) now received = do
    v' ← lift (record_entries now received.entries v)
    modify λ c. record c { recorded_vv = some v' }
    return true

  unfoldable pub record_vector : ℕ → VersionVector Node → Action (Core Node Interest Block) Bool
  unfolding record_into
  record_vector now received = do c ← gets (λ c. c); record_into c.recorded_vv now received

  unfoldable pub enter_suppression_state :
      VersionVector Node → Action (Core Node Interest Block) (Unit {0})
  enter_suppression_state other =
      modify λ c. elim c.recorded_vv [ none ↦ record c { recorded_vv = some other } | some v ↦ c ]

  -- `EMPTY_NODE_ID` is `none`.
  abbrev pub or_self : Core Node Interest Block → Option Node → Node
  or_self c none = c.id
  or_self c (some nid) = nid

  unfoldable pub get_seq_no : Core Node Interest Block → Option Node → ℕ
  get_seq_no c nid =
      let t_nid = or_self c nid in
      if t_nid == c.id then get c.vv t_nid c.bootstrap_time else get_latest c.vv t_nid
