-- ===== src/Examples/Cores.antt =====
-- The theorems on the core, with packets that are their vectors.
use ndn_svs.Base.{
  if◌then◌else◌, ltb, ℕ, ◌≤◌, ◌≡◌, refl, max, true, false, Option, none, some, List, [], ◌∷◌,
  nat_ord, ok, arith,
}
use ndn_svs.Base.OrdMap.{find, insert}
use ndn_svs.VersionVector.{VersionVector, store, get, get_entries, refresh_latest}
use ndn_svs.Core.State.{
  Core, Wire, Draws, Version, v2, v3, null, never, no_extra, get_extra_block, no_recv,
  SyncProcessingJob, SyncProductionJob, Pool, express_interest, record_vector,
}
use ndn_svs.Core.Send.{production_worker, process_sync_production_result}
use ndn_svs.Core.Receive.{respond, on_sync_interest_validated_serial}
use ndn_svs.Core.Publish.{update_seq_no}
use ndn_svs.Core.Parallel.{no_stats}
use ndn_svs.Core.Run.{Event, arrives, run}
use ndn_svs.Core.Reception.{exchange_converges}
use ndn_svs.Core.Suppression.{record_vector-records, respond_without_delay}
use ndn_svs.Core.Announcement.{update_seq_no-lower, production_drops_extra_blocks}
use ndn_svs.Examples.{one, two, one-IsValid, two-IsValid}

-- a packet is a vector with its extensions
abbrev Sample : Type 0
Sample = VersionVector ℕ × List ℕ

abbrev sample_wire : Version → Wire ℕ Sample ℕ
sample_wire version = record {
  version = version;
  signer_type = null;
  decode = λ b i. ok (record { state_vector = i.0; extensions = i.1; has_state_data = true });
  encode = λ v x. ok (v, x);
  hmac_sign = λ i. i;
  sign = λ i. i;
  hmac_valid = λ i. true;
  incoming_face = λ i. 3;
  suppression_curve = λ c x. 0;
}

abbrev sample_draws : Draws
sample_draws = record { wall_clock = 5; current_time = 10; retx_dist = 30; reply_dist = 2 }

-- a core of node 1, at one vector, without workers for production
abbrev core_at : VersionVector ℕ → Option (Pool (SyncProcessingJob ℕ Sample)) → Core ℕ Sample ℕ
core_at v pool = record {
  id = 1;
  bootstrap_time = 7;
  has_validator = false;
  get_extra = no_extra;
  recv_extra = no_recv;
  max_suppression_time = 200;
  vv = v;
  state_generation = 4;
  recorded_vv = none;
  next_sync_interest = 1000;
  retx_event = none;
  publication_sync_event = none;
  publication_sync_pending = false;
  initialized = true;
  sync_interest_batching = false;
  batch_window = 0;
  processing_pool = pool;
  production_pool = none;
  production_signing = false;
  production_extra_block = false;
  last_validation_status = never;
  stats = no_stats;
  effects = [];
}

abbrev quiet_core : Core ℕ Sample ℕ
quiet_core = core_at two none

abbrev pooled_core : Core ℕ Sample ℕ
pooled_core = core_at two (some (record { queue = []; max_queue_size = 4 }))

abbrev arrival : List (Draws × Event Sample)
arrival = (sample_draws, arrives (one, [])) ∷ []

-- the job that the packet of `arrival` is put into
abbrev sample_job : SyncProcessingJob ℕ Sample
sample_job = record { interest = (one, []); local_vector = two; state_generation = 4 }

abbrev queued_core : Core ℕ Sample ℕ
queued_core = run (sample_wire v2) arrival pooled_core

-- the codec puts its own time stamp on the vectors that it decodes
abbrev stamped_wire : Wire ℕ Sample ℕ
stamped_wire = record (sample_wire v2) {
  decode = λ b i. ok (record {
    state_vector = record i.0 { last_update = ((1, 77)) ∷ [] };
    extensions = i.1;
    has_state_data = true;
  });
}

exchange_converges_example :
    (on_sync_interest_validated_serial stamped_wire sample_draws
      (one, [])
      (core_at two none)).1.vv.entries
    ≡ (on_sync_interest_validated_serial stamped_wire sample_draws
        (two, [])
        (core_at one none)).1.vv.entries
exchange_converges_example =
    exchange_converges stamped_wire stamped_wire sample_draws sample_draws (two, []) (one, [])
      (core_at two none) (core_at one none)
      (record {
        state_vector = record two { last_update = ((1, 77)) ∷ [] };
        extensions = [];
        has_state_data = true;
      })
      (record {
        state_vector = record one { last_update = ((1, 77)) ∷ [] };
        extensions = [];
        has_state_data = true;
      })
      refl refl refl refl two-IsValid one-IsValid

record_vector-records_example :
    (v : VersionVector ℕ) × (record_vector 5 one (record quiet_core { recorded_vv = some two })
      ≡ (ok true, record quiet_core { recorded_vv = some v }))
    × ((n b : ℕ) → get v n b ≡ max (get two n b) (get one n b))
record_vector-records_example =
    record_vector-records 5 (record quiet_core { recorded_vv = some two }) two one refl one-IsValid

respond_without_delay_example :
    let answer = (respond (sample_wire v2) sample_draws true one quiet_core).1 in
    let calm = (respond (sample_wire v2) sample_draws false one quiet_core).1 in
    (answer.retx_event ≡ (if ltb 10 quiet_core.next_sync_interest then calm.retx_event else none))
    × (answer.next_sync_interest ≡ (
        if ltb 10 quiet_core.next_sync_interest
        then calm.next_sync_interest
        else quiet_core.next_sync_interest))
    × (answer.effects ≡ [])
respond_without_delay_example =
    respond_without_delay (sample_wire v2) sample_draws quiet_core one refl

two_above : 4 ≤ get two 1 8
unfolding get store get_entries refresh_latest find insert
two_above = omega arith

update_seq_no-lower_example :
    let r = update_seq_no (sample_wire v2) sample_draws 4 8 none quiet_core in
    (r.0 ≡ ok tt) × (get r.1.vv 1 8 ≡ 4) × (r.1.state_generation ≡ 4) × (r.1.effects ≡ [])
update_seq_no-lower_example =
    update_seq_no-lower (sample_wire v2) sample_draws 4 8 none quiet_core (omega arith) two_above

abbrev bare_job : SyncProductionJob ℕ ℕ
bare_job = record { local_vector = two; extra_blocks = []; state_generation = 4 }

production_drops_extra_blocks_example :
    (process_sync_production_result
      (sample_wire v3)
      (production_worker (sample_wire v3) false true (get_extra_block (λ v. 6)) bare_job)
      quiet_core).1.effects
    ≡ express_interest (two, []) ∷ []
production_drops_extra_blocks_example =
    production_drops_extra_blocks (sample_wire v3) sample_draws (get_extra_block (λ v. 6)) bare_job
      quiet_core (two, []) refl refl refl refl
