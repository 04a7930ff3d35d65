-- ===== src/Examples/Commits.antt =====
-- The theorems on the numbers and the commits of publications.
use ndn_svs.Base.{
  length, ◌≤◌, elem, arith, suc, ◌+◌, ℕ, ◌≡◌, inl, refl, true, false, none, some, List, [], ◌∷◌, ok,
  err, Error, nat_ord,
}
use ndn_svs.Base.OrdMap.{find}
use ndn_svs.VersionVector.{empty, get, get_latest}
use ndn_svs.Core.State.{Core, Wire, v3, null, no_extra, no_recv, never, Stats, get_seq_no}
use ndn_svs.Fetcher.{Fetcher}
use ndn_svs.PubSub.State.{PreparedPublication, PubSub, Env, bytes}
use ndn_svs.PubSub.Publish.{publish_name, publish_async}
use ndn_svs.PubSub.Commit.{commit_rounds, commit_ready_prepared_publications}
use ndn_svs.PubSub.Delivered.{Delivered, IsListed, remember_delivered, remember_delivered-IsListed}
use ndn_svs.PubSub.Ends.{count_two, commit_rounds-enough}
use ndn_svs.PubSub.Stuck.{Event, run, IsIdle, publish_name_stalls}
use ndn_svs.PubSub.Reserve.{TakesNumber, publish_async-TakesNumber}
use ndn_svs.Examples.Mappings.{name_ord, compare_names, sample_components}
use ndn_svs.Examples.Publications.{SampleData, sample_packets, sample_markers}
use ndn_svs.Examples.Segments.{Memory, sample_store, nothing_stored}

abbrev sample_wire : Wire (List ℕ) ℕ ℕ
sample_wire = record {
  version = v3;
  signer_type = null;
  decode = λ b i. err Error.tlv_error;
  encode = λ v blocks. ok 0;
  hmac_sign = λ i. i;
  sign = λ i. i;
  hmac_valid = λ i. true;
  incoming_face = λ i. 0;
  suppression_curve = λ a b. b;
}

abbrev sample_env : Env ℕ SampleData ℕ ℕ Memory
sample_env = record {
  packets = sample_packets;
  markers = sample_markers;
  components = sample_components;
  store = sample_store;
  wire = sample_wire;
  draws = record { wall_clock = 5; current_time = 10; retx_dist = 30; reply_dist = 2 };
  timestamp_block = 0;
}

abbrev no_stats : Stats
no_stats = record {
  jobs_submitted = 0;
  jobs_completed = 0;
  jobs_dropped = 0;
  jobs_stale = 0;
  production_submitted = 0;
  production_completed = 0;
  production_dropped = 0;
  production_stale = 0;
  malformed_envelope = 0;
  signature_policy = 0;
  vector_decode = 0;
}

abbrev sample_core : Core (List ℕ) ℕ ℕ
sample_core = record {
  id = 1 ∷ [];
  bootstrap_time = 7;
  has_validator = false;
  get_extra = no_extra;
  recv_extra = no_recv;
  max_suppression_time = 200;
  vv = empty;
  state_generation = 0;
  recorded_vv = none;
  next_sync_interest = 0;
  retx_event = none;
  publication_sync_event = none;
  publication_sync_pending = false;
  initialized = true;
  sync_interest_batching = false;
  batch_window = 0;
  processing_pool = none;
  production_pool = none;
  production_signing = false;
  production_extra_block = false;
  last_validation_status = never;
  stats = no_stats;
  effects = [];
}

abbrev idle : Fetcher ℕ SampleData
idle = record {
  has_validator = false;
  retries_on_validation_fail = 0;
  window_size = 10;
  interest_id_counter = 0;
  interest_queue = [];
  pending_interests = [];
  effects = [];
}

-- nothing was published
abbrev pub fresh_state : PubSub ℕ SampleData ℕ ℕ Memory
fresh_state = record {
  data_prefix = 1 ∷ [];
  use_timestamp = false;
  max_piggy_data_size = 1000;
  async_commit_retry_initial = 10;
  async_commit_retry_max = 1000;
  outputs = record {
    base = record {
      sync_prefix = 9 ∷ [];
      data_prefix = 1 ∷ 9 ∷ [];
      core = sample_core;
      store = nothing_stored;
      fetcher = idle;
      fetch_interest_lifetime = 2000;
      face = [];
    };
    provider = record { sync_prefix = 9 ∷ []; id = 1 ∷ []; version = v3; map = [] };
    queues = record {
      notification_mapping_list = record { node_id = []; pairs = [] };
      piggy_data_queue = [];
      piggy_mapping_queue = [];
      repair_request_queue = [];
    };
  };
  reserved_seq_no = [];
  next_async_commit_seq = [];
  prepared_publications = [];
  staged_publication_packets = [];
  posted = [];
  retries = [];
}

fresh_state-IsIdle : IsIdle sample_env (1 ∷ []) 1 fresh_state
unfolding find get_seq_no get get_latest compare_names
fresh_state-IsIdle = record {
  due_number = inl refl;
  number = refl;
  missing = refl;
  sorted = tt;
  others = tt;
}

-- an asynchronous publication and its handler
abbrev then_async : List (Event sample_env)
then_async = Event.async (bytes (1 ∷ 2 ∷ [])) (5 ∷ []) [] 100 [] ∷ Event.handler ∷ []

publish_name_stalls_example :
    let t = run sample_env then_async (publish_name sample_env (4 ∷ []) [] [] fresh_state).1 in
    (find (1 ∷ []) t.next_async_commit_seq ≡ some 1)
    × (commit_ready_prepared_publications sample_env (1 ∷ []) t ≡ t)
publish_name_stalls_example =
    publish_name_stalls sample_env (1 ∷ []) 1 (4 ∷ []) [] [] then_async fresh_state refl
      fresh_state-IsIdle

publish_async-TakesNumber_example :
    TakesNumber sample_env
      (1 ∷ [])
      fresh_state
      (publish_async sample_env (bytes (1 ∷ 2 ∷ [])) (5 ∷ []) [] 100 [] fresh_state)
publish_async-TakesNumber_example =
    publish_async-TakesNumber sample_env (bytes (1 ∷ 2 ∷ [])) (5 ∷ []) [] 100 [] fresh_state

-- a publication of a name that waits to be committed as number 1
abbrev waiting : PreparedPublication ℕ SampleData ℕ
waiting = record {
  seq_no = 1;
  bootstrap_time = 7;
  node_prefix = 1 ∷ [];
  mapping_name = 5 ∷ [];
  freshness_period = 100;
  outer_packets = [];
  piggy_packet = none;
  mapping_blocks = [];
  put_first_packet_to_face = false;
  stored = false;
  ok = true;
  commit_attempts = 0;
  retry_scheduled = false;
}

abbrev ready_state : PubSub ℕ SampleData ℕ ℕ Memory
ready_state = record fresh_state {
  reserved_seq_no = ((1 ∷ [], 1)) ∷ [];
  next_async_commit_seq = ((1 ∷ [], 1)) ∷ [];
  prepared_publications = ((1 ∷ [], ((1, waiting)) ∷ [])) ∷ [];
}

commit_rounds-enough_example :
    commit_rounds sample_env
      (3 + suc (count_two (1 ∷ []) ready_state.prepared_publications))
      (1 ∷ [])
      ready_state
    ≡ some (commit_ready_prepared_publications sample_env (1 ∷ []) ready_state)
commit_rounds-enough_example = commit_rounds-enough sample_env (1 ∷ []) 3 ready_state (tt, tt)

-- a full record of one publication
abbrev full : Delivered ℕ
full = record { publications = ((5, true)) ∷ []; order = 5 ∷ []; limit = 1 }

full-IsListed : IsListed full.publications full.order
unfolding find elem
full-IsListed = record {
  sorted = (tt, tt);
  distinct = (refl, tt);
  same = λ k. ground arith;
  count = refl;
}

remember_delivered-IsListed_example :
    let r = remember_delivered 6 full in
    IsListed r.publications r.order × (length r.publications ≤ 1)
remember_delivered-IsListed_example = remember_delivered-IsListed 6 full full-IsListed
