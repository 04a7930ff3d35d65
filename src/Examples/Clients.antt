-- ===== src/Examples/Clients.antt =====
-- The theorems on the fetches of publications and of mappings.
use ndn_svs.Base.{
  ℕ, ◌+◌, ◌≡◌, ◌≤◌, refl, max, arith, true, false, none, some, not, ◌&&◌, List, [], ◌∷◌, ◌++◌, elem,
  leb, nat_ord, pair_ord, compare_pairs, then_by, All,
}
use ndn_svs.Base.OrdMap.{IsSorted}
use ndn_svs.Base.{◌⊎◌, ok, err, Error}
use ndn_svs.Tlv.{Tlv}
use ndn_svs.Tlv.Kind
use ndn_svs.PubSub.Arrival.{ArrivalEnv}
use ndn_svs.PubSub.Receive.{on_recv_extra_blocks}
use ndn_svs.PubSub.Acceptable.{IsAcceptable}
use ndn_svs.PubSub.Atomic.{Receives, on_recv_extra_blocks-IsWhole}
use ndn_svs.SyncProtocol.Options.{pos}
use ndn_svs.PubSub.Client.{PublicationKey, Subscription, FetchOptions, Client, no_fetch, fetching}
use ndn_svs.PubSub.FetchAll.{Sort, SortLaws, fetch_all}
use ndn_svs.PubSub.Retries.{IsBudgeted}
use ndn_svs.PubSub.FetchRun.{FetchStep, run, run-IsBudgeted, queues, asks, fails, answers}
use ndn_svs.PubSub.Busy.{in_flight}
use ndn_svs.PubSub.InFlight.{IsCounted, fetch_all-IsCounted}
use ndn_svs.PubSub.Ranges.{
  missing_each, chunk_each, call_each, is_covered, missing_each-covers, chunk_each-covers,
}
use ndn_svs.Examples.Mappings.{name_ord, compare_names, sample_components}
use ndn_svs.Examples.Publications.{SampleData, sample_packets}
use ndn_svs.Examples.Segments.{Memory, sample_store}
use ndn_svs.Examples.Commits.{fresh_state}

abbrev sample_options : FetchOptions
sample_options = record {
  max_pub_age = 0;
  mapping_fetch_retries = pos 0;
  mapping_fetch_failure_backoff = 200;
  publication_fetch_retries = pos 2;
  publication_fetch_inner_retries = pos 2;
  publication_fetch_interest_lifetime = 500;
  publication_fetch_min_interest_lifetime = 250;
  publication_fetch_max_interest_lifetime = 2000;
  publication_fetch_failure_backoff = 50;
  publication_fetch_max_backoff = 2000;
  publication_fetch_window = 1;
}

abbrev first_key : PublicationKey ℕ
first_key = (1 ∷ [], (7, 3))

abbrev second_key : PublicationKey ℕ
second_key = (1 ∷ [], (7, 4))

abbrev subscriber : Subscription ℕ
subscriber = record {
  id = 1;
  prefix = 1 ∷ [];
  is_packet_subscription = false;
  prefetch = false;
  autofetch = true;
  matches = λ n. true;
}

abbrev new_client : Client ℕ SampleData ℕ ℕ Memory
new_client = record {
  outputs = fresh_state.outputs;
  subscription_count = 1;
  producer_subscriptions = subscriber ∷ [];
  prefix_subscriptions = [];
  regex_subscriptions = [];
  fetch_map = [];
  publication_fetch_states = [];
  publication_lifetime_estimates = [];
  mapping_fetch_in_flight = [];
  mapping_fetch_suppress_until = [];
  piggy_data_cache = [];
  piggy_data_cache_order = [];
  piggy_data_cache_limit = 4;
  piggy_delivered = record { publications = []; order = []; limit = 4 };
  effects = [];
}

-- a sort that leaves the order
abbrev as_it_is : Sort (PublicationKey ℕ)
as_it_is less xs = xs

as_it_is_lawful : SortLaws as_it_is
as_it_is_lawful = record { All-sort = λ P less xs h. h }

-- a fetch that is asked for, fails, waits and is asked for again
abbrev some_steps : List (FetchStep ℕ)
some_steps =
    queues 10 first_key subscriber
    ∷ queues 10 second_key subscriber
    ∷ asks 11
    ∷ fails 500 second_key
    ∷ asks 600
    ∷ answers 700 first_key
    ∷ []

run-IsBudgeted_example :
    IsBudgeted 2 sample_options
      (run sample_packets sample_components sample_options as_it_is some_steps new_client)
run-IsBudgeted_example =
    run-IsBudgeted sample_packets sample_components sample_options as_it_is 2 some_steps new_client
      refl as_it_is_lawful refl

-- two publications are wanted, and one of them is under way
abbrev busy_client : Client ℕ SampleData ℕ ℕ Memory
busy_client = record new_client {
  fetch_map = (first_key, subscriber ∷ []) ∷ (second_key, subscriber ∷ []) ∷ [];
  publication_fetch_states =
      (first_key, record no_fetch { status = fetching; first_queued = some 1; attempts = 1 })
      ∷ (second_key, record no_fetch { first_queued = some 2; deadline = 5000 })
      ∷ [];
}

fetches-IsSorted : IsSorted busy_client.fetch_map
unfolding compare_pairs then_by compare_names
fetches-IsSorted = ((refl, tt), (tt, tt))

states-IsSorted : IsSorted busy_client.publication_fetch_states
unfolding compare_pairs then_by compare_names
states-IsSorted = ((refl, tt), (tt, tt))

fetch_all-IsCounted_example :
    IsCounted
      (max (in_flight busy_client.fetch_map busy_client.publication_fetch_states) (max 1 1))
      (fetch_all sample_packets sample_components sample_options 60 as_it_is busy_client)
fetch_all-IsCounted_example =
    fetch_all-IsCounted sample_packets sample_components sample_options 60 as_it_is busy_client
      fetches-IsSorted states-IsSorted

-- each range is noted
abbrev note : ℕ → ℕ → List (ℕ × ℕ) → List (ℕ × ℕ)
note low high rs = rs ++ (low, high) ∷ []

missing_each-covers_example :
    (rs : List (ℕ × ℕ)) × (missing_each note 9 (5 ∷ 3 ∷ []) 8 2 none []
      ≡ some (call_each note rs []))
    × ((n : ℕ) → is_covered n rs ≡ (leb 2 n && leb n 8 && not (elem n (5 ∷ 3 ∷ []))))
missing_each-covers_example =
    missing_each-covers note 9 (5 ∷ 3 ∷ []) 2 8 [] (omega arith) (omega arith) (omega arith)

chunk_each-covers_example :
    (rs : List (ℕ × ℕ)) × (chunk_each note 40 30 3 [] ≡ some (call_each note rs []))
    × ((n : ℕ) → is_covered n rs ≡ (leb 3 n && leb n 30))
    × All (λ r. r.1 ≤ r.0 + 10) rs
chunk_each-covers_example = chunk_each-covers note 39 3 30 [] (omega arith) (omega arith)

-- blocks that are known by their types, and are empty
abbrev plain_tlv : Tlv (List ℕ) ℕ
plain_tlv = record {
  type = λ b. b;
  elements = λ b. ok [];
  read_number = λ b. ok b;
  read_name = λ b. ok [];
  make = λ k bs. k;
  number = λ k n. k;
  name_block = λ n. 7;
}

abbrev sample_arrival : ArrivalEnv ℕ SampleData ℕ ℕ Memory
sample_arrival = record {
  client = record {
    packets = sample_packets;
    components = sample_components;
    timestamp_of = λ b. ok none;
    sort = as_it_is;
    system_now = 5;
    now = 60;
  };
  codec = record {
    tlv = plain_tlv;
    size = λ b. 2;
    data_block = λ d. 6;
    read_data = λ b. err Error.tlv_error;
  };
  store = sample_store;
  make_interest = λ n. 0;
  data_name = λ node b s. node;
  full_name = λ d. (sample_packets.fields d).name;
  max_piggy_data_size = 800;
}

on_recv_extra_blocks-IsWhole_example :
    let blocks = Kind.mapping_data ∷ 5 ∷ [] in
    (IsAcceptable sample_arrival.codec blocks
      × Receives sample_arrival sample_options 3 blocks new_client
          (on_recv_extra_blocks sample_arrival sample_options 3 blocks new_client))
    ⊎ ((¬ IsAcceptable sample_arrival.codec blocks)
        × (on_recv_extra_blocks sample_arrival sample_options 3 blocks new_client
            ≡ some new_client))
on_recv_extra_blocks-IsWhole_example =
    on_recv_extra_blocks-IsWhole sample_arrival sample_options 3 (Kind.mapping_data ∷ 5 ∷ [])
      new_client
