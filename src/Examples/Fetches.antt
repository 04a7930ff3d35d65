-- ===== src/Examples/Fetches.antt =====
-- The theorems on the fetcher, with Interests that are numbers.
use ndn_svs.Base.{ℕ, List, [], ◌∷◌, false, suc, inl, refl, arith}
use ndn_svs.SyncProtocol.Options.{pos}
use ndn_svs.Fetcher.{Fetcher, FetchEvent, QueuedInterest, expresses, data_arrives, times_out, run}
use ndn_svs.Fetcher.Window.{IsWindowed, run-IsWindowed}

abbrev idle_fetcher : Fetcher ℕ ℕ
idle_fetcher = record {
  has_validator = false;
  retries_on_validation_fail = 0;
  window_size = 1;
  interest_id_counter = 0;
  interest_queue = [];
  pending_interests = [];
  effects = [];
}

idle_fetcher-IsWindowed : IsWindowed idle_fetcher
idle_fetcher-IsWindowed = record { bounded = omega arith; busy = inl refl }

abbrev sent : ℕ → QueuedInterest ℕ
sent id = record { id = id; interest = 40; n_retries = pos 1; n_retries_on_validation_fail = 0 }

-- two Interests for a window of one; the first one times out and is sent again
abbrev sample_events : List (FetchEvent ℕ ℕ)
sample_events =
    expresses 40 (pos 1) ∷ expresses 41 (pos 0) ∷ times_out (sent 1) ∷ data_arrives (sent 2) 7 ∷ []

run-IsWindowed_example : IsWindowed (run suc sample_events idle_fetcher)
run-IsWindowed_example = run-IsWindowed suc sample_events idle_fetcher idle_fetcher-IsWindowed
