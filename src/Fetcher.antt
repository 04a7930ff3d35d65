-- ===== src/Fetcher.antt =====
-- ndn-svs/fetcher.hpp and ndn-svs/fetcher.cpp: Interests that wait for a window, with retries.
--
-- Callbacks are effects in their order. `nRetries` is an `int`: a negative number is never 0. `nRetriesOnValidationFail` is an
-- `int` too, of which only the positive numbers count. `refreshNonce` is ndn-cxx's, an argument. The
-- destructor and its flag `m_alive` are not modelled.
pub mod Window
use ndn_svs.Base.{
  ℕ, zero, suc, ◌+◌, ◌-◌, Bool, true, false, Option, none, some, List, [], ◌∷◌, ◌++◌, length, ltb,
  max, Ord, nat_ord, ◌==◌, if◌then◌else◌,
}
use ndn_svs.Base.OrdMap.{OrdMap, insert, erase}
use ndn_svs.SyncProtocol.Options.{ℤ, pos, negsuc}

pub record QueuedInterest (Interest : Type 0) : Type 0 where
  pub id : ℕ
  pub interest : Interest
  pub n_retries : ℤ
  pub n_retries_on_validation_fail : ℕ

pub data FetchEffect (Interest Data : Type 0) : Type 0 where
  express : QueuedInterest Interest → FetchEffect Interest Data
  satisfied : QueuedInterest Interest → Data → FetchEffect Interest Data
  nacked : QueuedInterest Interest → FetchEffect Interest Data
  timed_out : QueuedInterest Interest → FetchEffect Interest Data
  validate : QueuedInterest Interest → Data → FetchEffect Interest Data
  retry_later : QueuedInterest Interest → FetchEffect Interest Data
  validation_failed : QueuedInterest Interest → Data → FetchEffect Interest Data

pub record Fetcher (Interest Data : Type 0) : Type 0 where
  pub has_validator : Bool
  pub retries_on_validation_fail : ℕ
  pub window_size : ℕ
  pub interest_id_counter : ℕ
  pub interest_queue : List (QueuedInterest Interest)
  pub pending_interests : OrdMap ℕ (QueuedInterest Interest)
  pub effects : List (FetchEffect Interest Data)

unfoldable pub minus_one : ℤ → ℤ
minus_one (pos (suc n)) = pos n
minus_one (pos zero) = negsuc 0
minus_one (negsuc n) = negsuc (suc n)

module _ {Interest Data : Type 0} where
  abbrev pub emit : FetchEffect Interest Data → Fetcher Interest Data → Fetcher Interest Data
  emit e f = record f { effects = f.effects ++ e ∷ [] }

  -- the loop of `processQueue`, on what is left of the queue
  unfoldable pub send_each :
      List (QueuedInterest Interest) → Fetcher Interest Data → Fetcher Interest Data
  send_each [] f = record f { interest_queue = [] }
  send_each (i ∷ is) f =
      let sent = send_each is (record f {
        pending_interests = insert i.id i f.pending_interests;
        effects = f.effects ++ express i ∷ [];
      }) in
      if ltb (length f.pending_interests) f.window_size
      then sent
      else record f { interest_queue = i ∷ is }

  unfoldable pub process_queue : Fetcher Interest Data → Fetcher Interest Data
  unfolding send_each
  process_queue f = send_each f.interest_queue f

  -- under a new id, at the end of the queue
  abbrev pub enqueue : QueuedInterest Interest → Fetcher Interest Data → Fetcher Interest Data
  enqueue qi f = record f {
    interest_id_counter = f.interest_id_counter + 1;
    interest_queue = f.interest_queue ++ record qi { id = f.interest_id_counter + 1 } ∷ [];
  }

  -- `expressInterest` with the callbacks
  unfoldable pub express_interest : Interest → ℤ → Fetcher Interest Data → Fetcher Interest Data
  unfolding process_queue
  express_interest interest n_retries f = process_queue (
      enqueue
        (record {
          id = 0;
          interest = interest;
          n_retries = n_retries;
          n_retries_on_validation_fail = f.retries_on_validation_fail;
        })
        f)

  -- `expressInterest(const QueuedInterest&)`
  unfoldable pub express_again :
      (Interest → Interest)
      → QueuedInterest Interest
      → Fetcher Interest Data
      → Fetcher Interest Data
  unfolding process_queue
  express_again refresh_nonce qi f =
      process_queue (enqueue (record qi { interest = refresh_nonce qi.interest }) f)

  -- the Interest is no longer pending
  abbrev pub settle : QueuedInterest Interest → Fetcher Interest Data → Fetcher Interest Data
  settle qi f = record f { pending_interests = erase qi.id f.pending_interests }

  unfoldable pub on_data :
      QueuedInterest Interest → Data → Fetcher Interest Data → Fetcher Interest Data
  unfolding process_queue
  on_data qi d f =
      emit (if f.has_validator then validate qi d else satisfied qi d) (process_queue (settle qi f))

  -- the callbacks that the validator is given
  unfoldable pub on_data_validated :
      QueuedInterest Interest → Data → Fetcher Interest Data → Fetcher Interest Data
  on_data_validated qi d f = emit (satisfied qi d) f

  unfoldable pub on_validation_failed :
      QueuedInterest Interest → Data → Fetcher Interest Data → Fetcher Interest Data
  on_validation_failed qi d f =
      emit
        (if ltb 0 qi.n_retries_on_validation_fail then retry_later qi else validation_failed qi d) f

  -- the timer that `onValidationFailed` sets
  unfoldable pub on_retry :
      (Interest → Interest)
      → QueuedInterest Interest
      → Fetcher Interest Data
      → Fetcher Interest Data
  unfolding express_again
  on_retry refresh_nonce qi f =
      express_again refresh_nonce
        (record qi { n_retries_on_validation_fail = qi.n_retries_on_validation_fail - 1 }) f

  unfoldable pub on_nack : QueuedInterest Interest → Fetcher Interest Data → Fetcher Interest Data
  unfolding process_queue
  on_nack qi f = emit (nacked qi) (process_queue (settle qi f))

  -- `nRetries == 0`, or a retry
  unfoldable pub timed_out_with :
      (Interest → Interest)
      → ℤ
      → QueuedInterest Interest
      → Fetcher Interest Data
      → Fetcher Interest Data
  unfolding express_again minus_one
  timed_out_with refresh_nonce (pos zero) qi f = emit (timed_out qi) (process_queue f)
  timed_out_with refresh_nonce n qi f =
      express_again refresh_nonce (record qi { n_retries = minus_one n }) f

  unfoldable pub on_timeout :
      (Interest → Interest)
      → QueuedInterest Interest
      → Fetcher Interest Data
      → Fetcher Interest Data
  unfolding timed_out_with
  on_timeout refresh_nonce qi f = timed_out_with refresh_nonce qi.n_retries qi (settle qi f)

  unfoldable pub set_window_size : ℕ → Fetcher Interest Data → Fetcher Interest Data
  unfolding process_queue
  set_window_size window_size f = process_queue (record f { window_size = max 1 window_size })

pub data FetchEvent (Interest Data : Type 0) : Type 0 where
  expresses : Interest → ℤ → FetchEvent Interest Data
  data_arrives : QueuedInterest Interest → Data → FetchEvent Interest Data
  data_validates : QueuedInterest Interest → Data → FetchEvent Interest Data
  validation_fails : QueuedInterest Interest → Data → FetchEvent Interest Data
  retry_is_due : QueuedInterest Interest → FetchEvent Interest Data
  nack_arrives : QueuedInterest Interest → FetchEvent Interest Data
  times_out : QueuedInterest Interest → FetchEvent Interest Data

module _ {Interest Data : Type 0} (refresh_nonce : Interest → Interest) where
  unfoldable pub step : FetchEvent Interest Data → Fetcher Interest Data → Fetcher Interest Data
  step (expresses i n) f = express_interest i n f
  step (data_arrives qi d) f = on_data qi d f
  step (data_validates qi d) f = on_data_validated qi d f
  step (validation_fails qi d) f = on_validation_failed qi d f
  step (retry_is_due qi) f = on_retry refresh_nonce qi f
  step (nack_arrives qi) f = on_nack qi f
  step (times_out qi) f = on_timeout refresh_nonce qi f

  unfoldable pub run :
      List (FetchEvent Interest Data) → Fetcher Interest Data → Fetcher Interest Data
  unfolding step
  run [] f = f
  run (e ∷ es) f = run es (step e f)
