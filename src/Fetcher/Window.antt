-- ===== src/Fetcher/Window.antt =====
-- The window of pending Interests, over any sequence of events.
use ndn_svs.Base.{
  ℕ, zero, suc, ◌+◌, ◌-◌, ◌≤◌, ◌≡◌, ◌⊎◌, inl, inr, refl, List, [], ◌∷◌, ◌++◌, length, ltb, nat_ord,
  if◌then◌else◌, arith, Bool-cases,
}
use ndn_svs.Base.OrdMap.{OrdMap, insert, erase}
use ndn_svs.SyncProtocol.Options.{ℤ, pos, negsuc}
use ndn_svs.Fetcher.{
  Fetcher, QueuedInterest, FetchEffect, timed_out, satisfied, FetchEvent, expresses, data_arrives,
  data_validates, validation_fails, retry_is_due, nack_arrives, times_out, step, run, emit, enqueue,
  validate, retry_later, validation_failed, nacked, send_each, process_queue, express,
  express_interest, express_again, settle, on_data, on_data_validated, on_validation_failed,
  on_retry, on_nack, on_timeout, timed_out_with, minus_one,
}

module _ {V : Type 0} where
  length-insert : (k : ℕ) (v : V) (m : OrdMap ℕ V) → length (insert k v m) ≤ length m + 1
  unfolding insert
  length-insert k v [] = omega arith
  length-insert k v ((j, w) ∷ m) = ground (arith, length-insert k v m)

  length-erase : (k : ℕ) (m : OrdMap ℕ V) → length (erase k m) ≤ length m
  unfolding erase
  length-erase k [] = omega arith
  length-erase k ((j, w) ∷ m) = ground (arith, length-erase k m)

module _ {Interest Data : Type 0} where
  -- No more Interests are pending than the window allows, and none waits while there is room.
  pub record IsWindowed (f : Fetcher Interest Data) : Type 0 where
    pub bounded : length f.pending_interests ≤ f.window_size
    pub busy : (f.interest_queue ≡ []) ⊎ (f.window_size ≤ length f.pending_interests)

  send_each-IsWindowed :
      (is : List (QueuedInterest Interest)) (f : Fetcher Interest Data)
      → length f.pending_interests ≤ f.window_size
      → IsWindowed (send_each is f)
  unfolding send_each
  send_each-IsWindowed [] f h = record { bounded = h; busy = inl refl }
  send_each-IsWindowed (i ∷ is) f h =
      elim (Bool-cases (ltb (length f.pending_interests) f.window_size)) [
        | inl e ↦ rw e (
            send_each-IsWindowed is
              (record f {
                pending_interests = insert i.id i f.pending_interests;
                effects = f.effects ++ express i ∷ [];
              })
              (ground (arith, length-insert i.id i f.pending_interests)))
        | inr e ↦ rw e (record { bounded = h; busy = inr (ground arith) })
      ]

  settle-bounded :
      (qi : QueuedInterest Interest) (f : Fetcher Interest Data)
      → IsWindowed f
      → length (settle qi f).pending_interests ≤ f.window_size
  settle-bounded qi f h = omega (arith, h.bounded, length-erase qi.id f.pending_interests)

  process_queue-IsWindowed :
      (f : Fetcher Interest Data)
      → length f.pending_interests ≤ f.window_size
      → IsWindowed (process_queue f)
  unfolding process_queue
  process_queue-IsWindowed f h = send_each-IsWindowed f.interest_queue f h

  express_again-IsWindowed :
      (refresh_nonce : Interest → Interest) (qi : QueuedInterest Interest)
      (f : Fetcher Interest Data)
      → length f.pending_interests ≤ f.window_size
      → IsWindowed (express_again refresh_nonce qi f)
  unfolding express_again
  express_again-IsWindowed refresh_nonce qi f h =
      process_queue-IsWindowed (enqueue (record qi { interest = refresh_nonce qi.interest }) f) h

  emit-IsWindowed :
      (e : FetchEffect Interest Data) (f : Fetcher Interest Data)
      → IsWindowed f
      → IsWindowed (emit e f)
  emit-IsWindowed e f h = record { bounded = h.bounded; busy = h.busy }

  timed_out_with-IsWindowed :
      (refresh_nonce : Interest → Interest) (n : ℤ) (qi : QueuedInterest Interest)
      (f : Fetcher Interest Data)
      → length f.pending_interests ≤ f.window_size
      → IsWindowed (timed_out_with refresh_nonce n qi f)
  unfolding timed_out_with
  timed_out_with-IsWindowed refresh_nonce (pos zero) qi f h =
      emit-IsWindowed (timed_out qi) (process_queue f) (process_queue-IsWindowed f h)
  timed_out_with-IsWindowed refresh_nonce (pos (suc n)) qi f h =
      express_again-IsWindowed refresh_nonce (record qi { n_retries = minus_one (pos (suc n)) }) f h
  timed_out_with-IsWindowed refresh_nonce (negsuc n) qi f h =
      express_again-IsWindowed refresh_nonce (record qi { n_retries = minus_one (negsuc n) }) f h

  step-IsWindowed :
      (refresh_nonce : Interest → Interest) (e : FetchEvent Interest Data)
      (f : Fetcher Interest Data)
      → IsWindowed f
      → IsWindowed (step refresh_nonce e f)
  unfolding step express_interest on_data on_data_validated on_validation_failed on_retry on_nack
      on_timeout
  step-IsWindowed r (expresses i n) f h =
      process_queue-IsWindowed
        (enqueue
          (record {
            id = 0;
            interest = i;
            n_retries = n;
            n_retries_on_validation_fail = f.retries_on_validation_fail;
          })
          f)
        h.bounded
  step-IsWindowed r (data_arrives qi d) f h =
      emit-IsWindowed (if f.has_validator then validate qi d else satisfied qi d)
        (process_queue (settle qi f))
        (process_queue-IsWindowed (settle qi f) (settle-bounded qi f h))
  step-IsWindowed r (data_validates qi d) f h = emit-IsWindowed (satisfied qi d) f h
  step-IsWindowed r (validation_fails qi d) f h =
      emit-IsWindowed
        (if ltb 0 qi.n_retries_on_validation_fail then retry_later qi else validation_failed qi d) f
        h
  step-IsWindowed r (retry_is_due qi) f h =
      express_again-IsWindowed r
        (record qi { n_retries_on_validation_fail = qi.n_retries_on_validation_fail - 1 }) f
        h.bounded
  step-IsWindowed r (nack_arrives qi) f h =
      emit-IsWindowed (nacked qi) (process_queue (settle qi f))
        (process_queue-IsWindowed (settle qi f) (settle-bounded qi f h))
  step-IsWindowed r (times_out qi) f h =
      timed_out_with-IsWindowed r qi.n_retries qi (settle qi f) (settle-bounded qi f h)

  -- Over every sequence of events, while the window keeps its size: no more Interests are pending
  -- than the window allows, and no Interest waits in the queue while there is room in the window.
  pub run-IsWindowed :
      (refresh_nonce : Interest → Interest) (es : List (FetchEvent Interest Data))
      (f : Fetcher Interest Data)
      → IsWindowed f
      → IsWindowed (run refresh_nonce es f)
  unfolding run
  run-IsWindowed r [] f h = h
  run-IsWindowed r (e ∷ es) f h = run-IsWindowed r es (step r e f) (step-IsWindowed r e f h)
