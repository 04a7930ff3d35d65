-- ===== src/PubSub/Fetch.antt =====
-- Fetches of publications in ndn-svs/svspubsub.cpp: `addPublicationFetch`, `fetchAll`,
-- `markPublicationFetchFailed`, `observePublicationFetchSuccess` and what they use.
use ndn_svs.Base.{
  ℕ, ◌+◌, ◌-◌, ◌*◌, ◌/◌, Ordering, min, max, Bool, false, ◌&&◌, ◌||◌, Option, none, some, List, [],
  ◌∷◌, ◌++◌, ltb, leb, Ord, nat_ord, pair_ord, ◌==◌, if◌then◌else◌,
}
use ndn_svs.Base.OrdMap.{OrdMap, find, insert, erase, or_default}
use ndn_svs.Core.Merge.{MissingDataInfo}
use ndn_svs.SyncProtocol.Options.{ℤ, pos, negsuc}
use ndn_svs.PubSub.Assembly.{is_some}
use ndn_svs.PubSub.State.{fresh_piggy, RepairRequestEntry}
use ndn_svs.PubSub.Client.{
  PublicationKey, ProducerSessionKey, Subscription, PublicationFetchStatus, PublicationFetchState,
  no_fetch, FetchOptions, Client, schedules_fetch_all,
}

unfoldable pub clamp_duration : ℕ → ℕ → ℕ → ℕ
clamp_duration value lower upper = min (max value lower) upper

module _ (opts : FetchOptions) where
  -- between the options' bounds
  abbrev pub clamp_lifetime : ℕ → ℕ
  clamp_lifetime lifetime =
      clamp_duration lifetime opts.publication_fetch_min_interest_lifetime
        opts.publication_fetch_max_interest_lifetime

  -- a fetch that was not queued before
  unfoldable pub start_fetch : ℕ → ℕ → PublicationFetchState → PublicationFetchState
  start_fetch now lifetime s = record s {
    status = PublicationFetchStatus.queued;
    first_queued = some now;
    deadline = now + (if ltb 0 opts.max_pub_age then opts.max_pub_age else 30000);
    next_attempt = now;
    current_lifetime = clamp_lifetime lifetime;
    current_backoff = opts.publication_fetch_failure_backoff;
  }

  -- the lifetime that the session's last fetches ask for
  unfoldable pub estimated_lifetime : Option ℕ → ℕ
  estimated_lifetime none = opts.publication_fetch_interest_lifetime
  estimated_lifetime (some lifetime) =
      if ltb 0 lifetime then lifetime else opts.publication_fetch_interest_lifetime

  unfoldable pub retry_budget_exhausted : ℤ → ℕ → Bool
  retry_budget_exhausted (pos retries) attempts = ltb retries attempts
  retry_budget_exhausted (negsuc n) attempts = false

  -- the state after a failure: the next attempt waits, and its Interest lives longer
  unfoldable pub backed_off : ℕ → PublicationFetchState → PublicationFetchState
  unfolding clamp_duration
  backed_off now s =
      let wait =
        if leb s.current_backoff 0
        then opts.publication_fetch_failure_backoff
        else s.current_backoff in
      record s {
        status = PublicationFetchStatus.backoff;
        next_attempt = now + wait;
        current_lifetime = clamp_lifetime (s.current_lifetime * 2);
        current_backoff =
            clamp_duration (wait * 2) opts.publication_fetch_failure_backoff
              opts.publication_fetch_max_backoff;
      }

  unfoldable pub attempt_at : ℕ → PublicationFetchState → PublicationFetchState
  attempt_at now s = record s {
    status = PublicationFetchStatus.fetching;
    attempt_started = some now;
    current_lifetime = clamp_lifetime s.current_lifetime;
    attempts = s.attempts + 1;
  }

  -- the session's estimate with the time of another answer, of 1 millisecond at least
  unfoldable pub new_estimate : ℕ → Option ℕ → ℕ
  new_estimate took known =
      let target = clamp_lifetime (max took 1 * 2) in
      let lifetime = or_default 0 known in
      if leb lifetime 0 then target else clamp_lifetime ((lifetime + target) / 2)

-- `m.lower_bound(q)`
unfoldable pub lower_bound {ℓ κ} :
    {K : Type ℓ} {V : Type κ} ⦃o : Ord K⦄ → K → OrdMap K V → Option (K × V)
lower_bound q [] = none
lower_bound ⦃o⦄ q ((k, v) ∷ m) = elim (o.cmp k q) [
  | Ordering.lt ↦ lower_bound q m
  | _ ↦ some (k, v)
]

-- the request is in the queue
unfoldable pub is_requested :
    {Component : Type 0} ⦃o : Ord (List Component)⦄
    → MissingDataInfo (List Component)
    → List (RepairRequestEntry Component)
    → Bool
is_requested info [] = false
is_requested info (entry ∷ queue) =
    (entry.payload.node_id == info.node_id
      && (entry.payload.bootstrap_time == info.bootstrap_time)
      && (entry.payload.low == info.low)
      && (entry.payload.high == info.high))
    || is_requested info queue

module _ {Component Data Interest Block S : Type 0} ⦃o : Ord (List Component)⦄ where
  unfoldable pub clean_up_fetch :
      PublicationKey Component
      → Client Component Data Interest Block S
      → Client Component Data Interest Block S
  clean_up_fetch key c = record c {
    fetch_map = erase key c.fetch_map;
    publication_fetch_states = erase key c.publication_fetch_states;
  }

  unfoldable pub remember_repair_request :
      PublicationKey Component
      → Client Component Data Interest Block S
      → Client Component Data Interest Block S
  unfolding is_requested
  remember_repair_request key c =
      let info : MissingDataInfo (List Component) = record {
        node_id = key.0;
        low = key.1.1;
        high = key.1.1;
        incoming_face = 0;
        bootstrap_time = key.1.0;
      } in
      let queue = c.outputs.queues.repair_request_queue in
      if is_requested info queue then c else record c {
        outputs = record c.outputs {
          queues = record c.outputs.queues {
            repair_request_queue = queue ++ fresh_piggy info ∷ [];
          };
        };
      }

module _ {Component Data Interest Block S : Type 0} ⦃o : Ord (List Component)⦄
    (opts : FetchOptions) where
  unfoldable pub add_publication_fetch :
      ℕ
      → PublicationKey Component
      → Subscription Component
      → Client Component Data Interest Block S
      → Client Component Data Interest Block S
  unfolding start_fetch estimated_lifetime
  add_publication_fetch now key sub c =
      let state = or_default no_fetch (find key c.publication_fetch_states) in
      let estimate = find (key.0, key.1.0) c.publication_lifetime_estimates in
      record c {
        fetch_map = insert key (or_default [] (find key c.fetch_map) ++ sub ∷ []) c.fetch_map;
        publication_fetch_states =
            insert key
              (if is_some state.first_queued
                then state
                else start_fetch opts now (estimated_lifetime opts estimate) state)
              c.publication_fetch_states;
      }

  -- another attempt later
  unfoldable pub back_off :
      ℕ
      → PublicationKey Component
      → PublicationFetchState
      → Client Component Data Interest Block S
      → Client Component Data Interest Block S
  unfolding backed_off
  back_off now key state c =
      let next = backed_off opts now state in
      record c {
        publication_fetch_states = insert key next c.publication_fetch_states;
        publication_lifetime_estimates =
            insert (key.0, key.1.0) next.current_lifetime c.publication_lifetime_estimates;
        effects = c.effects ++ schedules_fetch_all (next.next_attempt - now) ∷ [];
      }

  unfoldable pub fail_fetch :
      ℕ
      → PublicationKey Component
      → Option (List (Subscription Component))
      → Option PublicationFetchState
      → Client Component Data Interest Block S
      → Client Component Data Interest Block S
  unfolding clean_up_fetch back_off remember_repair_request retry_budget_exhausted
  fail_fetch now key (some subs) (some state) c =
      if retry_budget_exhausted opts opts.publication_fetch_retries state.attempts
        || leb state.deadline now
      then clean_up_fetch key c
      else back_off now key state (remember_repair_request key c)
  fail_fetch now key _ _ c = c

  unfoldable pub mark_publication_fetch_failed :
      ℕ
      → PublicationKey Component
      → Client Component Data Interest Block S
      → Client Component Data Interest Block S
  unfolding fail_fetch
  mark_publication_fetch_failed now key c =
      fail_fetch now key (find key c.fetch_map) (find key c.publication_fetch_states) c

  -- the state of a fetch that was answered
  unfoldable pub observe :
      ℕ
      → PublicationKey Component
      → PublicationFetchState
      → Option ℕ
      → Client Component Data Interest Block S
      → Client Component Data Interest Block S
  unfolding new_estimate
  observe now key state none c = record c {
    publication_fetch_states =
        insert key (record state { status = PublicationFetchStatus.delivered })
          c.publication_fetch_states;
  }
  observe now key state (some started) c =
      let session : ProducerSessionKey Component = (key.0, key.1.0) in
      let estimate =
        new_estimate opts (now - started) (find session c.publication_lifetime_estimates) in
      record c {
        publication_lifetime_estimates = insert session estimate c.publication_lifetime_estimates;
        publication_fetch_states =
            insert key
              (record state {
                status = PublicationFetchStatus.delivered;
                current_lifetime = estimate;
              })
              c.publication_fetch_states;
      }

  unfoldable pub observe_found :
      ℕ
      → PublicationKey Component
      → Option PublicationFetchState
      → Client Component Data Interest Block S
      → Client Component Data Interest Block S
  unfolding observe
  observe_found now key none c = c
  observe_found now key (some state) c = observe now key state state.attempt_started c

  unfoldable pub observe_publication_fetch_success :
      ℕ
      → PublicationKey Component
      → Client Component Data Interest Block S
      → Client Component Data Interest Block S
  unfolding observe_found
  observe_publication_fetch_success now key c =
      observe_found now key (find key c.publication_fetch_states) c
