-- ===== src/PubSub/FetchAll.antt =====
-- `fetchAll` of ndn-svs/svspubsub.cpp: which publications are asked for now. `std::sort` is a
-- parameter, with the comparison that the code gives to it.
use ndn_svs.Base.{
  ℕ, ◌+◌, max, Bool, true, false, not, ◌&&◌, ◌||◌, Option, none, some, List, [], ◌∷◌, ◌++◌, map,
  ltb, leb, Ord, nat_ord, pair_ord, ◌==◌, if◌then◌else◌, ok, err, All,
}
use ndn_svs.Base.OrdMap.{OrdMap, find, insert, or_default}
use ndn_svs.Packets.{Packets}
use ndn_svs.Mapping.{Components, get_mapping}
use ndn_svs.PubSub.Assembly.{is_some}
use ndn_svs.PubSub.Delivered.{remember_delivered}
use ndn_svs.PubSub.Fetch.{
  start_fetch, attempt_at, lower_bound, clean_up_fetch, observe_publication_fetch_success,
}
use ndn_svs.PubSub.Client.{
  PublicationKey, Subscription, SubscriptionData, PublicationFetchStatus, PublicationFetchState,
  no_fetch, FetchOptions, Client, ClientEffect, delivers, fetches_data, is_prefix_of,
}

-- the states after the first loop, and what it counted and found
pub record Scanned (Component : Type 0) : Type 0 where
  pub states : OrdMap (PublicationKey Component) PublicationFetchState
  pub in_flight : ℕ
  pub ready : List (PublicationKey Component)

-- `std::sort` with a comparison
abbrev pub Sort : Type 0 → Type 0
Sort A = (A → A → Bool) → List A → List A

-- only elements of the given list come out
pub record SortLaws {A : Type 0} (sort : Sort A) : Type 1 where
  pub All-sort :
      (P : A → Type 0) (less : A → A → Bool) (xs : List A) → All P xs → All P (sort less xs)

-- what came with a Sync Interest under the name, or under the next name if that is longer
unfoldable pub cached_packet :
    {Component Data : Type 0} ⦃o : Ord (List Component)⦄
    → List Component
    → OrdMap (List Component) Data
    → Option Data
unfolding lower_bound
cached_packet name cache = elim (find name cache) [
  | some packet ↦ some packet
  | none ↦ elim (lower_bound name cache) [
    | none ↦ none
    | some shown ↦ if is_prefix_of name shown.0 then some shown.1 else none
  ]
]

abbrev pub is_expired : PublicationFetchStatus → Bool
is_expired PublicationFetchStatus.expired = true
is_expired _ = false

abbrev pub is_fetching : PublicationFetchStatus → Bool
is_fetching PublicationFetchStatus.fetching = true
is_fetching _ = false

module _ {Component : Type 0} ⦃o : Ord (List Component)⦄ (opts : FetchOptions) (now : ℕ) where
  -- a fetch that waits: its deadline is over, or it is ready, or not yet
  unfoldable pub scan_waiting :
      PublicationKey Component → PublicationFetchState → Scanned Component → Scanned Component
  scan_waiting key state r =
      if leb state.deadline now
      then record r {
        states = insert key (record state { status = PublicationFetchStatus.expired }) r.states;
      }
      else record r {
        states = insert key state r.states;
        ready = if leb state.next_attempt now then r.ready ++ key ∷ [] else r.ready;
      }

  unfoldable pub scan_status :
      PublicationFetchStatus
      → PublicationKey Component
      → PublicationFetchState
      → Scanned Component
      → Scanned Component
  unfolding scan_waiting
  scan_status PublicationFetchStatus.fetching key state r = record r {
    states = insert key state r.states;
    in_flight = r.in_flight + 1;
  }
  scan_status PublicationFetchStatus.delivered key state r = record r {
    states = insert key state r.states;
  }
  scan_status PublicationFetchStatus.expired key state r = record r {
    states = insert key state r.states;
  }
  scan_status _ key state r = scan_waiting key state r

  -- the state that the loop finds or makes
  unfoldable pub state_at :
      PublicationKey Component
      → OrdMap (PublicationKey Component) PublicationFetchState
      → PublicationFetchState
  unfolding start_fetch
  state_at key states =
      let state = or_default no_fetch (find key states) in
      if is_some state.first_queued
      then state
      else start_fetch opts now opts.publication_fetch_interest_lifetime state

  unfoldable pub scan_each :
      OrdMap (PublicationKey Component) (List (Subscription Component))
      → Scanned Component
      → Scanned Component
  unfolding scan_status state_at
  scan_each [] r = r
  scan_each ((key, subs) ∷ fetches) r =
      let state = state_at key r.states in scan_each fetches (scan_status state.status key state r)

-- the order of what is ready: fewer attempts first, then newer epochs and numbers
unfoldable pub fetches_before :
    {Component : Type 0} ⦃o : Ord (List Component)⦄
    → OrdMap (PublicationKey Component) PublicationFetchState
    → PublicationKey Component
    → PublicationKey Component
    → Bool
fetches_before states lhs rhs =
    let lhs_attempts = (or_default no_fetch (find lhs states)).attempts in
    let rhs_attempts = (or_default no_fetch (find rhs states)).attempts in
    if not (lhs_attempts == rhs_attempts)
    then ltb lhs_attempts rhs_attempts
    else if not (lhs.1.0 == rhs.1.0)
    then ltb rhs.1.0 lhs.1.0
    else ltb rhs.1.1 lhs.1.1

module _ {Component Data Interest Block S : Type 0} ⦃o : Ord (List Component)⦄ where
  -- the loop over the states: expired fetches go
  unfoldable pub drop_expired :
      OrdMap (PublicationKey Component) PublicationFetchState
      → Client Component Data Interest Block S
      → Client Component Data Interest Block S
  unfolding clean_up_fetch
  drop_expired [] c = c
  drop_expired ((key, state) ∷ states) c = drop_expired states (
      if is_expired state.status && is_some (find key c.fetch_map) then clean_up_fetch key c else c)

-- every subscription of the publication gets its packet
unfoldable pub deliver_each :
    {Component Data : Type 0}
    → SubscriptionData Component Data
    → List (Subscription Component)
    → List (ClientEffect Component Data)
deliver_each shown subs = map (λ sub. delivers sub.id shown) subs

module _ {Component Data Interest Block S : Type 0} ⦃o : Ord (List Component)⦄
    (packets : Packets Component Data) (components : Components Component) (opts : FetchOptions)
    (now : ℕ) where
  unfoldable pub deliver_cached :
      PublicationKey Component
      → List (Subscription Component)
      → SubscriptionData Component Data
      → Client Component Data Interest Block S
      → Client Component Data Interest Block S
  unfolding deliver_each
  deliver_cached key subs shown c =
      let told : Client Component Data Interest Block S = record c {
        effects = c.effects ++ deliver_each shown subs;
        piggy_delivered = remember_delivered key c.piggy_delivered;
      } in
      clean_up_fetch key (observe_publication_fetch_success opts now key told)

  unfoldable pub express_fetch :
      PublicationKey Component
      → PublicationFetchState
      → Client Component Data Interest Block S
      → Client Component Data Interest Block S
  unfolding attempt_at
  express_fetch key state c =
      let next = attempt_at opts now state in
      record c {
        publication_fetch_states = insert key next c.publication_fetch_states;
        effects =
            c.effects
            ++ fetches_data key next.current_lifetime opts.publication_fetch_inner_retries ∷ [];
      }

  -- the cached packet of the publication's mapping, where both are known
  unfoldable pub cached_publication :
      PublicationKey Component
      → Client Component Data Interest Block S
      → Option (SubscriptionData Component Data)
  unfolding cached_packet
  cached_publication key c =
      elim (get_mapping components key.0 key.1.0 key.1.1 c.outputs.provider) [
        | err e ↦ none
        | ok mapping ↦ elim (cached_packet mapping.name c.piggy_data_cache) [
          | none ↦ none
          | some packet ↦ some (record {
            name = mapping.name;
            content = (packets.fields packet).content;
            producer_prefix = key.0;
            seq_no = key.1.1;
            packet = some packet;
          })
        ]
      ]

  unfoldable pub send_ready :
      PublicationKey Component
      → List (Subscription Component)
      → PublicationFetchState
      → Option (SubscriptionData Component Data)
      → ℕ × Client Component Data Interest Block S
      → ℕ × Client Component Data Interest Block S
  unfolding deliver_cached express_fetch
  send_ready key subs state (some shown) r = (r.0, deliver_cached key subs shown r.1)
  send_ready key subs state none r = (r.0 + 1, express_fetch key state r.1)

  unfoldable pub send_found :
      PublicationKey Component
      → Option (List (Subscription Component))
      → Option PublicationFetchState
      → ℕ × Client Component Data Interest Block S
      → ℕ × Client Component Data Interest Block S
  unfolding send_ready cached_publication
  send_found key (some subs) (some state) r =
      if is_fetching state.status || ltb now state.next_attempt
      then r
      else send_ready key subs state (cached_publication key r.1) r
  send_found key _ _ r = r

  -- the last loop, which stops at the window
  unfoldable pub send_each :
      List (PublicationKey Component)
      → ℕ × Client Component Data Interest Block S
      → ℕ × Client Component Data Interest Block S
  unfolding send_found
  send_each [] r = r
  send_each (key ∷ ready) r = elim (leb (max 1 opts.publication_fetch_window) r.0) [
    | true ↦ r
    | false ↦
        send_each ready
          (send_found key (find key r.1.fetch_map) (find key r.1.publication_fetch_states) r)
  ]

  unfoldable pub fetch_all :
      Sort (PublicationKey Component)
      → Client Component Data Interest Block S
      → Client Component Data Interest Block S
  unfolding scan_each drop_expired fetches_before send_each
  fetch_all sort c =
      let scanned =
        scan_each opts now c.fetch_map
          (record { states = c.publication_fetch_states; in_flight = 0; ready = [] }) in
      let kept =
        drop_expired scanned.states (record c { publication_fetch_states = scanned.states }) in
      let ready = sort (fetches_before kept.publication_fetch_states) scanned.ready in
      (send_each ready (scanned.in_flight, kept)).1
