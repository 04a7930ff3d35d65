-- ===== src/PubSub/Client.antt =====
-- What `SVSPubSub` keeps of other nodes' publications, its subscriptions, and their handles. What
-- the methods ask of the fetchers, of the scheduler and of the application are effects, in order.
use ndn_svs.Base.{
  ℕ, not, is_empty, ◌+◌, ◌%◌, ◌^◌, Bool, true, false, Option, none, List, [], ◌∷◌, ◌++◌, take,
  length, Ord, nat_ord, ◌==◌, if◌then◌else◌,
}
use ndn_svs.Base.OrdMap.{OrdMap}
use ndn_svs.SyncProtocol.Options.{ℤ}
use ndn_svs.Core.Merge.{MissingDataInfo}
use ndn_svs.PubSub.State.{Outputs}
use ndn_svs.PubSub.Delivered.{Delivered}

-- node, bootstrap time and number
abbrev pub PublicationKey : Type 0 → Type 0
PublicationKey Component = List Component × (ℕ × ℕ)

-- node, bootstrap time, low and high
abbrev pub MappingFetchKey : Type 0 → Type 0
MappingFetchKey Component = List Component × (ℕ × (ℕ × ℕ))

abbrev pub ProducerSessionKey : Type 0 → Type 0
ProducerSessionKey Component = List Component × ℕ

-- The callback is known by the handle; `matches` is the regular expression's `match`.
pub record Subscription (Component : Type 0) : Type 0 where
  pub id : ℕ
  pub prefix : List Component
  pub is_packet_subscription : Bool
  pub prefetch : Bool
  pub autofetch : Bool
  pub matches : List Component → Bool

pub record SubscriptionData (Component Data : Type 0) : Type 0 where
  pub name : List Component
  pub content : List ℕ
  pub producer_prefix : List Component
  pub seq_no : ℕ
  pub packet : Option Data

pub data PublicationFetchStatus : Type 0 where
  queued : PublicationFetchStatus
  fetching : PublicationFetchStatus
  backoff : PublicationFetchStatus
  delivered : PublicationFetchStatus
  expired : PublicationFetchStatus

-- A time point that was not set, `time_point{}`, is `none`; the others are milliseconds.
pub record PublicationFetchState : Type 0 where
  pub status : PublicationFetchStatus
  pub attempts : ℕ
  pub first_queued : Option ℕ
  pub deadline : ℕ
  pub next_attempt : ℕ
  pub attempt_started : Option ℕ
  pub current_lifetime : ℕ
  pub current_backoff : ℕ

-- `PublicationFetchState()`
abbrev pub no_fetch : PublicationFetchState
no_fetch = record {
  status = queued;
  attempts = 0;
  first_queued = none;
  deadline = 0;
  next_attempt = 0;
  attempt_started = none;
  current_lifetime = 0;
  current_backoff = 0;
}

-- the options that fetches read, in milliseconds
pub record FetchOptions : Type 0 where
  pub max_pub_age : ℕ
  pub mapping_fetch_retries : ℤ
  pub mapping_fetch_failure_backoff : ℕ
  pub publication_fetch_retries : ℤ
  pub publication_fetch_inner_retries : ℤ
  pub publication_fetch_interest_lifetime : ℕ
  pub publication_fetch_min_interest_lifetime : ℕ
  pub publication_fetch_max_interest_lifetime : ℕ
  pub publication_fetch_failure_backoff : ℕ
  pub publication_fetch_max_backoff : ℕ
  pub publication_fetch_window : ℕ

pub data ClientEffect (Component Data : Type 0) : Type 0 where
  delivers : ℕ → SubscriptionData Component Data → ClientEffect Component Data
  fetches_data : PublicationKey Component → ℕ → ℤ → ClientEffect Component Data
  prefetches : PublicationKey Component → ClientEffect Component Data
  fetches_mapping :
      MissingDataInfo (List Component) → List Component → ℤ → ClientEffect Component Data
  schedules_fetch_all : ℕ → ClientEffect Component Data
  updates : List (MissingDataInfo (List Component)) → ClientEffect Component Data

pub record Client (Component Data Interest Block S : Type 0) : Type 0 where
  pub outputs : Outputs Component Data Interest Block S
  pub subscription_count : ℕ
  pub producer_subscriptions : List (Subscription Component)
  pub prefix_subscriptions : List (Subscription Component)
  pub regex_subscriptions : List (Subscription Component)
  pub fetch_map : OrdMap (PublicationKey Component) (List (Subscription Component))
  pub publication_fetch_states : OrdMap (PublicationKey Component) PublicationFetchState
  pub publication_lifetime_estimates : OrdMap (ProducerSessionKey Component) ℕ
  pub mapping_fetch_in_flight : OrdMap (MappingFetchKey Component) Bool
  pub mapping_fetch_suppress_until : OrdMap (MappingFetchKey Component) ℕ
  pub piggy_data_cache : OrdMap (List Component) Data
  pub piggy_data_cache_order : List (List Component)
  pub piggy_data_cache_limit : ℕ
  pub piggy_delivered : Delivered (PublicationKey Component)
  pub effects : List (ClientEffect Component Data)

-- `isPrefixOf`
abbrev pub is_prefix_of :
    {Component : Type 0} ⦃o : Ord (List Component)⦄ → List Component → List Component → Bool
is_prefix_of p n = take (length p) n == p

-- the default expression, `^<>+$`
unfoldable pub any_name : {Component : Type 0} → List Component → Bool
any_name n = not (is_empty n)

-- the first subscription with the handle goes
unfoldable pub unsub :
    {Component : Type 0} → ℕ → List (Subscription Component) → List (Subscription Component)
unsub handle [] = []
unsub handle (sub ∷ subs) = if sub.id == handle then subs else sub ∷ unsub handle subs

module _ {Component Data Interest Block S : Type 0} where
  -- the next handle, a `uint32_t`
  abbrev pub next_handle : Client Component Data Interest Block S → ℕ
  next_handle c = (c.subscription_count + 1) % 2 ^ 32

  unfoldable pub subscribe :
      List Component
      → Bool
      → Client Component Data Interest Block S
      → ℕ × Client Component Data Interest Block S
  subscribe prefix packets c =
      let sub : Subscription Component = record {
        id = next_handle c;
        prefix = prefix;
        is_packet_subscription = packets;
        prefetch = false;
        autofetch = true;
        matches = any_name;
      } in
      (
        next_handle c,
        record c {
          subscription_count = next_handle c;
          prefix_subscriptions = c.prefix_subscriptions ++ sub ∷ [];
        },
      )

  unfoldable pub subscribe_with_regex :
      (List Component → Bool)
      → Bool
      → Bool
      → Client Component Data Interest Block S
      → ℕ × Client Component Data Interest Block S
  subscribe_with_regex regex autofetch packets c =
      let sub : Subscription Component = record {
        id = next_handle c;
        prefix = [];
        is_packet_subscription = packets;
        prefetch = false;
        autofetch = autofetch;
        matches = regex;
      } in
      (
        next_handle c,
        record c {
          subscription_count = next_handle c;
          regex_subscriptions = c.regex_subscriptions ++ sub ∷ [];
        },
      )

  unfoldable pub subscribe_to_producer :
      List Component
      → Bool
      → Bool
      → Client Component Data Interest Block S
      → ℕ × Client Component Data Interest Block S
  subscribe_to_producer node_prefix prefetch packets c =
      let sub : Subscription Component = record {
        id = next_handle c;
        prefix = node_prefix;
        is_packet_subscription = packets;
        prefetch = prefetch;
        autofetch = true;
        matches = any_name;
      } in
      (
        next_handle c,
        record c {
          subscription_count = next_handle c;
          producer_subscriptions = c.producer_subscriptions ++ sub ∷ [];
        },
      )

  unfoldable pub unsubscribe :
      ℕ → Client Component Data Interest Block S → Client Component Data Interest Block S
  unfolding unsub
  unsubscribe handle c = record c {
    producer_subscriptions = unsub handle c.producer_subscriptions;
    prefix_subscriptions = unsub handle c.prefix_subscriptions;
    regex_subscriptions = unsub handle c.regex_subscriptions;
  }
