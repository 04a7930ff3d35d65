-- ===== src/PubSub/MappingFetch.antt =====
-- Fetches of mappings in ndn-svs/svspubsub.cpp: `processMapping`, `scheduleMappingFetch`,
-- `onFetchedNameMappings` and `updateCallbackInternal`. Loops over numbers run on fuel.
use ndn_svs.Base.{
  ℕ, ◌+◌, ◌-◌, max, Bool, true, false, Option, none, some, List, [], ◌∷◌, ◌++◌, ltb, Ord, nat_ord,
  pair_ord, if◌then◌else◌, Result, ok,
}
use ndn_svs.Base.Results
use ndn_svs.Base.OrdMap.{find, insert, erase}
use ndn_svs.Packets.{Packets}
use ndn_svs.Mapping.{Components, MappingEntryPair, get_mapping}
use ndn_svs.Core.Merge.{MissingDataInfo}
use ndn_svs.PubSub.Assembly.{is_some}
use ndn_svs.PubSub.Delivered.{has_delivered, remember_delivered}
use ndn_svs.PubSub.Fetch.{add_publication_fetch}
use ndn_svs.PubSub.FetchAll.{Sort, cached_packet}
use ndn_svs.PubSub.Client.{
  PublicationKey, MappingFetchKey, Subscription, SubscriptionData, FetchOptions, Client, delivers,
  fetches_mapping, is_prefix_of,
}

-- ndn-cxx, the two clocks and the sort, as the methods see them; a mapping's block is read as a
-- component, which may throw, and that as a timestamp if it is one
pub record ClientEnv (Component Data Block : Type 0) : Type 0 where
  pub packets : Packets Component Data
  pub components : Components Component
  pub timestamp_of : Block → Result (Option ℕ)
  pub sort : Sort (PublicationKey Component)
  pub system_now : ℕ
  pub now : ℕ

-- a call of `queueOrDeliver`, and whether a fetch was queued or a cached packet delivered
pub record Handed (C : Type 0) : Type 0 where
  pub client : C
  pub queued : Bool
  pub delivered : Bool

module _ {Component Data Block : Type 0} (env : ClientEnv Component Data Block)
    (opts : FetchOptions) where
  -- the publication is older than the options allow, by a timestamp of its blocks
  unfoldable pub is_too_old : List Block → Result Bool
  is_too_old [] = ok false
  is_too_old (block ∷ blocks) = Results.◌>>=◌ (env.timestamp_of block) (λ pub_time. elim pub_time [
    | none ↦ is_too_old blocks
    | some t ↦ if ltb opts.max_pub_age (env.system_now - t) then ok true else is_too_old blocks
  ])

module _ {Component Data Block : Type 0} (env : ClientEnv Component Data Block) where
  -- what the application gets, without and with a packet
  abbrev pub shown_data :
      MappingEntryPair Component Block
      → PublicationKey Component
      → Option Data
      → SubscriptionData Component Data
  shown_data mapping key packet = record {
    name = mapping.name;
    content = elim packet [ none ↦ [] | some p ↦ (env.packets.fields p).content ];
    producer_prefix = key.0;
    seq_no = key.1.1;
    packet = packet;
  }

module _ {Component Data Interest Block S : Type 0} ⦃o : Ord (List Component)⦄
    (env : ClientEnv Component Data Block) (opts : FetchOptions) where
  unfoldable pub hand_found :
      MappingEntryPair Component Block
      → PublicationKey Component
      → Subscription Component
      → Option Data
      → Handed (Client Component Data Interest Block S)
      → Handed (Client Component Data Interest Block S)
  unfolding add_publication_fetch
  hand_found mapping key sub (some packet) h = record h {
    client = record h.client {
      effects = h.client.effects ++ delivers sub.id (shown_data env mapping key (some packet)) ∷ [];
    };
    delivered = true;
  }
  hand_found mapping key sub none h = record h {
    client = add_publication_fetch opts env.now key sub h.client;
    queued = true;
  }

  -- `queueOrDeliver`
  unfoldable pub queue_or_deliver :
      MappingEntryPair Component Block
      → PublicationKey Component
      → Subscription Component
      → Handed (Client Component Data Interest Block S)
      → Handed (Client Component Data Interest Block S)
  unfolding hand_found
  queue_or_deliver mapping key sub h =
      if sub.autofetch
      then hand_found mapping key sub (cached_packet mapping.name h.client.piggy_data_cache) h
      else record h {
        client = record h.client {
          effects = h.client.effects ++ delivers sub.id (shown_data env mapping key none) ∷ [];
        };
      }

  -- the subscriptions that match
  unfoldable pub hand_each :
      (Subscription Component → Bool)
      → MappingEntryPair Component Block
      → PublicationKey Component
      → List (Subscription Component)
      → Handed (Client Component Data Interest Block S)
      → Handed (Client Component Data Interest Block S)
  unfolding queue_or_deliver
  hand_each wanted mapping key [] h = h
  hand_each wanted mapping key (sub ∷ subs) h =
      hand_each wanted mapping key subs
        (if wanted sub then queue_or_deliver mapping key sub h else h)

  unfoldable pub hand_mapping :
      MappingEntryPair Component Block
      → PublicationKey Component
      → Client Component Data Interest Block S
      → Bool × Client Component Data Interest Block S
  unfolding hand_each
  hand_mapping mapping key c =
      let by_prefix =
        hand_each (λ sub. is_prefix_of sub.prefix mapping.name) mapping key c.prefix_subscriptions
          (record { client = c; queued = false; delivered = false }) in
      let handed =
        hand_each (λ sub. sub.matches mapping.name) mapping key c.regex_subscriptions by_prefix in
      (
        handed.queued,
        if handed.delivered
            then record handed.client {
              piggy_delivered = remember_delivered key handed.client.piggy_delivered;
            }
            else handed.client,
      )

  -- It throws for a mapping that is not known; nothing is changed then.
  unfoldable pub process_mapping :
      PublicationKey Component
      → Client Component Data Interest Block S
      → Result (Bool × Client Component Data Interest Block S)
  unfolding is_too_old hand_mapping
  process_mapping key c =
      if has_delivered key c.piggy_delivered
      then ok (false, c)
      else Results.◌>>=◌ (get_mapping env.components key.0 key.1.0 key.1.1 c.outputs.provider)
          (λ mapping.
            Results.◌>>=◌
              (if ltb 0 opts.max_pub_age then is_too_old env opts mapping.blocks else ok false)
              (λ old. if old then ok (false, c) else ok (hand_mapping mapping key c)))

  unfoldable pub schedule_mapping_fetch :
      MissingDataInfo (List Component)
      → List Component
      → Client Component Data Interest Block S
      → Bool × Client Component Data Interest Block S
  schedule_mapping_fetch requested stream_name c =
      let query = record requested { high = max requested.high requested.low } in
      let key : MappingFetchKey Component =
        (query.node_id, (query.bootstrap_time, (query.low, query.high))) in
      let until = find key c.mapping_fetch_suppress_until in
      if is_some (find key c.mapping_fetch_in_flight)
      then (false, c)
      else if elim until [ none ↦ false | some t ↦ ltb env.now t ]
      then (false, c)
      else (
        true,
        record c {
          mapping_fetch_suppress_until = erase key c.mapping_fetch_suppress_until;
          mapping_fetch_in_flight = insert key true c.mapping_fetch_in_flight;
          effects = c.effects ++ fetches_mapping query stream_name opts.mapping_fetch_retries ∷ [];
        },
      )

  unfoldable pub mark_mapping_fetch_complete :
      MappingFetchKey Component
      → Client Component Data Interest Block S
      → Client Component Data Interest Block S
  mark_mapping_fetch_complete key c = record c {
    mapping_fetch_in_flight = erase key c.mapping_fetch_in_flight;
    mapping_fetch_suppress_until = erase key c.mapping_fetch_suppress_until;
  }

  unfoldable pub mark_mapping_fetch_failed :
      MappingFetchKey Component
      → Client Component Data Interest Block S
      → Client Component Data Interest Block S
  mark_mapping_fetch_failed key c =
      let ended = record c { mapping_fetch_in_flight = erase key c.mapping_fetch_in_flight } in
      if ltb 0 opts.mapping_fetch_failure_backoff
      then record ended {
        mapping_fetch_suppress_until =
            insert key (env.now + opts.mapping_fetch_failure_backoff)
              ended.mapping_fetch_suppress_until;
      }
      else ended
