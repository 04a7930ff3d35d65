-- ===== src/PubSub/Updates.antt =====
-- What follows a change of the vector and a reply with mappings: `updateCallbackInternal` and
-- `onFetchedNameMappings` of ndn-svs/svspubsub.cpp, and the mappings of both.
use ndn_svs.Base.{
  ℕ, zero, suc, ◌+◌, ◌%◌, ◌^◌, max, Bool, true, false, ◌&&◌, ◌||◌, Option, none, some, List, [],
  ◌∷◌, ◌++◌, is_empty, leb, Ord, nat_ord, pair_ord, ◌==◌, if◌then◌else◌, Result, ok, err,
}
use ndn_svs.Base.Action.{Action}
use ndn_svs.Mapping.{MappingEntry, MappingList}
use ndn_svs.Core.Merge.{MissingDataInfo}
use ndn_svs.PubSub.Client.{Subscription, FetchOptions, Client, prefetches, updates, is_prefix_of}
use ndn_svs.PubSub.Fetch.{add_publication_fetch}
use ndn_svs.PubSub.FetchAll.{fetch_all}
use ndn_svs.PubSub.MappingFetch.{ClientEnv, process_mapping, schedule_mapping_fetch}
use ndn_svs.PubSub.Ranges.{missing_each, chunk_each}

-- the numbers that were returned, and whether a fetch was queued
pub record Replied : Type 0 where
  pub returned : List ℕ
  pub queued : Bool

-- the number was asked for
abbrev pub is_asked :
    {Component Block : Type 0}
    → MissingDataInfo (List Component)
    → MappingEntry Component Block
    → Bool
is_asked requested entry =
    entry.bootstrap_time == requested.bootstrap_time
    && leb requested.low entry.seq_no
    && leb entry.seq_no (max requested.high requested.low)

module _ {Component Data Interest Block S : Type 0} ⦃o : Ord (List Component)⦄
    (env : ClientEnv Component Data Block) (opts : FetchOptions) where
  -- the range of a query, asked for
  abbrev pub ask_range :
      MissingDataInfo (List Component)
      → List Component
      → ℕ
      → ℕ
      → Client Component Data Interest Block S
      → Client Component Data Interest Block S
  ask_range info stream_name low high c =
      (schedule_mapping_fetch env opts (record info { low = low; high = high }) stream_name c).1

  unfoldable pub reply_processed :
      Result (Bool × Client Component Data Interest Block S)
      → (Bool → Action (Client Component Data Interest Block S) Replied)
      → Action (Client Component Data Interest Block S) Replied
  reply_processed (err e) rest c = (err e, c)
  reply_processed (ok r) rest c = rest r.0 r.1

  -- the first loop of the reply's handler
  unfoldable pub process_each :
      MissingDataInfo (List Component)
      → List Component
      → List (MappingEntry Component Block)
      → Replied
      → Action (Client Component Data Interest Block S) Replied
  unfolding reply_processed
  process_each requested stream_name [] r c = (ok r, c)
  process_each requested stream_name (entry ∷ entries) r c =
      let returned = if is_asked requested entry then entry.seq_no ∷ r.returned else r.returned in
      reply_processed
        (process_mapping env opts (stream_name, (entry.bootstrap_time, entry.seq_no)) c)
        (λ queued.
          process_each requested stream_name entries
            (record { returned = returned; queued = r.queued || queued }))
        c

  -- the rest of it; `none` where the loop outlives the fuel
  unfoldable pub ask_missing :
      ℕ
      → MissingDataInfo (List Component)
      → List Component
      → Result Replied × Client Component Data Interest Block S
      → Option (Result (Unit {0}) × Client Component Data Interest Block S)
  ask_missing fuel requested stream_name (err e, c) = some (err e, c)
  ask_missing fuel requested stream_name (ok r, c) =
      let fetched =
        if r.queued then fetch_all env.packets env.components opts env.now env.sort c else c in
      elim (missing_each (ask_range requested stream_name) fuel r.returned
        (max requested.high requested.low) requested.low none fetched) [
          | none ↦ none
          | some asked ↦ some (ok tt, asked)
        ]

  unfoldable pub on_fetched_name_mappings :
      ℕ
      → MissingDataInfo (List Component)
      → List Component
      → MappingList Component Block
      → Client Component Data Interest Block S
      → Option (Result (Unit {0}) × Client Component Data Interest Block S)
  unfolding process_each ask_missing
  on_fetched_name_mappings fuel requested stream_name list c =
      if is_empty list.pairs
      then some (ok tt, c)
      else ask_missing fuel requested stream_name (
          process_each requested stream_name list.pairs (record { returned = []; queued = false })
            c)

  -- the loop over the numbers of a stream that a producer subscription asks for
  unfoldable pub add_range :
      ℕ
      → MissingDataInfo (List Component)
      → Subscription Component
      → ℕ
      → Client Component Data Interest Block S
      → Option (Client Component Data Interest Block S)
  add_range zero stream sub i c = none
  add_range (suc fuel) stream sub i c = elim (leb i stream.high) [
    | false ↦ some c
    | true ↦
        add_range fuel stream sub ((i + 1) % 2 ^ 64)
          (add_publication_fetch opts env.now (stream.node_id, (stream.bootstrap_time, i)) sub c)
  ]

  unfoldable pub produce_each :
      ℕ
      → MissingDataInfo (List Component)
      → List (Subscription Component)
      → Client Component Data Interest Block S
      → Option (Client Component Data Interest Block S)
  unfolding add_range
  produce_each fuel stream [] c = some c
  produce_each fuel stream (sub ∷ subs) c = elim (is_prefix_of sub.prefix stream.node_id) [
    | false ↦ produce_each fuel stream subs c
    | true ↦ elim (add_range fuel stream sub stream.low c) [
      | none ↦ none
      | some added ↦ produce_each fuel stream subs (
          if sub.prefetch
          then record added {
            effects =
                added.effects
                ++ prefetches (stream.node_id, (stream.bootstrap_time, (stream.high + 1) % 2 ^ 64))
                  ∷ [];
          }
          else added)
    ]
  ]

  -- the numbers whose mappings are known already; what is left begins at the result
  unfoldable pub known_each :
      ℕ
      → MissingDataInfo (List Component)
      → ℕ
      → Client Component Data Interest Block S
      → Option (ℕ × Client Component Data Interest Block S)
  known_each zero stream i c = none
  known_each (suc fuel) stream i c = elim (leb i stream.high) [
    | false ↦ some (i, c)
    | true ↦ elim (process_mapping env opts (stream.node_id, (stream.bootstrap_time, i)) c) [
      | err e ↦ some (i, c)
      | ok r ↦ known_each fuel stream ((i + 1) % 2 ^ 64) r.1
    ]
  ]

  unfoldable pub map_stream :
      ℕ
      → MissingDataInfo (List Component)
      → Client Component Data Interest Block S
      → Option (Client Component Data Interest Block S)
  unfolding known_each
  map_stream fuel stream c =
      if is_empty c.prefix_subscriptions && is_empty c.regex_subscriptions
      then some c
      else elim (known_each fuel stream stream.low c) [
        | none ↦ none
        | some left ↦ chunk_each (ask_range stream stream.node_id) fuel stream.high left.0 left.1
      ]

  unfoldable pub update_each :
      ℕ
      → List (MissingDataInfo (List Component))
      → Client Component Data Interest Block S
      → Option (Client Component Data Interest Block S)
  unfolding produce_each map_stream
  update_each fuel [] c = some c
  update_each fuel (stream ∷ streams) c =
      elim (produce_each fuel stream c.producer_subscriptions c) [
        | none ↦ none
        | some produced ↦ elim (map_stream fuel stream produced) [
          | none ↦ none
          | some mapped ↦ update_each fuel streams mapped
        ]
      ]

  unfoldable pub update_callback_internal :
      ℕ
      → List (MissingDataInfo (List Component))
      → Client Component Data Interest Block S
      → Option (Client Component Data Interest Block S)
  unfolding update_each
  update_callback_internal fuel info c = elim (update_each fuel info c) [
    | none ↦ none
    | some updated ↦
        let fetched = fetch_all env.packets env.components opts env.now env.sort updated in
        some (record fetched { effects = fetched.effects ++ updates info ∷ [] })
  ]
