-- ===== src/PubSub/Arrival.antt =====
-- What comes with a Sync Interest: `onRecvExtraBlocks`, `onRecvExtraData`,
-- `satisfyPendingFetchFromPiggyData` and `enqueueRepairPublication` of ndn-svs/svspubsub.cpp.
use ndn_svs.Base.{
  ℕ, zero, suc, ◌+◌, ◌%◌, ◌^◌, Bool, true, false, ◌||◌, not, Option, none, some, List, [], ◌∷◌,
  ◌++◌, length, ltb, leb, elem, Ord, nat_ord, pair_ord, ◌==◌, if◌then◌else◌, Result, ok, err, Error,
  throw_if, ◌>>=◌, ◌>>◌,
}
use ndn_svs.Base.OrdMap.{OrdMap, find, insert, erase}
use ndn_svs.Packets.{wire_size}
use ndn_svs.Tlv.Kind
use ndn_svs.Mapping.{MappingEntryPair, get_mapping}
use ndn_svs.Mapping.Codec
use ndn_svs.Core.State.{v3}
use ndn_svs.Core.Merge.{MissingDataInfo}
use ndn_svs.SyncProtocol.{max_extension_blocks}
use ndn_svs.SyncBase.{DataStore}
use ndn_svs.PubSub.Assembly.{is_some}
use ndn_svs.PubSub.State.{fresh_piggy, PiggyMappingEntry}
use ndn_svs.PubSub.Repair.{decode_repair_requests}
use ndn_svs.PubSub.Extra.{ExtraCodec}
use ndn_svs.PubSub.Delivered.{remember_delivered}
use ndn_svs.PubSub.Client.{PublicationKey, Subscription, SubscriptionData, FetchOptions, Client}
use ndn_svs.PubSub.Fetch.{clean_up_fetch}
use ndn_svs.PubSub.FetchAll.{deliver_each}
use ndn_svs.PubSub.MappingFetch.{ClientEnv}

-- what reception asks of the store and of ndn-cxx besides: the Interest for a publication's name,
-- that names may extend, and the name of a packet with its digest
pub record ArrivalEnv (Component Data Interest Block S : Type 0) : Type 0 where
  pub client : ClientEnv Component Data Block
  pub codec : ExtraCodec Component Data Block
  pub store : DataStore Component Data Interest S
  pub make_interest : List Component → Interest
  pub data_name : List Component → ℕ → ℕ → List Component
  pub full_name : Data → List Component
  pub max_piggy_data_size : ℕ

-- `ndn::tlv::Data`
abbrev pub data_type : ℕ
data_type = 6

abbrev pub is_known_extension : ℕ → Bool
is_known_extension type = type == Kind.mapping_data || type == Kind.repair_data

module _ {Component Data Block : Type 0} (x : ExtraCodec Component Data Block) where
  -- a value that is only read to see that it can be
  abbrev pub readable : {A : Type 0} → Result A → Result (Unit {0})
  readable (ok a) = ok tt
  readable (err e) = err e

  unfoldable pub check_child : Block → Result (Unit {0})
  check_child child =
      if x.tlv.type child == Kind.mapping_data
      then readable (Codec.decode x.tlv v3 child)
      else if x.tlv.type child == data_type
      then readable (x.read_data child)
      else if x.tlv.type child == Kind.repair_data
      then readable (decode_repair_requests x.tlv child)
      else ok tt

  unfoldable pub check_children : List Block → Result (Unit {0})
  unfolding check_child
  check_children [] = ok tt
  check_children (child ∷ children) = do check_child child; check_children children

  -- the complete tree of a known extension
  unfoldable pub check_extension : Block → Result (Unit {0})
  unfolding check_children
  check_extension block = do
    children ← x.tlv.elements block
    if x.tlv.type block == Kind.mapping_data
        then readable (Codec.decode x.tlv v3 block)
        else readable (decode_repair_requests x.tlv block)
    check_children children

  -- all blocks, with the known types met so far
  unfoldable pub check_each : List Block → List ℕ → Result (Unit {0})
  unfolding check_extension
  check_each [] known_types = ok tt
  check_each (block ∷ blocks) known_types =
      if not (is_known_extension (x.tlv.type block)) then check_each blocks known_types else (do
        throw_if (elem (x.tlv.type block) known_types) Error.invalid_argument
        check_extension block
        check_each blocks (x.tlv.type block ∷ known_types))

  unfoldable pub check_blocks : List Block → Result (Unit {0})
  unfolding check_each
  check_blocks blocks = do
    throw_if (ltb max_extension_blocks (length blocks)) Error.invalid_argument
    check_each blocks []

-- the loop that forgets the oldest packets
unfoldable pub trim_cache :
    {K V : Type 0} ⦃o : Ord K⦄ → ℕ → OrdMap K V → List K → OrdMap K V × List K
trim_cache limit cache [] = (cache, [])
trim_cache limit cache (k ∷ ks) =
    let rest = trim_cache limit (erase k cache) ks in
    if ltb limit (length cache) then rest else (cache, k ∷ ks)

module _ {Component Data Interest Block S : Type 0} ⦃o : Ord (List Component)⦄
    (env : ArrivalEnv Component Data Interest Block S) (opts : FetchOptions) where
  -- the publications that wait for the packet
  unfoldable pub waiting_for :
      List Component
      → Client Component Data Interest Block S
      → OrdMap (PublicationKey Component) (List (Subscription Component))
      → List (PublicationKey Component × List (Subscription Component))
  waiting_for name c [] = []
  waiting_for name c ((key, subs) ∷ fetches) =
      let rest = waiting_for name c fetches in
      elim (get_mapping env.client.components key.0 key.1.0 key.1.1 c.outputs.provider) [
        | err e ↦ rest
        | ok mapping ↦ if mapping.name == name then (key, subs) ∷ rest else rest
      ]

  unfoldable pub satisfy_each :
      Data
      → List (PublicationKey Component × List (Subscription Component))
      → Client Component Data Interest Block S
      → Client Component Data Interest Block S
  satisfy_each packet [] c = c
  satisfy_each packet ((key, subs) ∷ ready) c =
      let fields = env.client.packets.fields packet in
      let shown : SubscriptionData Component Data = record {
        name = fields.name;
        content = fields.content;
        producer_prefix = key.0;
        seq_no = key.1.1;
        packet = some packet;
      } in
      satisfy_each packet ready (
        clean_up_fetch key (record c {
          effects = c.effects ++ deliver_each shown subs;
          piggy_delivered = remember_delivered key c.piggy_delivered;
        }))

  unfoldable pub satisfy_pending_fetch_from_piggy_data :
      Data → Client Component Data Interest Block S → Client Component Data Interest Block S
  unfolding waiting_for satisfy_each
  satisfy_pending_fetch_from_piggy_data packet c =
      satisfy_each packet (waiting_for (env.client.packets.fields packet).name c c.fetch_map) c

  -- one name of a packet in the cache, and in its order if it is new
  unfoldable pub cache_under :
      List Component
      → Data
      → Client Component Data Interest Block S
      → Client Component Data Interest Block S
  cache_under name packet c = record c {
    piggy_data_cache_order =
        if is_some (find name c.piggy_data_cache)
        then c.piggy_data_cache_order
        else c.piggy_data_cache_order ++ name ∷ [];
    piggy_data_cache = insert name packet c.piggy_data_cache;
  }

  unfoldable pub cache_packet :
      Data → Client Component Data Interest Block S → Client Component Data Interest Block S
  unfolding cache_under trim_cache
  cache_packet packet c =
      let named = cache_under (env.client.packets.fields packet).name packet c in
      let both = cache_under (env.full_name packet) packet named in
      let kept =
        trim_cache both.piggy_data_cache_limit both.piggy_data_cache both.piggy_data_cache_order in
      record both { piggy_data_cache = kept.0; piggy_data_cache_order = kept.1 }

  -- the stored packet's content, if it is a packet that is small enough
  unfoldable pub repair_packet : Option Data → Option Data
  repair_packet none = none
  repair_packet (some outer) =
      let fields = env.client.packets.fields outer in
      if not (fields.content_type == data_type)
      then none
      else elim (env.client.packets.parse fields.content) [
        | err e ↦ none
        | ok inner ↦
            if ltb env.max_piggy_data_size (wire_size env.client.packets inner)
            then none
            else some inner
      ]

  unfoldable pub push_repair :
      PublicationKey Component
      → MappingEntryPair Component Block
      → Option Data
      → Client Component Data Interest Block S
      → Client Component Data Interest Block S
  push_repair key mapping inner c =
      let queues = c.outputs.queues in
      let entry : PiggyMappingEntry Component Block = fresh_piggy (record {
        node_id = key.0;
        mapping = record { bootstrap_time = key.1.0; seq_no = key.1.1; mapping = mapping };
      }) in
      record c {
        outputs = record c.outputs {
          queues = record queues {
            piggy_mapping_queue = queues.piggy_mapping_queue ++ entry ∷ [];
            piggy_data_queue = elim inner [
              | none ↦ queues.piggy_data_queue
              | some packet ↦ queues.piggy_data_queue ++ fresh_piggy packet ∷ []
            ];
          };
        };
      }

  unfoldable pub enqueue_repair_publication :
      PublicationKey Component
      → Client Component Data Interest Block S
      → Client Component Data Interest Block S
  unfolding push_repair repair_packet
  enqueue_repair_publication key c =
      elim (get_mapping env.client.components key.0 key.1.0 key.1.1 c.outputs.provider) [
        | err e ↦ c
        | ok mapping ↦
            push_repair key mapping
              (repair_packet (
                env.store.find (env.make_interest (env.data_name key.0 key.1.0 key.1.1))
                  c.outputs.base.store))
              c
      ]

  -- the loop over the numbers of a request; `none` where it outlives the fuel
  unfoldable pub repair_range :
      ℕ
      → MissingDataInfo (List Component)
      → ℕ
      → Client Component Data Interest Block S
      → Option (Client Component Data Interest Block S)
  unfolding enqueue_repair_publication
  repair_range zero request seq c = none
  repair_range (suc fuel) request seq c = elim (leb seq request.high) [
    | false ↦ some c
    | true ↦
        repair_range fuel request ((seq + 1) % 2 ^ 64)
          (enqueue_repair_publication (request.node_id, (request.bootstrap_time, seq)) c)
  ]

  unfoldable pub repair_each :
      ℕ
      → List (MissingDataInfo (List Component))
      → Client Component Data Interest Block S
      → Option (Client Component Data Interest Block S)
  unfolding repair_range
  repair_each fuel [] c = some c
  repair_each fuel (request ∷ requests) c = elim (repair_range fuel request request.low c) [
    | none ↦ none
    | some next ↦ repair_each fuel requests next
  ]
