-- ===== src/SyncBase.antt =====
-- ndn-svs/svsync-base.hpp and ndn-svs/svsync-base.cpp, with the names of ndn-svs/svsync.hpp and
-- ndn-svs/svsync-shared.hpp.
--
-- The data store is ndn-svs/store.hpp as a record of its operations, which may throw. `buf, len` is
-- a block of content already. The callbacks of the application are effects, and the hook for tests
-- is not set.
pub mod Rollback
pub mod Batch
use ndn_svs.Base.{
  ℕ, ◌+◌, Bool, true, false, not, ◌&&◌, Option, none, some, List, [], ◌∷◌, ◌++◌, reverse, is_empty,
  Ord, ltb, if◌then◌else◌, Result, ok, err, Error, throw_if,
}
use ndn_svs.Base.Action.{Action, ◌>>=◌, ◌>>◌, done, return, lift, gets, modify}
use ndn_svs.Packets.{Packets, Markers, wire_size, max_ndn_packet_size}
use ndn_svs.Mapping.{Components}
use ndn_svs.Fetcher
use ndn_svs.Fetcher.{Fetcher}
use ndn_svs.SyncProtocol.Options.{ℤ}
use ndn_svs.Core.State.{Core, Wire, Draws, Version, v2, v3, get_seq_no, or_self}
use ndn_svs.Core.Publish.{update_own_seq_no}

-- `DataStore`
pub record DataStore (Component Data Interest S : Type 0) : Type 0 where
  pub find : Interest → S → Option Data
  pub insert : Data → Action S (Unit {0})
  pub supports_erase : Bool
  pub erase : List Component → Action S (Unit {0})

pub data FaceEffect (Interest Data : Type 0) : Type 0 where
  put : Data → FaceEffect Interest Data
  data_callback : Data → FaceEffect Interest Data

pub record SyncBase (Component Data Interest Block S : Type 0) : Type 0 where
  pub sync_prefix : List Component
  pub data_prefix : List Component
  pub core : Core (List Component) Interest Block
  pub store : S
  pub fetcher : Fetcher Interest Data
  pub fetch_interest_lifetime : ℕ
  pub face : List (FaceEffect Interest Data)

-- a changed copy of one field
abbrev pub on_part : {S T A : Type 0} → (S → T) → (T → S → S) → Action T A → Action S A
on_part read write m s = ((m (read s)).0, write (m (read s)).1 s)

-- `EMPTY_NODE_ID` is the empty name.
abbrev pub node_option : {Component : Type 0} → List Component → Option (List Component)
node_option [] = none
node_option (x ∷ xs) = some (x ∷ xs)

module _ {Component : Type 0} (cs : Components Component) where
  unfoldable pub append_session : Version → ℕ → List Component → List Component
  append_session v2 bootstrap_time name = name
  append_session v3 bootstrap_time name = name ++ cs.timestamp bootstrap_time ∷ []

  -- `SVSync::makeDataName`
  unfoldable pub make_data_name : Version → List Component → List Component → ℕ → ℕ → List Component
  unfolding append_session
  make_data_name version sync_prefix nid bootstrap_time seq_no =
      append_session version bootstrap_time (nid ++ sync_prefix) ++ cs.sequence_number seq_no ∷ []

  -- `SVSyncShared::makeDataName`
  unfoldable pub make_shared_data_name :
      Version → List Component → List Component → ℕ → ℕ → List Component
  unfolding append_session
  make_shared_data_name version data_prefix nid bootstrap_time seq_no =
      append_session version bootstrap_time (data_prefix ++ nid) ++ cs.sequence_number seq_no ∷ []

-- the exception that leaves the outer `catch`
unfoldable pub rethrown : Error → Result (Unit {0}) → Result (Unit {0})
rethrown insertion_failure (ok u) = err insertion_failure
rethrown insertion_failure (err e) = err Error.runtime_error

-- the transactions on a data store
module _ {Component Data Interest S : Type 0} (pk : Packets Component Data)
    (st : DataStore Component Data Interest S) where
  -- Every encoding is measured before the first insertion.
  unfoldable pub check_sizes : List Data → Result (Unit {0})
  check_sizes [] = ok tt
  check_sizes (packet ∷ packets) =
      elim (throw_if (ltb max_ndn_packet_size (wire_size pk packet)) Error.length_error) [
        | ok u ↦ check_sizes packets
        | err e ↦ err e
      ]

  -- The names that are inserted are kept, also when an insertion throws.
  unfoldable pub insert_each : List Data → Action (S × List (List Component)) (Unit {0})
  insert_each [] = done
  insert_each (packet ∷ packets) = do
    on_part (λ s. s.0) (λ store s. (store, s.1)) (st.insert packet)
    modify λ s. (s.0, s.1 ++ (pk.fields packet).name ∷ [])
    insert_each packets

  unfoldable pub erase_each : List (List Component) → Action S (Unit {0})
  erase_each [] = done
  erase_each (name ∷ names) = do st.erase name; erase_each names

  unfoldable pub roll_back : Result (Unit {0}) → List (List Component) → Action S (Unit {0})
  unfolding erase_each rethrown
  roll_back (ok u) inserted s = (ok tt, s)
  roll_back (err e) inserted s =
      let erased = erase_each (reverse inserted) s in (rethrown e erased.0, erased.1)

  unfoldable pub insert_prepared_data_batch : List Data → Action S (Unit {0})
  unfolding check_sizes insert_each roll_back
  insert_prepared_data_batch packets = do
    lift (throw_if (not (is_empty packets) && not st.supports_erase) Error.logic_error)
    lift (check_sizes packets)
    s ← gets (λ s. s)
    let tried = insert_each packets (s, [])
    modify λ s. tried.1.0
    roll_back tried.0 tried.1.1

  -- whether all is erased
  abbrev succeeded : Result (Unit {0}) → Bool
  succeeded (ok u) = true
  succeeded (err e) = false

  -- `removePreparedDataBatch`, which catches every exception
  unfoldable pub remove_each : List Data → Action S (Unit {0})
  remove_each [] = done
  remove_each (packet ∷ packets) = do remove_each packets; st.erase (pk.fields packet).name

  unfoldable pub remove_prepared_data_batch : List Data → Action S Bool
  unfolding remove_each
  remove_prepared_data_batch packets s =
      if not (is_empty packets) && not st.supports_erase
      then (ok false, s)
      else let removed = remove_each packets s in (ok (succeeded removed.0), removed.1)

module _ {Component Data Interest Block S : Type 0} where
  abbrev pub on_store :
      {A : Type 0} → Action S A → Action (SyncBase Component Data Interest Block S) A
  on_store = on_part (λ b. b.store) (λ s b. record b { store = s })

  abbrev pub on_core :
      {A : Type 0}
      → Action (Core (List Component) Interest Block) A
      → Action (SyncBase Component Data Interest Block S) A
  on_core = on_part (λ b. b.core) (λ c b. record b { core = c })

  abbrev put_to_face : Data → Action (SyncBase Component Data Interest Block S) (Unit {0})
  put_to_face x = modify λ b. record b { face = b.face ++ put x ∷ [] }

module _ {Component Data Interest Block S : Type 0} (st : DataStore Component Data Interest S) where
  unfoldable pub insert_prepared_data :
      Data → Bool → Action (SyncBase Component Data Interest Block S) (Unit {0})
  insert_prepared_data x to_face = do
    on_store (st.insert x)
    if to_face then put_to_face x else done

  unfoldable pub put_prepared_data :
      Data → Action (SyncBase Component Data Interest Block S) (Unit {0})
  put_prepared_data x = put_to_face x

  unfoldable pub on_data_interest :
      Interest → Action (SyncBase Component Data Interest Block S) (Unit {0})
  on_data_interest interest = do
    b ← gets (λ b. b)
    elim (st.find interest b.store) [ none ↦ done | some x ↦ put_to_face x ]

  unfoldable pub on_data_validated :
      (Data → Bool) → Data → Action (SyncBase Component Data Interest Block S) (Unit {0})
  on_data_validated should_cache x = do
    if should_cache x then on_store (st.insert x) else done
    modify λ b. record b { face = b.face ++ data_callback x ∷ [] }

module _ {Component Data Interest Block S : Type 0} ⦃o : Ord (List Component)⦄
    (pk : Packets Component Data) (st : DataStore Component Data Interest S)
    (w : Wire (List Component) Interest Block) (d : Draws)
    (data_name : List Component → ℕ → ℕ → List Component) where
  unfoldable pub insert_data_at_seq :
      List ℕ
      → ℕ
      → List Component
      → ℕ
      → ℕ
      → Action (SyncBase Component Data Interest Block S) (Unit {0})
  insert_data_at_seq content freshness nid seq content_type = do
    b ← gets (λ b. b)
    let pub_id = or_self b.core (node_option nid)
    x ← lift (
        pk.sign (record {
          name = data_name pub_id b.core.bootstrap_time seq;
          content = content;
          freshness_period = freshness;
          content_type = content_type;
          final_block = none;
        }))
    on_store (st.insert x)
    put_to_face x

  unfoldable pub publish_data_at_seq :
      List ℕ
      → ℕ
      → List Component
      → ℕ
      → ℕ
      → Action (SyncBase Component Data Interest Block S) (Unit {0})
  unfolding insert_data_at_seq
  publish_data_at_seq content freshness nid seq content_type = do
    b ← gets (λ b. b)
    let pub_id = or_self b.core (node_option nid)
    insert_data_at_seq content freshness pub_id seq content_type
    on_core (update_own_seq_no w d seq (node_option pub_id))

  -- the number of the new publication
  unfoldable pub publish_data :
      List ℕ → ℕ → List Component → ℕ → Action (SyncBase Component Data Interest Block S) ℕ
  unfolding publish_data_at_seq
  publish_data content freshness id content_type = do
    b ← gets (λ b. b)
    let pub_id = or_self b.core (node_option id)
    let new_seq = get_seq_no b.core (node_option pub_id) + 1
    publish_data_at_seq content freshness pub_id new_seq content_type
    return new_seq

  -- one segment of a publication
  unfoldable pub insert_data_segment :
      Markers Component
      → List ℕ
      → ℕ
      → List Component
      → ℕ
      → ℕ
      → Component
      → ℕ
      → Action (SyncBase Component Data Interest Block S) (Unit {0})
  insert_data_segment mk content freshness nid seq seg_no final_block content_type = do
    b ← gets (λ b. b)
    x ← lift (
        pk.sign (record {
          name = data_name nid b.core.bootstrap_time seq ++ mk.version 0 ∷ mk.segment seg_no ∷ [];
          content = content;
          freshness_period = freshness;
          content_type = content_type;
          final_block = some final_block;
        }))
    on_store (st.insert x)

  -- `make_interest` is the constructor of an Interest that can be a prefix, with its lifetime.
  unfoldable pub fetch_data :
      (List Component → ℕ → Interest)
      → List Component
      → ℕ
      → ℕ
      → ℤ
      → Action (SyncBase Component Data Interest Block S) (Unit {0})
  fetch_data make_interest nid bootstrap_time seq_no n_retries = modify λ b. record b {
    fetcher =
        Fetcher.express_interest
          (make_interest (data_name nid bootstrap_time seq_no) b.fetch_interest_lifetime) n_retries
          b.fetcher;
  }

  -- the overloads without a bootstrap time
  unfoldable pub fetch_own_session :
      (List Component → ℕ → Interest)
      → List Component
      → ℕ
      → ℤ
      → Action (SyncBase Component Data Interest Block S) (Unit {0})
  unfolding fetch_data
  fetch_own_session make_interest nid seq_no n_retries = do
    b ← gets (λ b. b)
    fetch_data make_interest nid b.core.bootstrap_time seq_no n_retries
