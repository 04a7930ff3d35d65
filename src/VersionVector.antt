-- ===== src/VersionVector.antt =====
-- ndn-svs/version-vector.hpp and ndn-svs/version-vector.cpp: the vector of a node's knowledge,
-- `NodeID -> (BootstrapTime -> SeqNo)`, with the latest number of each node and the time of its
-- last update. `ndn::Name` is a type with an order. `time::system_clock::now()` is an argument.
pub mod Invariant
pub mod Equality
pub mod Updates
pub mod Codec
use ndn_svs.Base.{
  ℕ, ◌+◌, ◌%◌, ◌^◌, max, Bool, true, false, Option, none, some, List, [], ◌∷◌, ltb, Ord, nat_ord,
  ◌==◌, if◌then◌else◌, Result, ok, err, Error, throw_if, ◌>>=◌, ◌>>◌,
}
use ndn_svs.Base.OrdMap.{OrdMap, find, insert, erase, or_default}

pub record VersionVector (Node : Type 0) : Type 0 where
  pub entries : OrdMap Node (OrdMap ℕ ℕ)
  pub latest_map : OrdMap Node ℕ
  pub last_update : OrdMap Node ℕ

-- `uint64_t` wraps.
unfoldable pub is_bootstrap_time_too_far_in_future : ℕ → ℕ → Bool
is_bootstrap_time_too_far_in_future now bootstrap_time = ltb ((now + 86400) % 2 ^ 64) bootstrap_time

-- the loop `latestSeqNo = max(latestSeqNo, seqNo)`
unfoldable pub latest_seq_no : ℕ → OrdMap ℕ ℕ → ℕ
latest_seq_no latest [] = latest
latest_seq_no latest ((bootstrap_time, seq) ∷ seqs) = latest_seq_no (max latest seq) seqs

abbrev pub empty : {Node : Type 0} → VersionVector Node
empty = record { entries = []; latest_map = []; last_update = [] }

module _ {Node : Type 0} ⦃o : Ord Node⦄ where
  unfoldable pub get_entries : VersionVector Node → Node → OrdMap ℕ ℕ
  get_entries v nid = or_default [] (find nid v.entries)

  abbrev refreshed : Node → Option (OrdMap ℕ ℕ) → OrdMap Node ℕ → OrdMap Node ℕ
  refreshed nid none latest = erase nid latest
  refreshed nid (some []) latest = erase nid latest
  refreshed nid (some (e ∷ es)) latest = insert nid (latest_seq_no 0 (e ∷ es)) latest

  unfoldable pub refresh_latest : Node → VersionVector Node → VersionVector Node
  refresh_latest nid v = record v { latest_map = refreshed nid (find nid v.entries) v.latest_map }

  -- `set` behind its guard: `m_entries[nid][bootstrapTime] = seqNo` and what follows
  unfoldable pub store : ℕ → Node → ℕ → ℕ → VersionVector Node → VersionVector Node
  unfolding get_entries refresh_latest
  store now nid bootstrap_time seq v =
      let w = refresh_latest nid (record v {
        entries = insert nid (insert bootstrap_time seq (get_entries v nid)) v.entries;
      }) in
      record w { last_update = insert nid now w.last_update }

  unfoldable pub set : ℕ → Node → ℕ → ℕ → VersionVector Node → Result (VersionVector Node)
  unfolding store
  set now nid bootstrap_time seq v = do
    throw_if (seq == 0) Error.invalid_argument
    ok (store now nid bootstrap_time seq v)

  unfoldable pub get_latest : VersionVector Node → Node → ℕ
  get_latest v nid = or_default 0 (find nid v.latest_map)

  unfoldable pub get : VersionVector Node → Node → ℕ → ℕ
  get v nid bootstrap_time = elim (find nid v.entries) [
    | none ↦ 0
    | some seqs ↦ or_default 0 (find bootstrap_time seqs)
  ]

  unfoldable pub has : VersionVector Node → Node → Bool
  has v nid = elim (find nid v.entries) [ none ↦ false | some _ ↦ true ]

  -- `time_point::min()` is 0.
  unfoldable pub get_last_update : VersionVector Node → Node → ℕ
  get_last_update v nid = or_default 0 (find nid v.last_update)

-- the key of `rbegin()`
unfoldable pub last_key : ℕ → OrdMap ℕ ℕ → ℕ
last_key k [] = k
last_key k ((j, s) ∷ m) = last_key j m

unfoldable pub get_bootstrap_time : {Node : Type 0} ⦃o : Ord Node⦄ → VersionVector Node → Node → ℕ
unfolding last_key
get_bootstrap_time v nid = elim (find nid v.entries) [ none ↦ 0 | some seqs ↦ last_key 0 seqs ]
