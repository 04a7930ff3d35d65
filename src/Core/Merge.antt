-- ===== src/Core/Merge.antt =====
-- `computeMergeStateVector` of ndn-svs/core.cpp: two loops over the entries of the vectors. The
-- clock is read once for a call.
pub mod Total
pub mod Values
pub mod Missing
pub mod Newness
pub mod Lattice
pub mod Computed
use ndn_svs.Base.{
  ℕ, ◌+◌, Bool, true, false, List, [], ◌∷◌, ◌++◌, ltb, Ord, nat_ord, if◌then◌else◌, Result, ok, err,
  ◌>>=◌,
}
use ndn_svs.Base.OrdMap.{OrdMap}
use ndn_svs.VersionVector.{VersionVector, set, get}

-- `MissingDataInfo`
pub record MissingDataInfo (Node : Type 0) : Type 0 where
  pub node_id : Node
  pub low : ℕ
  pub high : ℕ
  pub incoming_face : ℕ
  pub bootstrap_time : ℕ

-- `MergeComputationResult`
pub record MergeComputation (Node : Type 0) : Type 0 where
  pub my_vector_new : Bool
  pub other_vector_new : Bool
  pub missing_data : List (MissingDataInfo Node)
  pub merged_vector : VersionVector Node

abbrev pub missing_info : {Node : Type 0} → Node → ℕ → ℕ → ℕ → MissingDataInfo Node
missing_info nid current other bootstrap_time = record {
  node_id = nid;
  low = current + 1;
  high = other;
  incoming_face = 0;
  bootstrap_time = bootstrap_time;
}

module _ {Node : Type 0} ⦃o : Ord Node⦄ (now : ℕ) where
  -- the body of the first loop
  unfoldable pub merge_entry : Node → ℕ → ℕ → MergeComputation Node → Result (MergeComputation Node)
  merge_entry nid bootstrap_time seq_other r =
      let seq_current = get r.merged_vector nid bootstrap_time in
      if ltb seq_current seq_other
      then (do
        merged ← set now nid bootstrap_time seq_other r.merged_vector
        ok (record r {
          other_vector_new = true;
          missing_data =
              r.missing_data ++ missing_info nid seq_current seq_other bootstrap_time ∷ [];
          merged_vector = merged;
        }))
      else ok r

  unfoldable pub merge_session :
      Node → OrdMap ℕ ℕ → MergeComputation Node → Result (MergeComputation Node)
  unfolding merge_entry
  merge_session nid [] r = ok r
  merge_session nid ((bootstrap_time, seq_other) ∷ seqs) r = do
    r' ← merge_entry nid bootstrap_time seq_other r
    merge_session nid seqs r'

  unfoldable pub merge_entries :
      OrdMap Node (OrdMap ℕ ℕ) → MergeComputation Node → Result (MergeComputation Node)
  unfolding merge_session
  merge_entries [] r = ok r
  merge_entries ((nid, seqs) ∷ entries) r = do
    r' ← merge_session nid seqs r
    merge_entries entries r'

module _ {Node : Type 0} ⦃o : Ord Node⦄ (remote : VersionVector Node) where
  -- the second loop: whether `remote` is behind at some entry
  unfoldable pub is_session_newer : Node → OrdMap ℕ ℕ → Bool
  is_session_newer nid [] = false
  is_session_newer nid ((bootstrap_time, seq) ∷ seqs) =
      if ltb (get remote nid bootstrap_time) seq then true else is_session_newer nid seqs

  unfoldable pub is_newer : OrdMap Node (OrdMap ℕ ℕ) → Bool
  unfolding is_session_newer
  is_newer [] = false
  is_newer ((nid, seqs) ∷ entries) = if is_session_newer nid seqs then true else is_newer entries

abbrev pub merge_start : {Node : Type 0} → VersionVector Node → MergeComputation Node
merge_start local = record {
  my_vector_new = false;
  other_vector_new = false;
  missing_data = [];
  merged_vector = local;
}

unfoldable pub compute_merge_state_vector :
    {Node : Type 0} ⦃o : Ord Node⦄
    → ℕ
    → VersionVector Node
    → VersionVector Node
    → Result (MergeComputation Node)
unfolding merge_entries is_newer
compute_merge_state_vector now local remote = do
  r ← merge_entries now remote.entries (merge_start local)
  ok (record r { my_vector_new = is_newer remote r.merged_vector.entries })
