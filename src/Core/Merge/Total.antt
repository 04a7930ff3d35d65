-- ===== src/Core/Merge/Total.antt =====
-- The merge never throws, and is a fold over the flat list of the entries.
use ndn_svs.Base.{
  ℕ, ◌≡◌, refl, true, List, [], ◌∷◌, ◌++◌, arith, ltb, Ord, nat_ord, if◌then◌else◌, ok,
}
use ndn_svs.Base.OrdMap.{OrdMap}
use ndn_svs.VersionVector.{VersionVector, store, get}
use ndn_svs.VersionVector.Invariant.{set-store}
use ndn_svs.Core.Merge.{
  MergeComputation, missing_info, merge_entry, merge_session, merge_entries, is_newer, merge_start,
  compute_merge_state_vector,
}

-- One entry of a vector: node, bootstrap time, sequence number.
abbrev pub Entry : Type 0 → Type 0
Entry Node = Node × ℕ × ℕ

module _ {Node : Type 0} where
  unfoldable pub flat_session : Node → OrdMap ℕ ℕ → List (Entry Node) → List (Entry Node)
  flat_session nid [] rest = rest
  flat_session nid ((b, s) ∷ seqs) rest = (nid, b, s) ∷ flat_session nid seqs rest

  unfoldable pub flat : OrdMap Node (OrdMap ℕ ℕ) → List (Entry Node)
  unfolding flat_session
  flat [] = []
  flat ((nid, seqs) ∷ entries) = flat_session nid seqs (flat entries)

module _ {Node : Type 0} ⦃o : Ord Node⦄ (now : ℕ) where
  unfoldable pub learn : Entry Node → MergeComputation Node → MergeComputation Node
  learn (nid, b, s) r =
      if ltb (get r.merged_vector nid b) s
      then record r {
        other_vector_new = true;
        missing_data = r.missing_data ++ missing_info nid (get r.merged_vector nid b) s b ∷ [];
        merged_vector = store now nid b s r.merged_vector;
      }
      else r

  unfoldable pub learn_all : List (Entry Node) → MergeComputation Node → MergeComputation Node
  learn_all [] r = r
  learn_all (e ∷ es) r = learn_all es (learn e r)

  merge_entry-learn :
      (nid : Node) (b s : ℕ) (r : MergeComputation Node)
      → merge_entry now nid b s r ≡ ok (learn (nid, b, s) r)
  unfolding merge_entry learn
  merge_entry-learn nid b s r = ground (arith, set-store now nid b s r.merged_vector)

  merge_session-learn_all :
      (nid : Node) (seqs : OrdMap ℕ ℕ) (rest : List (Entry Node)) (r : MergeComputation Node)
      → (q : MergeComputation Node) × (merge_session now nid seqs r ≡ ok q)
        × (learn_all (flat_session nid seqs rest) r ≡ learn_all rest q)
  unfolding merge_session flat_session learn_all
  merge_session-learn_all nid [] rest r = (r, refl, refl)
  merge_session-learn_all nid ((b, s) ∷ seqs) rest r =
      rw (merge_entry-learn nid b s r) (merge_session-learn_all nid seqs rest (learn (nid, b, s) r))

  pub merge_entries-learn_all :
      (entries : OrdMap Node (OrdMap ℕ ℕ)) (r : MergeComputation Node)
      → merge_entries now entries r ≡ ok (learn_all (flat entries) r)
  unfolding merge_entries flat learn_all
  merge_entries-learn_all [] r = refl
  merge_entries-learn_all ((nid, seqs) ∷ entries) r =
      let (q, e, f) = merge_session-learn_all nid seqs (flat entries) r in
      rw (e, f) (merge_entries-learn_all entries q)

  -- the merge as a function
  unfoldable pub merged : VersionVector Node → VersionVector Node → MergeComputation Node
  merged local remote =
      let r = learn_all (flat remote.entries) (merge_start local) in
      record r { my_vector_new = is_newer remote r.merged_vector.entries }

  -- `computeMergeStateVector` throws for no pair of vectors: where it calls `set` the number is
  -- positive. Its result is that of `merged`.
  pub compute_merge_state_vector-total :
      (local remote : VersionVector Node)
      → compute_merge_state_vector now local remote ≡ ok (merged local remote)
  unfolding compute_merge_state_vector merged
  compute_merge_state_vector-total local remote =
      rw (merge_entries-learn_all remote.entries (merge_start local))
