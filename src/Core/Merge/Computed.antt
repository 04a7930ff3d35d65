-- ===== src/Core/Merge/Computed.antt =====
-- What `computeMergeStateVector` computes.
use ndn_svs.Base.{
  ℕ, ◌≡◌, ◌↔◌, sym, subst, max, true, false, [], arith, ltb, leb, ◌&&◌, Ord, nat_ord, if◌then◌else◌,
  ok, Bool-cases, inl, inr, Ensures, Ensures-ok,
}
use ndn_svs.VersionVector.{VersionVector, get}
use ndn_svs.VersionVector.Invariant.{IsValid}
use ndn_svs.Core.Merge.{MergeComputation, compute_merge_state_vector}
use ndn_svs.Core.Merge.Total.{merged, compute_merge_state_vector-total}
use ndn_svs.Core.Merge.Values.{get-merged, merged-IsValid}
use ndn_svs.Core.Merge.Missing.{reports, reports-merged}
use ndn_svs.Core.Merge.Newness.{
  Ahead, other_vector_new-Ahead, other_vector_new-same, my_vector_new-Ahead, my_vector_new-le,
}
use ndn_svs.Core.Merge.Lattice.{merged_comm, merged_assoc, merged_idem}

module _ {Node : Type 0} ⦃o : Ord Node⦄ where
  -- what holds of `merged` holds of the result
  of_merged {κ} :
      (P : MergeComputation Node → Type κ) (now : ℕ) (local remote : VersionVector Node)
      (r : MergeComputation Node)
      → P (merged now local remote)
      → compute_merge_state_vector now local remote ≡ ok r
      → P r
  of_merged P now local remote r p e =
      Ensures-ok P (compute_merge_state_vector now local remote) r
        (subst (Ensures P) (sym (compute_merge_state_vector-total now local remote)) p) e

  -- After a merge with a valid vector every entry holds the greater of the local and the received
  -- number.
  pub get-computed :
      (now : ℕ) (local remote : VersionVector Node) (r : MergeComputation Node) (n : Node) (b : ℕ)
      → IsValid remote
      → compute_merge_state_vector now local remote ≡ ok r
      → get r.merged_vector n b ≡ max (get local n b) (get remote n b)
  get-computed now local remote r n b w =
      of_merged (λ r. get r.merged_vector n b ≡ max (get local n b) (get remote n b)) now local
        remote r (get-merged now local remote n b w)

  -- A merge keeps the invariant of the local vector, whatever the received one is.
  pub computed-IsValid :
      (now : ℕ) (local remote : VersionVector Node) (r : MergeComputation Node)
      → IsValid local
      → compute_merge_state_vector now local remote ≡ ok r
      → IsValid r.merged_vector
  computed-IsValid now local remote r v =
      of_merged (λ r. IsValid r.merged_vector) now local remote r
        (merged-IsValid now local remote v)

  -- A merge with a valid vector reports a number of a session as missing once if it lies above the
  -- local number and not above the received one, and reports no other number.
  pub reports-computed :
      (now : ℕ) (local remote : VersionVector Node) (r : MergeComputation Node) (n : Node) (b x : ℕ)
      → IsValid remote
      → compute_merge_state_vector now local remote ≡ ok r
      → reports r.missing_data n b x
        ≡ (if ltb (get local n b) x && leb x (get remote n b) then 1 else 0)
  reports-computed now local remote r n b x w =
      of_merged
        (λ r.
          reports r.missing_data n b x
          ≡ (if ltb (get local n b) x && leb x (get remote n b) then 1 else 0))
        now local remote r (reports-merged now local remote n b x w)

  Ahead-of_other :
      (now : ℕ) (local remote : VersionVector Node)
      → IsValid remote
      → Ahead remote local
      → (merged now local remote).other_vector_new ≡ true
  Ahead-of_other now local remote w (n, b, h) =
      elim (Bool-cases (merged now local remote).other_vector_new) [
        | inl e ↦ e
        | inr e ↦
            let same = (other_vector_new-same now local remote e).0 in
            let value = get-merged now local remote n b w in
            let kept : get local n b ≡ max (get local n b) (get remote n b) =
              subst (λ v. get v n b ≡ max (get local n b) (get remote n b)) same value in
            absurd (omega (arith, kept, h))
      ]

  -- A merge of valid vectors calls the other vector new exactly if it is ahead at some entry, and
  -- the own vector new exactly if that one is.
  pub newness-computed :
      (now : ℕ) (local remote : VersionVector Node) (r : MergeComputation Node)
      → IsValid local
      → IsValid remote
      → compute_merge_state_vector now local remote ≡ ok r
      → ((r.other_vector_new ≡ true) ↔ Ahead remote local)
        × ((r.my_vector_new ≡ true) ↔ Ahead local remote)
  newness-computed now local remote r v w =
      of_merged
        (λ r.
          ((r.other_vector_new ≡ true) ↔ Ahead remote local)
          × ((r.my_vector_new ≡ true) ↔ Ahead local remote))
        now local remote r
        (
          (other_vector_new-Ahead now local remote w, Ahead-of_other now local remote w),
          (my_vector_new-Ahead now local remote v w, own_ahead),
        )
    where
      own_ahead : Ahead local remote → (merged now local remote).my_vector_new ≡ true
      own_ahead (n, b, h) = elim (Bool-cases (merged now local remote).my_vector_new) [
        | inl e ↦ e
        | inr e ↦ absurd (omega (arith, my_vector_new-le now local remote n b w e, h))
      ]

  -- If a merge does not call the other vector new, the vector is the local one and nothing is missing.
  pub computed_unchanged :
      (now : ℕ) (local remote : VersionVector Node) (r : MergeComputation Node)
      → compute_merge_state_vector now local remote ≡ ok r
      → r.other_vector_new ≡ false
      → (r.merged_vector ≡ local) × (r.missing_data ≡ [])
  computed_unchanged now local remote r =
      of_merged
        (λ r. r.other_vector_new ≡ false → (r.merged_vector ≡ local) × (r.missing_data ≡ [])) now
        local remote r (other_vector_new-same now local remote)

  -- Two nodes with valid vectors that merge each other's vector hold the same entries.
  pub computed_comm :
      (now later : ℕ) (u v : VersionVector Node) (r s : MergeComputation Node)
      → IsValid u
      → IsValid v
      → compute_merge_state_vector now u v ≡ ok r
      → compute_merge_state_vector later v u ≡ ok s
      → r.merged_vector.entries ≡ s.merged_vector.entries
  computed_comm now later u v r s p q e f =
      of_merged (λ r. r.merged_vector.entries ≡ s.merged_vector.entries) now u v r
        (of_merged (λ s. (merged now u v).merged_vector.entries ≡ s.merged_vector.entries) later v u
          s (merged_comm now later u v p q) f)
        e

  -- A valid vector that arrives a second time changes no entry.
  pub computed_idem :
      (now later : ℕ) (u v : VersionVector Node) (r s : MergeComputation Node)
      → IsValid u
      → IsValid v
      → compute_merge_state_vector now u v ≡ ok r
      → compute_merge_state_vector later r.merged_vector v ≡ ok s
      → s.merged_vector.entries ≡ r.merged_vector.entries
  computed_idem now later u v r s p q e =
      of_merged
        (λ r.
          compute_merge_state_vector later r.merged_vector v ≡ ok s
          → s.merged_vector.entries ≡ r.merged_vector.entries)
        now u v r
        (of_merged (λ s. s.merged_vector.entries ≡ (merged now u v).merged_vector.entries) later
          (merged now u v).merged_vector v s (merged_idem now later u v p q))
        e

  -- Valid vectors v and w that arrive in turn leave the entries that v would, had it heard w first.
  pub computed_assoc :
      (now later : ℕ) (u v w : VersionVector Node) (r s x y : MergeComputation Node)
      → IsValid u
      → IsValid v
      → IsValid w
      → compute_merge_state_vector now u v ≡ ok r
      → compute_merge_state_vector now r.merged_vector w ≡ ok s
      → compute_merge_state_vector later v w ≡ ok x
      → compute_merge_state_vector later u x.merged_vector ≡ ok y
      → s.merged_vector.entries ≡ y.merged_vector.entries
  computed_assoc now later u v w r s x y p q o' e =
      of_merged
        (λ r.
          compute_merge_state_vector now r.merged_vector w ≡ ok s
          → compute_merge_state_vector later v w ≡ ok x
          → compute_merge_state_vector later u x.merged_vector ≡ ok y
          → s.merged_vector.entries ≡ y.merged_vector.entries)
        now u v r
        (λ f g h.
          of_merged (λ s. s.merged_vector.entries ≡ y.merged_vector.entries) now
            (merged now u v).merged_vector w s
            (of_merged
              (λ x.
                compute_merge_state_vector later u x.merged_vector ≡ ok y
                → (merged now (merged now u v).merged_vector w).merged_vector.entries
                  ≡ y.merged_vector.entries)
              later v w x
              (of_merged
                (λ y.
                  (merged now (merged now u v).merged_vector w).merged_vector.entries
                  ≡ y.merged_vector.entries)
                later u (merged later v w).merged_vector y (merged_assoc now later u v w p q o'))
              g h)
            f)
        e
