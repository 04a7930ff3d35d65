-- ===== src/Core/Merge/Lattice.antt =====
-- Merging as the join of a semilattice: the order in which vectors arrive does not matter.
use ndn_svs.Base.{ℕ, ◌≡◌, arith, Ord}
use ndn_svs.VersionVector.{VersionVector}
use ndn_svs.VersionVector.Invariant.{IsValid}
use ndn_svs.VersionVector.Equality.{entries_ext}
use ndn_svs.Core.Merge.Total.{merged}
use ndn_svs.Core.Merge.Values.{get-merged, merged-IsValid}

module _ {Node : Type 0} ⦃o : Ord Node⦄ where
  -- the vector after a merge at a time
  abbrev pub join : ℕ → VersionVector Node → VersionVector Node → VersionVector Node
  join now u v = (merged now u v).merged_vector

  -- Two nodes that merge each other's vectors hold the same entries.
  pub merged_comm :
      (now later : ℕ) (u v : VersionVector Node)
      → IsValid u
      → IsValid v
      → (merged now u v).merged_vector.entries ≡ (merged later v u).merged_vector.entries
  merged_comm now later u v p q =
      entries_ext (join now u v) (join later v u) (merged-IsValid now u v p)
        (merged-IsValid later v u q)
        λ n b. omega (arith, get-merged now u v n b q, get-merged later v u n b p)

  -- Merging a vector and then another one is merging the two of them joined.
  pub merged_assoc :
      (now later : ℕ) (u v w : VersionVector Node)
      → IsValid u
      → IsValid v
      → IsValid w
      → (merged now (merged now u v).merged_vector w).merged_vector.entries
        ≡ (merged later u (merged later v w).merged_vector).merged_vector.entries
  merged_assoc now later u v w p q r =
      let uv = merged-IsValid now u v p in
      let vw = merged-IsValid later v w q in
      entries_ext (join now (join now u v) w) (join later u (join later v w))
        (merged-IsValid now (join now u v) w uv) (merged-IsValid later u (join later v w) p)
        λ n b. omega (
          arith,
          get-merged now u v n b q,
          get-merged now (join now u v) w n b r,
          get-merged later v w n b r,
          get-merged later u (join later v w) n b vw,
        )

  -- A vector that arrives again changes nothing.
  pub merged_idem :
      (now later : ℕ) (u v : VersionVector Node)
      → IsValid u
      → IsValid v
      → (merged later (merged now u v).merged_vector v).merged_vector.entries
        ≡ (merged now u v).merged_vector.entries
  merged_idem now later u v p q =
      let uv = merged-IsValid now u v p in
      entries_ext (join later (join now u v) v) (join now u v)
        (merged-IsValid later (join now u v) v uv) uv
        λ n b. omega (arith, get-merged now u v n b q, get-merged later (join now u v) v n b q)
