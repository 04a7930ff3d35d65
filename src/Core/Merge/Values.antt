-- ===== src/Core/Merge/Values.antt =====
-- The merged vector holds the greater number at every entry.
use ndn_svs.Base.{
  ℕ, ◌≤◌, ◌≡◌, refl, ap, ◌∙◌, max, ◌&&◌, Option, none, some, List, [], ◌∷◌, arith, ltb, Ord,
  nat_ord, ◌==◌, ==_iff, if◌then◌else◌, Bool-cases, inl, inr, All,
}
use ndn_svs.Base.OrdMap.{OrdMap, find, IsSorted, or_default}
use ndn_svs.Base.OrdMap.Laws.{find-tail}
use ndn_svs.VersionVector.{VersionVector, get}
use ndn_svs.VersionVector.Invariant.{IsValid, IsSession, get-store, store-IsValid}
use ndn_svs.Core.Merge.{MergeComputation, merge_start}
use ndn_svs.Core.Merge.Total.{Entry, flat_session, flat, learn, learn_all, merged}

abbrev best_session : OrdMap ℕ ℕ → ℕ → ℕ
best_session [] b = 0
best_session ((c, s) ∷ seqs) b = max (if b == c then s else 0) (best_session seqs b)

module _ {Node : Type 0} ⦃o : Ord Node⦄ where
  -- the greatest number that a list of entries holds for a session
  abbrev pub best : List (Entry Node) → Node → ℕ → ℕ
  best [] n b = 0
  best ((m, c, s) ∷ es) n b = max (if n == m && b == c then s else 0) (best es n b)

  pub get-learn :
      (now : ℕ) (m : Node) (c s : ℕ) (r : MergeComputation Node) (n : Node) (b : ℕ)
      → get (learn now (m, c, s) r).merged_vector n b
        ≡ max (get r.merged_vector n b) (if n == m && b == c then s else 0)
  unfolding learn
  get-learn now m c s r n b =
      ground (arith, get-store now m c s r.merged_vector n b, ==_iff n m, ==_iff b c)

  pub get-learn_all :
      (now : ℕ) (es : List (Entry Node)) (r : MergeComputation Node) (n : Node) (b : ℕ)
      → get (learn_all now es r).merged_vector n b ≡ max (get r.merged_vector n b) (best es n b)
  unfolding learn_all
  get-learn_all now [] r n b = omega arith
  get-learn_all now ((m, c, s) ∷ es) r n b =
      omega (arith, get-learn_all now es (learn now (m, c, s) r) n b, get-learn now m c s r n b)

  best-flat_session :
      (m : Node) (seqs : OrdMap ℕ ℕ) (rest : List (Entry Node)) (n : Node) (b : ℕ)
      → best (flat_session m seqs rest) n b
        ≡ max (if n == m then best_session seqs b else 0) (best rest n b)
  unfolding flat_session
  best-flat_session m [] rest n b = ground arith
  best-flat_session m ((c, s) ∷ seqs) rest n b = ground (arith, best-flat_session m seqs rest n b)

abbrev seq_in : Option (OrdMap ℕ ℕ) → ℕ → ℕ
seq_in none b = 0
seq_in (some seqs) b = or_default 0 (find b seqs)

best_session-find :
    (seqs : OrdMap ℕ ℕ) (b : ℕ) → IsSorted seqs → best_session seqs b ≡ or_default 0 (find b seqs)
unfolding find
best_session-find [] b h = refl
best_session-find ((c, s) ∷ seqs) b h =
    ground (arith, best_session-find seqs b h.1, find-tail b c s seqs h.0)

module _ {Node : Type 0} ⦃o : Ord Node⦄ where
  best-flat :
      (entries : OrdMap Node (OrdMap ℕ ℕ)) (n : Node) (b : ℕ)
      → IsSorted entries
      → All (λ e. IsSession e.1) entries
      → best (flat entries) n b ≡ seq_in (find n entries) b
  unfolding flat find
  best-flat [] n b h w = refl
  best-flat ((m, seqs) ∷ entries) n b h w = ground (
    arith,
    best-flat entries n b h.1 w.1,
    best-flat_session m seqs (flat entries) n b,
    best_session-find seqs b w.0.0,
    find-tail n m seqs entries h.0,
  )

  pub best-get :
      (v : VersionVector Node) (n : Node) (b : ℕ)
      → IsValid v
      → best (flat v.entries) n b ≡ get v n b
  unfolding get
  best-get v n b w = ground (arith, best-flat v.entries n b w.sorted w.sessions)

  -- After a merge every entry of the vector holds the greater of the local and the remote number.
  pub get-merged :
      (now : ℕ) (local remote : VersionVector Node) (n : Node) (b : ℕ)
      → IsValid remote
      → get (merged now local remote).merged_vector n b ≡ max (get local n b) (get remote n b)
  unfolding merged
  get-merged now local remote n b w =
      get-learn_all now (flat remote.entries) (merge_start local) n b
      ∙ ap (max (get local n b)) (best-get remote n b w)

  -- A merge makes no entry smaller.
  pub get-merged-le :
      (now : ℕ) (local remote : VersionVector Node) (n : Node) (b : ℕ)
      → get local n b ≤ get (merged now local remote).merged_vector n b
  unfolding merged
  get-merged-le now local remote n b =
      omega (arith, get-learn_all now (flat remote.entries) (merge_start local) n b)

  learn-IsValid :
      (now : ℕ) (e : Entry Node) (r : MergeComputation Node)
      → IsValid r.merged_vector
      → IsValid (learn now e r).merged_vector
  unfolding learn
  learn-IsValid now (m, c, s) r w = elim (Bool-cases (ltb (get r.merged_vector m c) s)) [
    | inl e ↦ rw e (store-IsValid now m c s r.merged_vector (ground arith) w)
    | inr e ↦ rw e w
  ]

  learn_all-IsValid :
      (now : ℕ) (es : List (Entry Node)) (r : MergeComputation Node)
      → IsValid r.merged_vector
      → IsValid (learn_all now es r).merged_vector
  unfolding learn_all
  learn_all-IsValid now [] r w = w
  learn_all-IsValid now (e ∷ es) r w =
      learn_all-IsValid now es (learn now e r) (learn-IsValid now e r w)

  -- A merge keeps the invariant of the local vector, whatever the remote one is.
  pub merged-IsValid :
      (now : ℕ) (local remote : VersionVector Node)
      → IsValid local
      → IsValid (merged now local remote).merged_vector
  unfolding merged
  merged-IsValid now local remote w =
      learn_all-IsValid now (flat remote.entries) (merge_start local) w
