-- ===== src/Core/Merge/Missing.antt =====
-- What a merge reports as missing.
use ndn_svs.Base.{
  ℕ, ◌+◌, ◌≤◌, ◌≡◌, ◌&&◌, List, [], ◌∷◌, ◌++◌, arith, ltb, leb, Ord, nat_ord, ◌==◌, if◌then◌else◌,
}
use ndn_svs.VersionVector.{VersionVector, get}
use ndn_svs.VersionVector.Invariant.{IsValid}
use ndn_svs.Core.Merge.{MergeComputation, MissingDataInfo, missing_info, merge_start}
use ndn_svs.Core.Merge.Total.{Entry, flat, learn, learn_all, merged}
use ndn_svs.Core.Merge.Values.{get-learn, get-merged}

module _ {Node : Type 0} ⦃o : Ord Node⦄ where
  -- 1 where the range of `info` has number `x` of the session, and 0 elsewhere
  abbrev pub reports_one : MissingDataInfo Node → Node → ℕ → ℕ → ℕ
  reports_one info n b x =
      if (n == info.node_id && b == info.bootstrap_time) && (leb info.low x && leb x info.high)
      then 1
      else 0

  -- how often the ranges of `infos` report number `x` of the session
  abbrev pub reports : List (MissingDataInfo Node) → Node → ℕ → ℕ → ℕ
  reports [] n b x = 0
  reports (info ∷ infos) n b x = reports_one info n b x + reports infos n b x

  reports-append :
      (xs ys : List (MissingDataInfo Node)) (n : Node) (b x : ℕ)
      → reports (xs ++ ys) n b x ≡ reports xs n b x + reports ys n b x
  reports-append [] ys n b x = omega arith
  reports-append (i ∷ xs) ys n b x = omega (arith, reports-append xs ys n b x)

  reports-learn :
      (now : ℕ) (m : Node) (c s : ℕ) (r : MergeComputation Node) (n : Node) (b x : ℕ)
      → reports (learn now (m, c, s) r).missing_data n b x
        ≡ reports r.missing_data n b x
          + (if (n == m && b == c) && (ltb (get r.merged_vector m c) x && leb x s) then 1 else 0)
  unfolding learn
  reports-learn now m c s r n b x = ground (
    arith,
    reports-append r.missing_data (missing_info m (get r.merged_vector m c) s c ∷ []) n b x,
  )

  -- what a merge that started at `local` has reported so far
  abbrev Reported : VersionVector Node → MergeComputation Node → Type 0
  Reported local r =
      (n : Node) (b x : ℕ)
      → (get local n b ≤ get r.merged_vector n b)
        × (reports r.missing_data n b x
            ≡ (if ltb (get local n b) x && leb x (get r.merged_vector n b) then 1 else 0))

  learn-Reported :
      (now : ℕ) (local : VersionVector Node) (e : Entry Node) (r : MergeComputation Node)
      → Reported local r
      → Reported local (learn now e r)
  learn-Reported now local (m, c, s) r h n b x =
      ground
        (arith, h n b x, reports-learn now m c s r n b x, get-learn now m c s r n b, o.cmp_eq n m)

  learn_all-Reported :
      (now : ℕ) (local : VersionVector Node) (es : List (Entry Node)) (r : MergeComputation Node)
      → Reported local r
      → Reported local (learn_all now es r)
  unfolding learn_all
  learn_all-Reported now local [] r h = h
  learn_all-Reported now local (e ∷ es) r h =
      learn_all-Reported now local es (learn now e r) (learn-Reported now local e r h)

  -- A merge reports a sequence number of a session once if it lies above the local number and not
  -- above the remote one, and reports no other number.
  pub reports-merged :
      (now : ℕ) (local remote : VersionVector Node) (n : Node) (b x : ℕ)
      → IsValid remote
      → reports (merged now local remote).missing_data n b x
        ≡ (if ltb (get local n b) x && leb x (get remote n b) then 1 else 0)
  unfolding merged
  reports-merged now local remote n b x w =
      let start : Reported local (merge_start local) = λ n b x. ground arith in
      let whole =
        (learn_all-Reported now local (flat remote.entries) (merge_start local) start n b x).1 in
      ground (arith, whole, get-merged now local remote n b w)
