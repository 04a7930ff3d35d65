-- ===== src/Core/Suppression.antt =====
-- Suppression: what is recorded, and when a node answers.
use ndn_svs.Base.{
  if◌then◌else◌, false, ℕ, ◌≡◌, refl, ◌∙◌, ap, max, true, some, List, [], ◌∷◌, arith, ltb, Ord,
  nat_ord, ok, Bool-cases, inl, inr,
}
use ndn_svs.Base.OrdMap.{OrdMap}
use ndn_svs.VersionVector.{VersionVector, get}
use ndn_svs.VersionVector.Invariant.{IsValid, set-store}
use ndn_svs.Core.Merge.{MergeComputation, merge_start}
use ndn_svs.Core.Merge.Total.{Entry, flat, flat_session, learn, learn_all}
use ndn_svs.Core.Merge.Values.{get-learn_all, best-get}
use ndn_svs.Core.State.{
  Core, Wire, Draws, record_session, record_entries, record_into, record_vector,
}
use ndn_svs.Core.Receive.{respond}

module _ {Node : Type 0} ⦃o : Ord Node⦄ (now : ℕ) where
  record_one :
      (nid : Node) (b s : ℕ) (seqs : OrdMap ℕ ℕ) (r : MergeComputation Node)
      → record_session now nid ((b, s) ∷ seqs) r.merged_vector
        ≡ record_session now nid seqs (learn now (nid, b, s) r).merged_vector
  unfolding record_session learn
  record_one nid b s seqs r = elim (Bool-cases (ltb (get r.merged_vector nid b) s)) [
    | inl e ↦ rw e (rw (set-store now nid b s r.merged_vector (ground arith)))
    | inr e ↦ rw e
  ]

  record_session-learn_all :
      (nid : Node) (seqs : OrdMap ℕ ℕ) (rest : List (Entry Node)) (r : MergeComputation Node)
      → (q : MergeComputation Node) × (record_session now nid seqs r.merged_vector
          ≡ ok q.merged_vector)
        × (learn_all now (flat_session nid seqs rest) r ≡ learn_all now rest q)
  unfolding record_session flat_session learn_all
  record_session-learn_all nid [] rest r = (r, refl, refl)
  record_session-learn_all nid ((b, s) ∷ seqs) rest r =
      let (q, e, f) = record_session-learn_all nid seqs rest (learn now (nid, b, s) r) in
      (q, record_one nid b s seqs r ∙ e, f)

  record_entries-learn_all :
      (entries : OrdMap Node (OrdMap ℕ ℕ)) (r : MergeComputation Node)
      → record_entries now entries r.merged_vector
        ≡ ok (learn_all now (flat entries) r).merged_vector
  unfolding record_entries flat learn_all
  record_entries-learn_all [] r = refl
  record_entries-learn_all ((nid, seqs) ∷ entries) r =
      let (q, e, f) = record_session-learn_all nid seqs (flat entries) r in
      rw (e, f) (record_entries-learn_all entries q)

-- a record after a vector came in
abbrev recorded :
    {Node : Type 0} ⦃o : Ord Node⦄
    → ℕ
    → VersionVector Node
    → VersionVector Node
    → VersionVector Node
recorded now v received = (learn_all now (flat received.entries) (merge_start v)).merged_vector

module _ {Node Interest Block : Type 0} ⦃o : Ord Node⦄ where
  record_into-some :
      (now : ℕ) (c : Core Node Interest Block) (v received : VersionVector Node)
      → record_into (some v) now received c
        ≡ (ok true, record c { recorded_vv = some (recorded now v received) })
  unfolding record_into
  record_into-some now c v received =
      rw (record_entries-learn_all now received.entries (merge_start v), record_into)

  -- In the suppression state a received vector that is valid is recorded, and nothing is thrown: at
  -- every entry the record then holds the greater number, and nothing else of the core changes.
  pub record_vector-records :
      (now : ℕ) (c : Core Node Interest Block) (v other : VersionVector Node)
      → c.recorded_vv ≡ some v
      → IsValid other
      → (v' : VersionVector Node) × (record_vector now other c
          ≡ (ok true, record c { recorded_vv = some v' }))
        × ((n : Node) (b : ℕ) → get v' n b ≡ max (get v n b) (get other n b))
  unfolding record_vector
  record_vector-records now c v other h w = (
    recorded now v other,
    ap (λ r. record_into r now other c) h ∙ record_into-some now c v other,
    λ n b.
        get-learn_all now (flat other.entries) (merge_start v) n b
        ∙ ap (max (get v n b)) (best-get other n b w),
  )

module _ {Node Interest Block : Type 0} ⦃o : Ord Node⦄ (w : Wire Node Interest Block)
    (d : Draws) where
  -- A node that is ahead, and whose curved delay is zero, does not answer at once: it puts nothing
  -- on the face. If its timer lies in the future, the timer is set to what a
  -- node that is not ahead sets it to, the full period; otherwise the timer is left as it is. (A
  -- delay of 0 asks `retxSyncInterest` for its default.)
  pub respond_without_delay :
      (c : Core Node Interest Block) (v : VersionVector Node)
      → w.suppression_curve c.max_suppression_time d.reply_dist ≡ 0
      → let answer = (respond w d true v c).1 in
        let calm = (respond w d false v c).1 in
        let future = ltb d.current_time c.next_sync_interest in
        (answer.retx_event ≡ (if future then calm.retx_event else c.retx_event))
        × (answer.next_sync_interest
            ≡ (if future then calm.next_sync_interest else c.next_sync_interest))
        × (answer.effects ≡ c.effects)
  unfolding respond
  respond_without_delay c v z = ground arith
