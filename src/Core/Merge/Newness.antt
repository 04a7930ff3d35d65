-- ===== src/Core/Merge/Newness.antt =====
-- The two flags of a merge.
use ndn_svs.Base.{
  ℕ, ◌≤◌, ◌<◌, ◌≡◌, refl, ◌∙◌, ap, sym, true, false, List, [], ◌∷◌, arith, ltb, Ord, nat_ord,
  Bool-cases, ◌⊎◌, inl, inr, All, some, Option-cases,
}
use ndn_svs.Base.OrdMap.{OrdMap, find, IsSorted, or_default}
use ndn_svs.Base.OrdMap.Laws.{find-head, find-tail}
use ndn_svs.VersionVector.{VersionVector, get}
use ndn_svs.VersionVector.Invariant.{IsValid, IsSession}
use ndn_svs.Core.Merge.{MergeComputation, merge_start, is_newer, is_session_newer}
use ndn_svs.Core.Merge.Total.{Entry, flat, learn, learn_all, merged}
use ndn_svs.Core.Merge.Values.{get-learn, get-merged, merged-IsValid}

module _ {Node : Type 0} ⦃o : Ord Node⦄ where
  learn-other_vector_new :
      (now : ℕ) (e : Entry Node) (r : MergeComputation Node)
      → r.other_vector_new ≡ true
      → (learn now e r).other_vector_new ≡ true
  unfolding learn
  learn-other_vector_new now (m, c, s) r h = ground arith

  learn_all-other_vector_new :
      (now : ℕ) (es : List (Entry Node)) (r : MergeComputation Node)
      → r.other_vector_new ≡ true
      → (learn_all now es r).other_vector_new ≡ true
  unfolding learn_all
  learn_all-other_vector_new now [] r h = h
  learn_all-other_vector_new now (e ∷ es) r h =
      learn_all-other_vector_new now es (learn now e r) (learn-other_vector_new now e r h)

  learn_cases :
      (now : ℕ) (e : Entry Node) (r : MergeComputation Node)
      → (learn now e r ≡ r) ⊎ ((learn now e r).other_vector_new ≡ true)
  unfolding learn
  learn_cases now (m, c, s) r = ground arith

  -- Where nothing was learnt, nothing changed.
  learn_all-same :
      (now : ℕ) (es : List (Entry Node)) (r : MergeComputation Node)
      → (learn_all now es r).other_vector_new ≡ false
      → learn_all now es r ≡ r
  unfolding learn_all
  learn_all-same now [] r e = refl
  learn_all-same now (x ∷ es) r e = elim (learn_cases now x r) [
    | inl same ↦
        rw same
          (learn_all-same now es r (ap (λ q. (learn_all now es q).other_vector_new) (sym same) ∙ e))
    | inr new ↦ cc (learn_all-other_vector_new now es (learn now x r) new)
  ]

  -- An entry at which `v` is ahead of `u`.
  abbrev pub Ahead : VersionVector Node → VersionVector Node → Type 0
  Ahead v u = (n : Node) × (b : ℕ) × (get u n b < get v n b)

  -- something was learnt since the merge started at `local`
  abbrev Learnt : VersionVector Node → MergeComputation Node → Type 0
  Learnt local r = r.other_vector_new ≡ true → Ahead r.merged_vector local

  learn-Learnt :
      (now : ℕ) (local : VersionVector Node) (e : Entry Node) (r : MergeComputation Node)
      → ((n : Node) (b : ℕ) → get local n b ≤ get r.merged_vector n b)
      → Learnt local r
      → Learnt local (learn now e r)
  learn-Learnt now local (m, c, s) r above h new =
      elim (Bool-cases (ltb (get r.merged_vector m c) s)) [
        | inl e ↦ (m, c, ground (arith, above m c, get-learn now m c s r m c, o.cmp_self m))
        | inr e ↦ unfold learn in (rw (e, learn) (h (rw (e, learn) at new)))
      ]

  learn_all-Learnt :
      (now : ℕ) (local : VersionVector Node) (es : List (Entry Node)) (r : MergeComputation Node)
      → ((n : Node) (b : ℕ) → get local n b ≤ get r.merged_vector n b)
      → Learnt local r
      → Learnt local (learn_all now es r)
  unfolding learn_all
  learn_all-Learnt now local [] r above h = h
  learn_all-Learnt now local ((m, c, s) ∷ es) r above h =
      learn_all-Learnt now local es (learn now (m, c, s) r)
        (λ n b. omega (arith, above n b, get-learn now m c s r n b))
        (learn-Learnt now local (m, c, s) r above h)

  -- A merge calls the other vector new only if it is ahead at some entry.
  pub other_vector_new-Ahead :
      (now : ℕ) (local remote : VersionVector Node)
      → IsValid remote
      → (merged now local remote).other_vector_new ≡ true
      → Ahead remote local
  unfolding merged
  other_vector_new-Ahead now local remote w e =
      let (n, b, h) =
        learn_all-Learnt now local (flat remote.entries) (merge_start local) (λ n b. omega arith)
          (λ e. cc) e in
      (n, b, omega (arith, h, get-merged now local remote n b w))

  -- If it does not, the vector is the local one and nothing is missing.
  pub other_vector_new-same :
      (now : ℕ) (local remote : VersionVector Node)
      → (merged now local remote).other_vector_new ≡ false
      → ((merged now local remote).merged_vector ≡ local)
        × ((merged now local remote).missing_data ≡ [])
  unfolding merged
  other_vector_new-same now local remote e =
      let same = learn_all-same now (flat remote.entries) (merge_start local) e in
      (ap (λ r. r.merged_vector) same, ap (λ r. r.missing_data) same)

  is_session_newer-false :
      (remote : VersionVector Node) (n : Node) (seqs : OrdMap ℕ ℕ) (b : ℕ)
      → is_session_newer remote n seqs ≡ false
      → or_default 0 (find b seqs) ≤ get remote n b
  unfolding is_session_newer find
  is_session_newer-false remote n [] b e = omega arith
  is_session_newer-false remote n ((c, s) ∷ seqs) b e =
      ground (arith, is_session_newer-false remote n seqs b)

  is_session_newer-true :
      (remote : VersionVector Node) (n : Node) (seqs : OrdMap ℕ ℕ)
      → IsSorted seqs
      → is_session_newer remote n seqs ≡ true
      → (b : ℕ) × (get remote n b < or_default 0 (find b seqs))
  unfolding is_session_newer
  is_session_newer-true remote n [] h e = cc
  is_session_newer-true remote n ((c, s) ∷ seqs) h e = elim (Bool-cases (ltb (get remote n c) s)) [
    | inl t ↦ (c, ground (arith, find-head c s seqs))
    | inr f ↦
        let (b, g) = is_session_newer-true remote n seqs h.1 (rw f at e) in
        (b, ground (arith, find-tail b c s seqs h.0))
  ]

  is_newer-false :
      (remote : VersionVector Node) (entries : OrdMap Node (OrdMap ℕ ℕ)) (n : Node)
      (seqs : OrdMap ℕ ℕ) (b : ℕ)
      → is_newer remote entries ≡ false
      → find n entries ≡ some seqs
      → or_default 0 (find b seqs) ≤ get remote n b
  unfolding is_newer find
  is_newer-false remote [] n seqs b e f = cc
  is_newer-false remote ((m, x) ∷ entries) n seqs b e f = ground (
    arith,
    is_newer-false remote entries n seqs b,
    is_session_newer-false remote m x b,
    o.cmp_eq n m,
  )

  -- the entry at which a list of entries is ahead of `remote`
  abbrev EntryAhead : OrdMap Node (OrdMap ℕ ℕ) → VersionVector Node → Type 0
  EntryAhead entries remote =
      (n : Node) × (seqs : OrdMap ℕ ℕ) × (b : ℕ) × (find n entries ≡ some seqs)
      × (get remote n b < or_default 0 (find b seqs))

  is_newer-true :
      (remote : VersionVector Node) (entries : OrdMap Node (OrdMap ℕ ℕ))
      → IsSorted entries
      → All (λ e. IsSession e.1) entries
      → is_newer remote entries ≡ true
      → EntryAhead entries remote
  unfolding is_newer
  is_newer-true remote [] h w e = cc
  is_newer-true remote ((m, x) ∷ entries) h w e = elim (Bool-cases (is_session_newer remote m x)) [
    | inl t ↦
        let (b, g) = is_session_newer-true remote m x w.0.0 t in (m, x, b, find-head m x entries, g)
    | inr f ↦
        let (n, seqs, b, g, k) = is_newer-true remote entries h.1 w.1 (rw f at e) in
        (n, seqs, b, ground (arith, find-tail n m x entries h.0), k)
  ]

  -- A merge calls the own vector new only if it is ahead at some entry.
  pub my_vector_new-Ahead :
      (now : ℕ) (local remote : VersionVector Node)
      → IsValid local
      → IsValid remote
      → (merged now local remote).my_vector_new ≡ true
      → Ahead local remote
  my_vector_new-Ahead now local remote v w e =
      let m = (merged now local remote).merged_vector in
      let valid = merged-IsValid now local remote v in
      let (n, seqs, b, f, g) =
        is_newer-true remote m.entries valid.sorted valid.sessions (unfold merged in e) in
      let here : get m n b ≡ or_default 0 (find b seqs) = unfold get in (rw (f, get)) in
      (n, b, omega (arith, g, here, get-merged now local remote n b w))

  -- If it does not, no number of the local vector is above the remote one.
  pub my_vector_new-le :
      (now : ℕ) (local remote : VersionVector Node) (n : Node) (b : ℕ)
      → IsValid remote
      → (merged now local remote).my_vector_new ≡ false
      → get local n b ≤ get remote n b
  my_vector_new-le now local remote n b w e =
      let m = (merged now local remote).merged_vector in
      elim (Option-cases (find n m.entries)) [
        | inl f ↦
            let here : get m n b ≡ 0 = unfold get in (rw (f, get)) in
            omega (arith, here, get-merged now local remote n b w)
        | inr (seqs, f) ↦
            let here : get m n b ≡ or_default 0 (find b seqs) = unfold get in (rw (f, get)) in
            omega (
              arith,
              here,
              get-merged now local remote n b w,
              is_newer-false remote m.entries n seqs b (unfold merged in e) f,
            )
      ]
