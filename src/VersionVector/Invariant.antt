-- ===== src/VersionVector/Invariant.antt =====
-- The representation invariant of a version vector, and reads after `set`.
use ndn_svs.Base.{
  ℕ, ◌<◌, ◌≡◌, ◌≢◌, refl, [], ◌∷◌, arith, Ord, nat_ord, ◌==◌, ◌&&◌, if◌then◌else◌, ==_iff, ==_self,
  All, ok, Option-cases, inl, inr,
}
use ndn_svs.Base.OrdMap.{OrdMap, find, insert, IsSorted, or_default}
use ndn_svs.Base.OrdMap.Laws.{find-insert, insert-IsSorted, All-insert, All-find}
use ndn_svs.VersionVector.{VersionVector, latest_seq_no, store, set, get, get_entries, get_latest}

-- A node's map is sorted and not empty, and its numbers are positive.
abbrev pub IsSession : OrdMap ℕ ℕ → Type 0
IsSession seqs = IsSorted seqs × (seqs ≢ []) × All (λ e. 0 < e.1) seqs

insert-ne-nil : (b s : ℕ) (seqs : OrdMap ℕ ℕ) → insert b s seqs ≢ []
unfolding insert
insert-ne-nil b s [] e = cc
insert-ne-nil b s ((k, v) ∷ seqs) e = ground arith

insert-IsSession :
    (b s : ℕ) (seqs : OrdMap ℕ ℕ)
    → 0 < s
    → IsSorted seqs
    → All (λ e. 0 < e.1) seqs
    → IsSession (insert b s seqs)
insert-IsSession b s seqs h sorted pos = (
  insert-IsSorted b s seqs sorted,
  insert-ne-nil b s seqs,
  All-insert (λ e. 0 < e.1) b s seqs h pos,
)

module _ {Node : Type 0} ⦃o : Ord Node⦄ where
  pub record IsValid (v : VersionVector Node) : Type 0 where
    pub sorted : IsSorted v.entries
    pub sessions : All (λ e. IsSession e.1) v.entries
    pub latest : (nid : Node) → get_latest v nid ≡ latest_seq_no 0 (get_entries v nid)

  pub get-store :
      (now : ℕ) (nid : Node) (b s : ℕ) (v : VersionVector Node) (n : Node) (c : ℕ)
      → get (store now nid b s v) n c ≡ (if n == nid && c == b then s else get v n c)
  unfolding get store find
  get-store now nid b s v n c = ground (
    arith,
    find-insert nid n (insert b s (or_default [] (find nid v.entries))) v.entries,
    find-insert b c s (or_default [] (find nid v.entries)),
    ==_iff n nid,
  )

  pub set-store :
      (now : ℕ) (nid : Node) (b s : ℕ) (v : VersionVector Node)
      → 0 < s
      → set now nid b s v ≡ ok (store now nid b s v)
  unfolding set
  set-store now nid b s v h = ground arith

  entries-IsSorted :
      (v : VersionVector Node) (nid : Node)
      → IsValid v
      → IsSorted (get_entries v nid) × All (λ e. 0 < e.1) (get_entries v nid)
  unfolding get_entries
  entries-IsSorted v nid w = elim (Option-cases (find nid v.entries)) [
    | inl e ↦ rw e (tt, tt)
    | inr (seqs, e) ↦ let s = All-find IsSession nid v.entries seqs w.sessions e in rw e (s.0, s.2)
  ]

  pub get_entries-store :
      (now : ℕ) (nid : Node) (b s : ℕ) (v : VersionVector Node) (n : Node)
      → get_entries (store now nid b s v) n
        ≡ (if n == nid then insert b s (get_entries v nid) else get_entries v n)
  unfolding store
  get_entries-store now nid b s v n =
      ground (arith, find-insert nid n (insert b s (or_default [] (find nid v.entries))) v.entries)

  -- `set` leaves the latest number of the node it writes, and no other.
  pub get_latest-store :
      (now : ℕ) (nid : Node) (b s : ℕ) (v : VersionVector Node) (n : Node)
      → get_latest (store now nid b s v) n
        ≡ (if n == nid then latest_seq_no 0 (insert b s (get_entries v nid)) else get_latest v n)
  unfolding store get_latest
  get_latest-store now nid b s v n = refreshed_lem (insert b s (get_entries v nid)) refl
    where
      refreshed_lem :
          (seqs : OrdMap ℕ ℕ)
          → insert b s (get_entries v nid) ≡ seqs
          → get_latest (store now nid b s v) n
            ≡ (if n == nid then latest_seq_no 0 seqs else get_latest v n)
      refreshed_lem [] e = absurd (insert-ne-nil b s (get_entries v nid) e)
      refreshed_lem (x ∷ seqs) e =
          rw (find-insert, ==_self, e)
            (ground (arith, find-insert nid n (latest_seq_no 0 (x ∷ seqs)) v.latest_map))

  pub store-IsValid :
      (now : ℕ) (nid : Node) (b s : ℕ) (v : VersionVector Node)
      → 0 < s
      → IsValid v
      → IsValid (store now nid b s v)
  unfolding store
  store-IsValid now nid b s v h w =
      let old = entries-IsSorted v nid w in
      let new = insert-IsSession b s (get_entries v nid) h old.0 old.1 in
      record {
        sorted = insert-IsSorted nid _ v.entries w.sorted;
        sessions = All-insert (λ e. IsSession e.1) nid _ v.entries new w.sessions;
        latest = λ n. ground (
          arith,
          get_latest-store now nid b s v n,
          get_entries-store now nid b s v n,
          w.latest n,
        );
      }
