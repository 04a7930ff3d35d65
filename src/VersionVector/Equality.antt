-- ===== src/VersionVector/Equality.antt =====
-- Valid vectors that read alike have the same entries, and the latest number bounds all others.
use ndn_svs.Base.{
  ℕ, ◌≤◌, ◌<◌, ◌≡◌, refl, sym, max, Option, none, some, [], ◌∷◌, arith, Ord, nat_ord, Option-cases,
  inl, inr,
}
use ndn_svs.Base.OrdMap.{OrdMap, find, or_default}
use ndn_svs.Base.OrdMap.Laws.{All-find, eq_of_find, find-head}
use ndn_svs.VersionVector.{VersionVector, latest_seq_no, get, get_entries, get_latest}
use ndn_svs.VersionVector.Invariant.{IsValid, IsSession}

abbrev seq_at : OrdMap ℕ ℕ → ℕ → ℕ
seq_at seqs b = or_default 0 (find b seqs)

IsPositive : Option ℕ → Type 0
IsPositive none = Unit
IsPositive (some s) = 0 < s

eq_of_seq : (x y : Option ℕ) → IsPositive x → IsPositive y → or_default 0 x ≡ or_default 0 y → x ≡ y
unfolding IsPositive
eq_of_seq none none p q e = refl
eq_of_seq none (some s) p q e = ground arith
eq_of_seq (some s) none p q e = ground arith
eq_of_seq (some s) (some t) p q e = ground arith

find-IsPositive : (b : ℕ) (seqs : OrdMap ℕ ℕ) → IsSession seqs → IsPositive (find b seqs)
unfolding IsPositive
find-IsPositive b seqs w = elim (Option-cases (find b seqs)) [
  | inl e ↦ rw e tt
  | inr (s, e) ↦ rw e (All-find (λ t. 0 < t) b seqs s w.2 e)
]

session_ext :
    (x y : OrdMap ℕ ℕ) → IsSession x → IsSession y → ((b : ℕ) → seq_at x b ≡ seq_at y b) → x ≡ y
session_ext x y p q h =
    eq_of_find x y p.0 q.0
      λ b. eq_of_seq (find b x) (find b y) (find-IsPositive b x p) (find-IsPositive b y q) (h b)

-- A session has a number that is not zero.
session_nonzero : (x : OrdMap ℕ ℕ) → IsSession x → ((b : ℕ) → seq_at x b ≡ 0) → ⊥
session_nonzero [] p h = p.1 refl
session_nonzero ((b, s) ∷ x) p h = ground (arith, h b, find-head b s x, p.2.0)

abbrev IsSession? : Option (OrdMap ℕ ℕ) → Type 0
IsSession? none = Unit
IsSession? (some x) = IsSession x

abbrev seq_at? : Option (OrdMap ℕ ℕ) → ℕ → ℕ
seq_at? none b = 0
seq_at? (some x) b = seq_at x b

sessions_ext :
    (x y : Option (OrdMap ℕ ℕ))
    → IsSession? x
    → IsSession? y
    → ((b : ℕ) → seq_at? x b ≡ seq_at? y b)
    → x ≡ y
sessions_ext none none p q h = refl
sessions_ext none (some y) p q h = absurd (session_nonzero y q (λ b. sym (h b)))
sessions_ext (some x) none p q h = absurd (session_nonzero x p h)
sessions_ext (some x) (some y) p q h = cc (session_ext x y p q h)

module _ {Node : Type 0} ⦃o : Ord Node⦄ where
  find-IsSession : (n : Node) (v : VersionVector Node) → IsValid v → IsSession? (find n v.entries)
  find-IsSession n v w = elim (Option-cases (find n v.entries)) [
    | inl e ↦ rw e tt
    | inr (x, e) ↦ rw e (All-find IsSession n v.entries x w.sessions e)
  ]

  get-seq_at :
      (v : VersionVector Node) (n : Node) (b : ℕ) → get v n b ≡ seq_at? (find n v.entries) b
  unfolding get
  get-seq_at v n b = ground arith

  pub entries_ext :
      (u v : VersionVector Node)
      → IsValid u
      → IsValid v
      → ((n : Node) (b : ℕ) → get u n b ≡ get v n b)
      → u.entries ≡ v.entries
  entries_ext u v p q h = eq_of_find u.entries v.entries p.sorted q.sorted λ n.
      sessions_ext (find n u.entries) (find n v.entries) (find-IsSession n u p)
        (find-IsSession n v q) λ b. cc (h n b, get-seq_at u n b, get-seq_at v n b)

latest_seq_no-acc : (a : ℕ) (x : OrdMap ℕ ℕ) → latest_seq_no a x ≡ max a (latest_seq_no 0 x)
unfolding latest_seq_no
latest_seq_no-acc a [] = omega arith
latest_seq_no-acc a ((b, s) ∷ x) =
    omega (arith, latest_seq_no-acc (max a s) x, latest_seq_no-acc (max 0 s) x)

seq_at-le-latest : (x : OrdMap ℕ ℕ) (b : ℕ) → seq_at x b ≤ latest_seq_no 0 x
unfolding find latest_seq_no
seq_at-le-latest [] b = omega arith
seq_at-le-latest ((c, s) ∷ x) b =
    ground (arith, seq_at-le-latest x b, latest_seq_no-acc (max 0 s) x)

module _ {Node : Type 0} ⦃o : Ord Node⦄ where
  pub get-le-get_latest :
      (v : VersionVector Node) (n : Node) (b : ℕ) → IsValid v → get v n b ≤ get_latest v n
  unfolding get get_entries latest_seq_no
  get-le-get_latest v n b w = elim (Option-cases (find n v.entries)) [
    | inl e ↦ rw (e, get) (omega arith)
    | inr (x, e) ↦ rw (w.latest n, get_entries, e, get) (seq_at-le-latest x b)
  ]
