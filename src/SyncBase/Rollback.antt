-- ===== src/SyncBase/Rollback.antt =====
-- What an insertion and an erasure of several packets do to the store.
use ndn_svs.Base.{
  ◌≡◌, refl, sym, ◌∙◌, subst, arith, true, false, Option, none, some, List, [], ◌∷◌, ◌++◌, map,
  reverse, Ord, ◌==◌, ==_self, ==_iff, Bool-cases, Result-cases, ◌≢◌, inl, inr, if◌then◌else◌,
  Result, ok, err, Error, All, All-append, elem, elem-append, elem-reverse, Distinct, All-elem,
}
use ndn_svs.Packets.{Packets}
use ndn_svs.SyncBase.{DataStore, insert_each, erase_each, rethrown}

-- What the `DataStore` interface promises: a store is read by exact names, an insertion that throws
-- changes nothing, and an erasure may throw, but where it returns that one name is gone, and it
-- leaves every other name alone.
pub record StoreLaws {Component Data Interest S : Type 0} ⦃o : Ord (List Component)⦄
    (pk : Packets Component Data) (st : DataStore Component Data Interest S) : Type 0 where
  pub read : List Component → S → Option Data
  pub read-insert :
      (x : Data) (s : S) (n : List Component)
      → (st.insert x s).0 ≡ ok tt
      → read n (st.insert x s).1 ≡ (if n == (pk.fields x).name then some x else read n s)
  pub read-insert_err :
      (x : Data) (s : S) (e : Error) (n : List Component)
      → (st.insert x s).0 ≡ err e
      → read n (st.insert x s).1 ≡ read n s
  pub read-erase :
      (q : List Component) (s : S) → (st.erase q s).0 ≡ ok tt → read q (st.erase q s).1 ≡ none
  pub read_other-erase :
      (q : List Component) (s : S) (n : List Component)
      → (n == q) ≡ false
      → read n (st.erase q s).1 ≡ read n s

pub rethrown-err : (e : Error) (r : Result (Unit {0})) → rethrown e r ≢ ok tt
unfolding rethrown
rethrown-err e (ok u) h = cc
rethrown-err e (err f) h = cc

module _ {Component Data Interest S : Type 0} ⦃o : Ord (List Component)⦄
    (pk : Packets Component Data) (st : DataStore Component Data Interest S)
    (laws : StoreLaws pk st) where
  abbrev pub name_of : Data → List Component
  name_of x = (pk.fields x).name

  -- what the rollback relies on: the names that were inserted were new, and all others read as
  -- they did in `s0`
  abbrev IsUndoable : S → S × List (List Component) → Type 0
  IsUndoable s0 s =
      All (λ n. laws.read n s0 ≡ none) s.1
      × ((n : List Component) → elem n s.1 ≡ false → laws.read n s.0 ≡ laws.read n s0)

  abbrev pub IsFresh : S → List Data → Type 0
  IsFresh s0 packets = All (λ x. laws.read (name_of x) s0 ≡ none) packets

  insert_each-IsUndoable_at :
      (s0 : S) (x : Data) (xs : List Data) (s : S × List (List Component))
      → ((s : S × List (List Component))
          → IsUndoable s0 s
          → IsUndoable s0 (insert_each pk st xs s).1)
      → laws.read (name_of x) s0 ≡ none
      → IsUndoable s0 s
      → (r : Result (Unit {0})) → (st.insert x s.0).0 ≡ r
      → IsUndoable s0 (insert_each pk st (x ∷ xs) s).1
  unfolding insert_each elem
  insert_each-IsUndoable_at s0 x xs s rest fresh u (ok v) h = rw (h) (
      rest (((st.insert x s.0).1, s.1 ++ name_of x ∷ [])) (
        All-append (λ n. laws.read n s0 ≡ none) s.1 (name_of x ∷ []) u.0 (fresh, tt),
        (λ n p.
            ground (arith, laws.read-insert x s.0 n h, u.1 n, elem-append n s.1 (name_of x ∷ []))),
      ))
  insert_each-IsUndoable_at s0 x xs s rest fresh u (err e) h =
      rw (h) (u.0, (λ n p. laws.read-insert_err x s.0 e n h ∙ u.1 n p))

  pub insert_each-IsUndoable :
      (s0 : S) (xs : List Data) (s : S × List (List Component))
      → IsFresh s0 xs
      → IsUndoable s0 s
      → IsUndoable s0 (insert_each pk st xs s).1
  unfolding insert_each
  insert_each-IsUndoable s0 [] s fresh u = u
  insert_each-IsUndoable s0 (x ∷ xs) s fresh u =
      insert_each-IsUndoable_at s0 x xs s (λ s u. insert_each-IsUndoable s0 xs s fresh.1 u) fresh.0
        u (st.insert x s.0).0 refl

  erased_one :
      (q : List Component) (s : S) (n : List Component)
      → (st.erase q s).0 ≡ ok tt
      → laws.read n (st.erase q s).1 ≡ (if n == q then none else laws.read n s)
  erased_one q s n h = elim (Bool-cases (n == q)) [
    | inl same ↦ rw (same) (
        subst (λ m. laws.read m (st.erase q s).1 ≡ none) (sym ((==_iff n q).0 same))
          (laws.read-erase q s h))
    | inr other ↦ rw (other) (laws.read_other-erase q s n other)
  ]

  pub erase_each-others :
      (names : List (List Component)) (s : S) (n : List Component)
      → elem n names ≡ false
      → laws.read n (erase_each pk st names s).1 ≡ laws.read n s
  unfolding erase_each elem
  erase_each-others [] s n p = refl
  erase_each-others (q ∷ names) s n p = elim (Result-cases (st.erase q s).0) [
    | inr bad ↦ rw (bad.1) (laws.read_other-erase q s n (ground arith))
    | inl good ↦ rw (good) (
        erase_each-others names (st.erase q s).1 n (ground arith)
        ∙ laws.read_other-erase q s n (ground arith))
  ]

  erase_each-reads :
      (names : List (List Component)) (s : S) (n : List Component)
      → (erase_each pk st names s).0 ≡ ok tt
      → laws.read n (erase_each pk st names s).1 ≡ (if elem n names then none else laws.read n s)
  unfolding erase_each elem
  erase_each-reads [] s n h = refl
  erase_each-reads (q ∷ names) s n h = elim (Result-cases (st.erase q s).0) [
    | inr bad ↦ (let no : err bad.0 ≡ ok tt = rw (erase_each, bad.1) at h in cc)
    | inl good ↦
        let ih = erase_each-reads names (st.erase q s).1 n (rw (erase_each, good) at h) in
        rw (good) (ground (arith, ih, erased_one q s n good))
  ]

  pub undone-reads :
      (s0 : S) (s : S × List (List Component)) (n : List Component)
      → IsUndoable s0 s
      → (erase_each pk st (reverse s.1) s.0).0 ≡ ok tt
      → laws.read n (erase_each pk st (reverse s.1) s.0).1 ≡ laws.read n s0
  undone-reads s0 s n u done =
      erase_each-reads (reverse s.1) s.0 n done
      ∙ ground (arith, elem-reverse n s.1, u.1 n, All-elem (λ n. laws.read n s0 ≡ none) n s.1 u.0)

  abbrev pub names_of : List Data → List (List Component)
  names_of xs = map name_of xs

  insert_each-keeps_at :
      (n : List Component) (x : Data) (xs : List Data) (s : S × List (List Component))
      → ((s : S × List (List Component))
          → laws.read n (insert_each pk st xs s).1.0 ≡ laws.read n s.0)
      → (n == name_of x) ≡ false
      → (r : Result (Unit {0})) → (st.insert x s.0).0 ≡ r
      → laws.read n (insert_each pk st (x ∷ xs) s).1.0 ≡ laws.read n s.0
  unfolding insert_each
  insert_each-keeps_at n x xs s rest other (ok v) h = rw (h) (
      rest (((st.insert x s.0).1, s.1 ++ name_of x ∷ []))
      ∙ (laws.read-insert x s.0 n h ∙ rw (other) refl))
  insert_each-keeps_at n x xs s rest other (err e) h = rw (h) (laws.read-insert_err x s.0 e n h)

  pub insert_each-keeps :
      (n : List Component) (xs : List Data) (s : S × List (List Component))
      → elem n (names_of xs) ≡ false
      → laws.read n (insert_each pk st xs s).1.0 ≡ laws.read n s.0
  unfolding insert_each elem
  insert_each-keeps n [] s p = refl
  insert_each-keeps n (x ∷ xs) s p =
      insert_each-keeps_at n x xs s (λ s. insert_each-keeps n xs s (ground arith)) (ground arith)
        (st.insert x s.0).0 refl

  insert_each-step :
      (x : Data) (xs : List Data) (s : S × List (List Component))
      → (st.insert x s.0).0 ≡ ok tt
      → insert_each pk st (x ∷ xs) s
        ≡ insert_each pk st xs ((st.insert x s.0).1, s.1 ++ name_of x ∷ [])
  unfolding insert_each
  insert_each-step x xs s h = rw (h) refl

  insert_each-fails :
      (x : Data) (xs : List Data) (s : S × List (List Component)) (e : Error)
      → (st.insert x s.0).0 ≡ err e
      → (insert_each pk st (x ∷ xs) s).0 ≡ err e
  unfolding insert_each
  insert_each-fails x xs s e h = rw (h) refl

  -- all packets can be read after an insertion that returned
  abbrev AreRead : List Data → Result (Unit {0}) × (S × List (List Component)) → Type 0
  AreRead xs r = r.0 ≡ ok tt → All (λ y. laws.read (name_of y) r.1.0 ≡ some y) xs

  insert_each-stores_at :
      (x : Data) (xs : List Data) (s : S × List (List Component))
      → ((s : S × List (List Component)) → AreRead xs (insert_each pk st xs s))
      → elem (name_of x) (names_of xs) ≡ false
      → (r : Result (Unit {0})) → (st.insert x s.0).0 ≡ r
      → AreRead (x ∷ xs) (insert_each pk st (x ∷ xs) s)
  insert_each-stores_at x xs s rest new (ok v) h =
      let s' : S × List (List Component) = ((st.insert x s.0).1, s.1 ++ name_of x ∷ []) in
      subst (AreRead (x ∷ xs)) (sym (insert_each-step x xs s h)) λ done. (
        insert_each-keeps (name_of x) xs s' new
            ∙ (laws.read-insert x s.0 (name_of x) h ∙ rw (==_self (name_of x)) refl),
        rest s' done,
      )
  insert_each-stores_at x xs s rest new (err e) h = λ done. cc (insert_each-fails x xs s e h)

  pub insert_each-stores :
      (xs : List Data) (s : S × List (List Component))
      → Distinct (names_of xs)
      → AreRead xs (insert_each pk st xs s)
  insert_each-stores [] s d = λ done. tt
  insert_each-stores (x ∷ xs) s d =
      insert_each-stores_at x xs s (λ s. insert_each-stores xs s d.1) d.0 (st.insert x s.0).0 refl

  pub insert_each-names :
      (n : List Component) (xs : List Data) (s : S × List (List Component))
      → elem n (names_of xs) ≡ false
      → elem n s.1 ≡ false
      → elem n (insert_each pk st xs s).1.1 ≡ false
  unfolding insert_each elem
  insert_each-names n [] s p h = h
  insert_each-names n (x ∷ xs) s p h = elim (Result-cases (st.insert x s.0).0) [
    | inr bad ↦ rw (bad.1) h
    | inl good ↦ rw (good) (
        insert_each-names n xs ((st.insert x s.0).1, s.1 ++ name_of x ∷ []) (ground arith)
          (ground (arith, elem-append n s.1 (name_of x ∷ []))))
  ]

  -- an erasure of one of the names threw
  abbrev pub IsUnerasable : List (List Component) → Type 0
  IsUnerasable names =
      (q : List Component) × (s : S) × (elem q names ≡ true) × ((st.erase q s).0 ≢ ok tt)

  pub erase_each-fails :
      (names : List (List Component)) (s : S) (e : Error)
      → (erase_each pk st names s).0 ≡ err e
      → IsUnerasable names
  unfolding erase_each elem
  erase_each-fails [] s e h = cc
  erase_each-fails (q ∷ names) s e h = elim (Result-cases (st.erase q s).0) [
    | inr bad ↦ (q, s, rw (==_self q) refl, (λ k. cc (k, bad.1)))
    | inl good ↦
        let i = erase_each-fails names (st.erase q s).1 e (rw (erase_each, good) at h) in
        (i.0, i.1, ground (arith, i.2), i.3)
  ]
