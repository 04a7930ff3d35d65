-- ===== src/SyncBase/Batch.antt =====
-- A batch of packets is inserted as a whole, or taken back, unless taking it back throws.
use ndn_svs.Base.{
  ◌≡◌, refl, sym, ap, ◌∙◌, subst, Bool, true, false, not, ◌&&◌, some, List, [], ◌∷◌, reverse, Ord,
  Bool-cases, Result-cases, ◌≢◌, ◌⊎◌, inl, inr, Result, ok, err, Error, All, elem, elem-reverse,
  Distinct, is_empty,
}
use ndn_svs.Packets.{Packets}
use ndn_svs.SyncBase.{
  DataStore, insert_each, erase_each, roll_back, insert_prepared_data_batch, check_sizes, rethrown,
}
use ndn_svs.SyncBase.Rollback.{
  StoreLaws, rethrown-err, name_of, IsFresh, names_of, IsUnerasable, erase_each-others,
  erase_each-fails, undone-reads, insert_each-keeps, insert_each-names, insert_each-stores,
  insert_each-IsUndoable,
}

module _ {Component Data Interest S : Type 0} ⦃o : Ord (List Component)⦄
    (pk : Packets Component Data) (st : DataStore Component Data Interest S)
    (laws : StoreLaws pk st) where
  -- what the caller finds in the store
  abbrev pub IsAtomic : List Data → S → Result (Unit {0}) × S → Type 0
  IsAtomic packets s r =
      ((r.0 ≡ ok tt)
        × All (λ x. laws.read (name_of pk st laws x) r.1 ≡ some x) packets
        × ((n : List Component)
            → elem n (names_of pk st laws packets) ≡ false
            → laws.read n r.1 ≡ laws.read n s))
      ⊎ (((r.0 ≢ ok tt) × ((n : List Component) → laws.read n r.1 ≡ laws.read n s))
          ⊎ ((r.0 ≡ err Error.runtime_error)
              × IsUnerasable pk st laws (names_of pk st laws packets)
              × ((n : List Component)
                  → elem n (names_of pk st laws packets) ≡ false
                  → laws.read n r.1 ≡ laws.read n s)))

  undone_outside :
      (packets : List Data) (s : S) (n : List Component)
      → elem n (names_of pk st laws packets) ≡ false
      → let tried = insert_each pk st packets (s, []) in
        laws.read n (erase_each pk st (reverse tried.1.1) tried.1.0).1 ≡ laws.read n s
  unfolding elem
  undone_outside packets s n p =
      let tried = insert_each pk st packets (s, []) in
      erase_each-others pk st laws (reverse tried.1.1) tried.1.0 n
        (elem-reverse n tried.1.1 ∙ insert_each-names pk st laws n packets (s, []) p refl)
      ∙ insert_each-keeps pk st laws n packets (s, []) p

  in_batch :
      (packets : List Data) (s : S)
      → IsUnerasable pk st laws (reverse (insert_each pk st packets (s, [])).1.1)
      → IsUnerasable pk st laws (names_of pk st laws packets)
  unfolding elem
  in_batch packets s u = (
    u.0,
    u.1,
    elim (Bool-cases (elem u.0 (names_of pk st laws packets))) [
      | inl here ↦ here
      | inr away ↦ cc (
        insert_each-names pk st laws u.0 packets (s, []) away refl,
        elem-reverse u.0 (insert_each pk st packets (s, [])).1.1,
        u.2,
      )
    ],
    u.3,
  )

  roll_back-IsAtomic :
      (packets : List Data) (s : S)
      → IsFresh pk st laws s packets
      → Distinct (names_of pk st laws packets)
      → (r : Result (Unit {0})) → (insert_each pk st packets (s, [])).0 ≡ r
      → let tried = insert_each pk st packets (s, []) in
        IsAtomic packets s (roll_back pk st r tried.1.1 tried.1.0)
  unfolding roll_back rethrown
  roll_back-IsAtomic packets s fresh d (ok v) h = inl (
    refl,
    insert_each-stores pk st laws packets (s, []) d h,
    (λ n p. insert_each-keeps pk st laws n packets (s, []) p),
  )
  roll_back-IsAtomic packets s fresh d (err e) h =
      let u = insert_each-IsUndoable pk st laws s packets (s, []) fresh (tt, (λ n p. refl)) in
      let tried = insert_each pk st packets (s, []) in
      elim (Result-cases (erase_each pk st (reverse tried.1.1) tried.1.0).0) [
        | inl done ↦ inr (inl (rethrown-err e _, (λ n. undone-reads pk st laws s tried.1 n u done)))
        | inr bad ↦ inr (
            inr (
              ap (rethrown e) bad.1,
              in_batch packets s
                  (erase_each-fails pk st laws (reverse tried.1.1) tried.1.0 bad.0 bad.1),
              (λ n p. undone_outside packets s n p),
            ))
      ]

  insert_prepared_data_batch-step :
      (packets : List Data) (s : S) (v : Unit {0})
      → (not (is_empty packets) && not st.supports_erase) ≡ false
      → check_sizes pk st packets ≡ ok v
      → let tried = insert_each pk st packets (s, []) in
        insert_prepared_data_batch pk st packets s ≡ roll_back pk st tried.0 tried.1.1 tried.1.0
  unfolding insert_prepared_data_batch
  insert_prepared_data_batch-step packets s v h k = rw (h, k) refl

  checks_first :
      (packets : List Data) (s : S)
      → IsFresh pk st laws s packets
      → Distinct (names_of pk st laws packets)
      → (b : Bool) → (not (is_empty packets) && not st.supports_erase) ≡ b
      → (r : Result (Unit {0})) → check_sizes pk st packets ≡ r
      → IsAtomic packets s (insert_prepared_data_batch pk st packets s)
  unfolding insert_prepared_data_batch check_sizes insert_each roll_back
  checks_first packets s fresh d true h r k = rw (h) (inr (inl ((λ e. cc), λ n. refl)))
  checks_first packets s fresh d false h (err e) k = rw (h, k) (inr (inl ((λ e. cc), λ n. refl)))
  checks_first [] s fresh d false h (ok v) k = inl (refl, tt, λ n p. refl)
  checks_first (x ∷ xs) s fresh d false h (ok v) k =
      subst (IsAtomic (x ∷ xs) s) (sym (insert_prepared_data_batch-step (x ∷ xs) s v h k))
        (roll_back-IsAtomic (x ∷ xs) s fresh d (insert_each pk st (x ∷ xs) (s, [])).0 refl)

  -- A batch of packets under new and distinct names is inserted as a whole or taken back, in a store
  -- that reads by exact names, changes nothing when an insertion throws, and whose erasures remove
  -- what they are told to unless they throw. Either the call returns, each packet is read under its
  -- name and all other names read as before; or it throws and every name reads as before; or it
  -- throws the error of a rollback that failed, an erasure of a name of the batch can throw, and
  -- every name outside the batch reads as before. Insertions and erasures may throw at any packet.
  pub insert_prepared_data_batch-IsAtomic :
      (packets : List Data) (s : S)
      → IsFresh pk st laws s packets
      → Distinct (names_of pk st laws packets)
      → IsAtomic packets s (insert_prepared_data_batch pk st packets s)
  insert_prepared_data_batch-IsAtomic packets s fresh d =
      checks_first packets s fresh d (not (is_empty packets) && not st.supports_erase) refl
        (check_sizes pk st packets) refl
