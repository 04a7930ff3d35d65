-- ===== src/PubSub/Busy.antt =====
-- Which publications are under way, and how many the first loop of `fetchAll` counts.
use ndn_svs.Base.{
  ℕ, ◌+◌, ◌≤◌, ◌≡◌, ◌⊎◌, inl, inr, refl, ap, sym, subst, ◌∙◌, arith, Bool, true, false, Option,
  none, some, List, [], ◌∷◌, leb, Bool-cases, Ord, pair_ord, nat_ord, ◌==◌, ==_iff, ==_self,
  if◌then◌else◌,
}
use ndn_svs.Base.OrdMap.{OrdMap, find, insert, erase, or_default, IsSorted}
use ndn_svs.Base.OrdMap.Laws.{find-insert, find-erase, insert-IsSorted}
use ndn_svs.PubSub.Assembly.{is_some}
use ndn_svs.PubSub.Client.{
  PublicationKey, PublicationFetchStatus, PublicationFetchState, no_fetch, FetchOptions,
  Subscription,
}
use ndn_svs.PubSub.Fetch.{start_fetch}
use ndn_svs.PubSub.FetchAll.{Scanned, scan_waiting, scan_status, state_at, scan_each, is_fetching}
use ndn_svs.PubSub.Counts.{count_keys, count-le}

unfoldable pub is_busy_at : Option PublicationFetchState → Bool
is_busy_at none = false
is_busy_at (some s) = is_fetching s.status

module _ {Component : Type 0} ⦃o : Ord (List Component)⦄ where
  -- the publication is under way
  abbrev pub is_busy :
      OrdMap (PublicationKey Component) PublicationFetchState → PublicationKey Component → Bool
  is_busy states key = is_busy_at (find key states)

  busy_after :
      (q k : PublicationKey Component) (w : PublicationFetchState)
      (states : OrdMap (PublicationKey Component) PublicationFetchState)
      → is_busy (insert q w states) k ≡ (if k == q then is_fetching w.status else is_busy states k)
  unfolding is_busy_at
  busy_after q k w states =
      ap is_busy_at (find-insert q k w states)
      ∙ elim (Bool-cases (k == q)) [ inl e ↦ rw (e) refl | inr e ↦ rw (e) refl ]

  -- a state that is not under way makes no publication busy
  pub calm_after :
      (q : PublicationKey Component) (w : PublicationFetchState)
      (states : OrdMap (PublicationKey Component) PublicationFetchState)
      → is_fetching w.status ≡ false
      → (k : PublicationKey Component) → is_busy (insert q w states) k ≡ true
      → is_busy states k ≡ true
  calm_after q w states c k b =
      let e = busy_after q k w states in
      elim (Bool-cases (k == q)) [
        | inl same ↦ (let no : true ≡ false = sym b ∙ e ∙ rw (same) c in cc)
        | inr other ↦ sym (e ∙ rw (other) refl) ∙ b
      ]

  pub one_busy :
      (q : PublicationKey Component) (w : PublicationFetchState)
      (states : OrdMap (PublicationKey Component) PublicationFetchState)
      (k : PublicationKey Component)
      → is_busy (insert q w states) k ≡ true
      → (is_busy states k ≡ true) ⊎ (k ≡ q)
  one_busy q w states k b = elim (Bool-cases (k == q)) [
    | inl same ↦ inr ((==_iff k q).0 same)
    | inr other ↦ inl (sym (busy_after q k w states ∙ rw (other) refl) ∙ b)
  ]

  pub busy_erased :
      (q : PublicationKey Component)
      (states : OrdMap (PublicationKey Component) PublicationFetchState)
      → IsSorted states
      → (k : PublicationKey Component) → is_busy (erase q states) k ≡ true
      → is_busy states k ≡ true
  unfolding is_busy_at
  busy_erased q states s k b = elim (Bool-cases (k == q)) [
    | inl same ↦
        let gone : find k (erase q states) ≡ none = find-erase q k states s ∙ rw (same) refl in
        let no : false ≡ true = sym (ap is_busy_at gone) ∙ b in cc
    | inr other ↦
        let kept : find k (erase q states) ≡ find k states =
          find-erase q k states s ∙ rw (other) refl in
        sym (ap is_busy_at kept) ∙ b
  ]

  -- how many of the publications to fetch are under way
  abbrev pub in_flight :
      OrdMap (PublicationKey Component) (List (Subscription Component))
      → OrdMap (PublicationKey Component) PublicationFetchState
      → ℕ
  in_flight fetches states = count_keys (is_busy states) fetches

module _ (opts : FetchOptions) (now : ℕ) where
  started_busy :
      (lifetime : ℕ) (known : Option PublicationFetchState)
      → let state = or_default no_fetch known in
        is_fetching
            (if is_some state.first_queued
              then state
              else start_fetch opts now lifetime state).status
          ≡ true
        → is_busy_at known ≡ true
  unfolding start_fetch is_busy_at
  started_busy lifetime none b = cc
  started_busy lifetime (some s) b = elim (Bool-cases (is_some s.first_queued)) [
    | inl e ↦ sym (rw (e) refl) ∙ b
    | inr e ↦ (let no : false ≡ true = sym (rw (e) refl) ∙ b in cc)
  ]

module _ {Component : Type 0} ⦃o : Ord (List Component)⦄ (opts : FetchOptions) (now : ℕ) where
  state_at_busy :
      (key : PublicationKey Component)
      (states : OrdMap (PublicationKey Component) PublicationFetchState)
      → is_fetching (state_at opts now key states).status ≡ true
      → is_busy states key ≡ true
  unfolding state_at
  state_at_busy key states b =
      started_busy opts now opts.publication_fetch_interest_lifetime (find key states) b

  -- what a visit of the first loop writes
  abbrev Visits :
      PublicationKey Component
      → PublicationFetchState
      → Scanned Component
      → Scanned Component
      → Type 0
  Visits key s r t =
      (w : PublicationFetchState) × (t.states ≡ insert key w r.states)
      × (is_fetching w.status ≡ true → is_fetching s.status ≡ true)
      × (t.in_flight ≡ r.in_flight + (if is_fetching s.status then 1 else 0))

  scan_waiting-Visits :
      (key : PublicationKey Component) (s : PublicationFetchState) (r : Scanned Component)
      → is_fetching s.status ≡ false
      → Visits key s r (scan_waiting opts now key s r)
  unfolding scan_waiting
  scan_waiting-Visits key s r n = elim (Bool-cases (leb s.deadline now)) [
    | inl e ↦
        rw (e) (
          record s { status = PublicationFetchStatus.expired },
          refl,
          λ x. cc,
          rw (n) (omega arith),
        )
    | inr e ↦ rw (e) (s, refl, λ x. x, rw (n) (omega arith))
  ]

  scan_status-Visits :
      (status : PublicationFetchStatus) (key : PublicationKey Component) (s : PublicationFetchState)
      (r : Scanned Component)
      → s.status ≡ status
      → Visits key s r (scan_status opts now status key s r)
  unfolding scan_status
  scan_status-Visits PublicationFetchStatus.queued key s r e =
      scan_waiting-Visits key s r (ap is_fetching e)
  scan_status-Visits PublicationFetchStatus.backoff key s r e =
      scan_waiting-Visits key s r (ap is_fetching e)
  scan_status-Visits PublicationFetchStatus.fetching key s r e = (s, refl, λ x. x, rw (e) refl)
  scan_status-Visits PublicationFetchStatus.delivered key s r e =
      (s, refl, λ x. x, rw (e) (omega arith))
  scan_status-Visits PublicationFetchStatus.expired key s r e =
      (s, refl, λ x. x, rw (e) (omega arith))

  -- no publication becomes busy in the first loop
  visited_busy :
      (key k : PublicationKey Component) (r t : Scanned Component)
      → Visits key (state_at opts now key r.states) r t
      → is_busy t.states k ≡ true
      → is_busy r.states k ≡ true
  visited_busy key k r t v b =
      let e = sym (ap (λ m. is_busy m k) v.1 ∙ busy_after key k v.0 r.states) ∙ b in
      elim (Bool-cases (k == key)) [
        | inl same ↦
            subst (λ z. is_busy r.states z ≡ true) (sym ((==_iff k key).0 same))
              (state_at_busy key r.states (v.2 (sym (rw (same) refl) ∙ e)))
        | inr other ↦ sym (rw (other) refl) ∙ e
      ]

  visit_busy :
      (key : PublicationKey Component)
      (states next : OrdMap (PublicationKey Component) PublicationFetchState)
      (w : PublicationFetchState)
      → next ≡ insert key w states
      → is_busy next key ≡ true
      → is_fetching w.status ≡ true
  visit_busy key states next w e b =
      sym (ap (λ m. is_busy m key) e ∙ busy_after key key w states ∙ rw (==_self key) refl) ∙ b

  scanned_busy :
      (fetches : OrdMap (PublicationKey Component) (List (Subscription Component)))
      (r : Scanned Component) (k : PublicationKey Component)
      → is_busy (scan_each opts now fetches r).states k ≡ true
      → is_busy r.states k ≡ true
  unfolding scan_each
  scanned_busy [] r k b = b
  scanned_busy ((key, subs) ∷ fetches) r k b =
      let s = state_at opts now key r.states in
      let t = scan_status opts now s.status key s r in
      visited_busy key k r t (scan_status-Visits s.status key s r refl) (scanned_busy fetches t k b)

  -- The first loop counts every publication that is busy after it.
  pub scan_each-counts :
      (fetches : OrdMap (PublicationKey Component) (List (Subscription Component)))
      (r : Scanned Component)
      → let t = scan_each opts now fetches r in
        r.in_flight + in_flight fetches t.states ≤ t.in_flight
  unfolding scan_each
  scan_each-counts [] r = omega arith
  scan_each-counts ((key, subs) ∷ fetches) r =
      let s = state_at opts now key r.states in
      let t = scan_status opts now s.status key s r in
      let f = scan_each opts now fetches t in
      let v = scan_status-Visits s.status key s r refl in
      let rest : t.in_flight + in_flight fetches f.states ≤ f.in_flight =
        scan_each-counts fetches t in
      let counted : t.in_flight ≡ r.in_flight + (if is_fetching s.status then 1 else 0) = v.3 in
      elim (Bool-cases (is_busy f.states key)) [
        | inr calm ↦ rw (calm) (omega (arith, rest, counted))
        | inl busy ↦
            let b : is_fetching s.status ≡ true =
              v.2 (visit_busy key r.states t.states v.0 v.1 (scanned_busy fetches t key busy)) in
            let more : t.in_flight ≡ r.in_flight + 1 =
              subst (λ z. t.in_flight ≡ r.in_flight + (if z then 1 else 0)) b counted in
            rw (busy) (omega (arith, rest, more))
      ]

  -- It counts no publication that was not busy before it.
  pub scan_each-counts_most :
      (fetches : OrdMap (PublicationKey Component) (List (Subscription Component)))
      (r : Scanned Component)
      → (scan_each opts now fetches r).in_flight ≤ r.in_flight + in_flight fetches r.states
  unfolding scan_each
  scan_each-counts_most [] r = omega arith
  scan_each-counts_most ((key, subs) ∷ fetches) r =
      let s = state_at opts now key r.states in
      let t = scan_status opts now s.status key s r in
      let v = scan_status-Visits s.status key s r refl in
      let rest : (scan_each opts now fetches t).in_flight
          ≤ t.in_flight + in_flight fetches t.states =
        scan_each-counts_most fetches t in
      let fewer : in_flight fetches t.states ≤ in_flight fetches r.states =
        count-le (is_busy t.states) (is_busy r.states) fetches (λ k. visited_busy key k r t v) in
      let counted : t.in_flight ≡ r.in_flight + (if is_fetching s.status then 1 else 0) = v.3 in
      elim (Bool-cases (is_fetching s.status)) [
        | inl busy ↦
            let b : is_busy r.states key ≡ true = state_at_busy key r.states busy in
            let more : t.in_flight ≡ r.in_flight + 1 =
              subst (λ z. t.in_flight ≡ r.in_flight + (if z then 1 else 0)) busy counted in
            rw (b) (omega (arith, rest, fewer, more))
        | inr calm ↦
            let same : t.in_flight ≡ r.in_flight + 0 =
              subst (λ z. t.in_flight ≡ r.in_flight + (if z then 1 else 0)) calm counted in
            omega (arith, rest, fewer, same)
      ]

  pub scan_each-IsSorted :
      (fetches : OrdMap (PublicationKey Component) (List (Subscription Component)))
      (r : Scanned Component)
      → IsSorted r.states
      → IsSorted (scan_each opts now fetches r).states
  unfolding scan_each
  scan_each-IsSorted [] r h = h
  scan_each-IsSorted ((key, subs) ∷ fetches) r h =
      let s = state_at opts now key r.states in
      let v = scan_status-Visits s.status key s r refl in
      scan_each-IsSorted fetches (scan_status opts now s.status key s r)
        (subst IsSorted (sym v.1) (insert-IsSorted key v.0 r.states h))
