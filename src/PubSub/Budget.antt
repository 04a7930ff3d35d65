-- ===== src/PubSub/Budget.antt =====
-- The retry budget of publication fetches: what each step of a fetch leaves of its attempts.
use ndn_svs.Base.{
  ℕ, ◌+◌, ◌≤◌, ◌≡◌, ◌⊎◌, inl, inr, refl, ap, sym, subst, ◌∙◌, arith, true, Option, none, some, List,
  [], ◌∷◌, ◌++◌, leb, Bool-cases, Option-cases, Ord, pair_ord, nat_ord, ◌==◌, ==_iff, ==_self,
  if◌then◌else◌, All, All-append, All-map,
}
use ndn_svs.Base.OrdMap.{OrdMap, find, insert, erase, or_default, IsSorted}
use ndn_svs.Base.OrdMap.Laws.{
  find-insert, find-erase, insert-IsSorted, erase-IsSorted, All-insert, All-erase, All-find,
}
use ndn_svs.PubSub.Assembly.{is_some}
use ndn_svs.PubSub.Client.{
  PublicationKey, PublicationFetchStatus, PublicationFetchState, no_fetch, FetchOptions,
  Subscription,
}
use ndn_svs.PubSub.Fetch.{start_fetch, attempt_at}
use ndn_svs.PubSub.FetchAll.{Scanned, scan_waiting, scan_status, state_at, scan_each, is_fetching}

-- the attempts that a fetch with this status may have behind it
abbrev pub allowed : ℕ → PublicationFetchStatus → ℕ
allowed retries PublicationFetchStatus.queued = retries
allowed retries PublicationFetchStatus.backoff = retries
allowed retries _ = retries + 1

pub allowed_most : (r : ℕ) (s : PublicationFetchStatus) → allowed r s ≤ r + 1
allowed_most r PublicationFetchStatus.queued = omega arith
allowed_most r PublicationFetchStatus.fetching = omega arith
allowed_most r PublicationFetchStatus.backoff = omega arith
allowed_most r PublicationFetchStatus.delivered = omega arith
allowed_most r PublicationFetchStatus.expired = omega arith

-- a fetch that was queued, with no more attempts than its status allows
abbrev pub IsFair : ℕ → PublicationFetchState → Type 0
IsFair r s = (is_some s.first_queued ≡ true) × (s.attempts ≤ allowed r s.status)

module _ (r : ℕ) where
  -- a fetch that may be tried again, if it is not under way
  abbrev pub MayTry : PublicationFetchState → Type 0
  MayTry s = (is_fetching s.status ≡ true) ⊎ (s.attempts ≤ r)

  pub start_fetch-IsFair :
      (opts : FetchOptions) (now lifetime : ℕ) → IsFair r (start_fetch opts now lifetime no_fetch)
  unfolding start_fetch
  start_fetch-IsFair opts now lifetime = (refl, omega arith)

  pub attempt_at-IsFair :
      (opts : FetchOptions) (now : ℕ) (s : PublicationFetchState)
      → is_some s.first_queued ≡ true
      → s.attempts ≤ r
      → IsFair r (attempt_at opts now s)
  unfolding attempt_at
  attempt_at-IsFair opts now s q h = (q, omega arith)

  -- what is started at a key: the state that it has, or a new one
  pub started :
      (opts : FetchOptions) (now lifetime : ℕ) (known : Option PublicationFetchState)
      → ((s : PublicationFetchState) → known ≡ some s → IsFair r s)
      → let state = or_default no_fetch known in
        IsFair r (if is_some state.first_queued then state else start_fetch opts now lifetime state)
  started opts now lifetime none h = start_fetch-IsFair opts now lifetime
  started opts now lifetime (some s) h = rw ((h s refl).0) (h s refl)

module _ {Component : Type 0} ⦃o : Ord (List Component)⦄ (r : ℕ) where
  abbrev pub AllFair : OrdMap (PublicationKey Component) PublicationFetchState → Type 0
  AllFair states = IsSorted states × All (λ e. IsFair r e.1) states

  pub insert-AllFair :
      (key : PublicationKey Component) (s : PublicationFetchState)
      (states : OrdMap (PublicationKey Component) PublicationFetchState)
      → IsFair r s
      → AllFair states
      → AllFair (insert key s states)
  insert-AllFair key s states f h =
      (insert-IsSorted key s states h.0, All-insert (λ e. IsFair r e.1) key s states f h.1)

  pub erase-AllFair :
      (key : PublicationKey Component)
      (states : OrdMap (PublicationKey Component) PublicationFetchState)
      → AllFair states
      → AllFair (erase key states)
  erase-AllFair key states h =
      (erase-IsSorted key states h.0, All-erase (λ e. IsFair r e.1) key states h.1)

  pub find-IsFair :
      (key : PublicationKey Component) (s : PublicationFetchState)
      (states : OrdMap (PublicationKey Component) PublicationFetchState)
      → AllFair states
      → find key states ≡ some s
      → IsFair r s
  find-IsFair key s states h e = All-find (IsFair r) key states s h.1 e

  abbrev pub IsReady :
      OrdMap (PublicationKey Component) PublicationFetchState → PublicationKey Component → Type 0
  IsReady states key = (s : PublicationFetchState) → find key states ≡ some s → MayTry r s

  insert_at :
      (key q : PublicationKey Component) (w : PublicationFetchState)
      (states : OrdMap (PublicationKey Component) PublicationFetchState)
      → ((key == q) ≡ true → MayTry r w)
      → IsReady states key
      → IsReady (insert q w states) key
  insert_at key q w states m h s e = elim (Bool-cases (key == q)) [
    | inl same ↦
        let found : some w ≡ some s = sym (find-insert q key w states ∙ rw (same) refl) ∙ e in
        let equal : w ≡ s = cc in subst (MayTry r) equal (m same)
    | inr other ↦ h s (sym (find-insert q key w states ∙ rw (other) refl) ∙ e)
  ]

  inserted-IsReady :
      (key : PublicationKey Component) (w : PublicationFetchState)
      (states : OrdMap (PublicationKey Component) PublicationFetchState)
      → MayTry r w
      → IsReady (insert key w states) key
  inserted-IsReady key w states m s e =
      let found : some w ≡ some s =
        sym (find-insert key key w states ∙ rw (==_self key) refl) ∙ e in
      let equal : w ≡ s = cc in subst (MayTry r) equal m

  pub insert-IsReady :
      (key q : PublicationKey Component) (w : PublicationFetchState)
      (states : OrdMap (PublicationKey Component) PublicationFetchState)
      → MayTry r w
      → IsReady states key
      → IsReady (insert q w states) key
  insert-IsReady key q w states m = insert_at key q w states (λ e. m)

  pub erase-IsReady :
      (key q : PublicationKey Component)
      (states : OrdMap (PublicationKey Component) PublicationFetchState)
      → IsSorted states
      → IsReady states key
      → IsReady (erase q states) key
  erase-IsReady key q states i h s e = elim (Bool-cases (key == q)) [
    | inl same ↦
        (let gone : none ≡ some s = sym (find-erase q key states i ∙ rw (same) refl) ∙ e in cc)
    | inr other ↦ h s (sym (find-erase q key states i ∙ rw (other) refl) ∙ e)
  ]

module _ {Component : Type 0} ⦃o : Ord (List Component)⦄ (r : ℕ) (opts : FetchOptions)
    (now : ℕ) where
  state_at-IsFair :
      (key : PublicationKey Component)
      (states : OrdMap (PublicationKey Component) PublicationFetchState)
      → AllFair r states
      → IsFair r (state_at opts now key states)
  unfolding state_at
  state_at-IsFair key states h =
      started r opts now opts.publication_fetch_interest_lifetime (find key states)
        (λ s. find-IsFair r key s states h)

  known_state :
      (key : PublicationKey Component) (s : PublicationFetchState)
      (states : OrdMap (PublicationKey Component) PublicationFetchState)
      → AllFair r states
      → find key states ≡ some s
      → state_at opts now key states ≡ s
  unfolding state_at
  known_state key s states h e = rw (e, (find-IsFair r key s states h e).0) refl

  state_at-MayTry :
      (key : PublicationKey Component)
      (states : OrdMap (PublicationKey Component) PublicationFetchState)
      → AllFair r states
      → IsReady r states key
      → MayTry r (state_at opts now key states)
  unfolding state_at start_fetch
  state_at-MayTry key states h k = elim (Option-cases (find key states)) [
    | inl e ↦ rw (e) (inr (omega arith))
    | inr e ↦ subst (MayTry r) (sym (known_state key e.0 states h e.1)) (k e.0 e.1)
  ]

module _ {Component : Type 0} ⦃o : Ord (List Component)⦄ (r : ℕ) (opts : FetchOptions)
    (now : ℕ) where
  -- the states and what is ready, in the first loop
  abbrev pub IsScanned : Scanned Component → Type 0
  IsScanned c = AllFair r c.states × All (IsReady r c.states) c.ready

  insert-IsScanned :
      (key : PublicationKey Component) (s : PublicationFetchState) (c : Scanned Component) (n : ℕ)
      → IsFair r s
      → (MayTry r (state_at opts now key c.states) → MayTry r s)
      → IsScanned c
      → IsScanned (record c { states = insert key s c.states; in_flight = n })
  insert-IsScanned key s c n f m h = (
    insert-AllFair r key s c.states f h.0,
    All-map
        (λ k i.
          insert_at r k key s c.states
            (λ e. m (
              state_at-MayTry r opts now key c.states h.0
                (subst (IsReady r c.states) ((==_iff k key).0 e) i)))
            i)
        c.ready h.1,
  )

  add_ready :
      (key : PublicationKey Component) (s : PublicationFetchState) (c : Scanned Component)
      → s.attempts ≤ r
      → IsScanned (record c { states = insert key s c.states })
      → IsScanned (record c { states = insert key s c.states; ready = c.ready ++ key ∷ [] })
  add_ready key s c a h = (
    h.0,
    All-append (IsReady r (insert key s c.states)) c.ready (key ∷ []) h.1
        (inserted-IsReady r key s c.states (inr a), tt),
  )

  scan_waiting-IsScanned :
      (key : PublicationKey Component) (c : Scanned Component)
      → (state_at opts now key c.states).attempts ≤ r
      → IsFair r (state_at opts now key c.states)
      → IsScanned c
      → IsScanned (scan_waiting opts now key (state_at opts now key c.states) c)
  unfolding scan_waiting
  scan_waiting-IsScanned key c a f h =
      let s = state_at opts now key c.states in
      elim (Bool-cases (leb s.deadline now)) [
        | inl e ↦ rw (e) (
            insert-IsScanned key (record s { status = PublicationFetchStatus.expired }) c
              c.in_flight (f.0, omega (arith, a)) (λ m. inr a) h)
        | inr e ↦ rw (e) (elim (Bool-cases (leb s.next_attempt now)) [
          | inl d ↦ rw (d) (add_ready key s c a (insert-IsScanned key s c c.in_flight f (λ m. m) h))
          | inr d ↦ rw (d) (insert-IsScanned key s c c.in_flight f (λ m. m) h)
        ])
      ]

  scan_status-IsScanned :
      (status : PublicationFetchStatus) (key : PublicationKey Component) (c : Scanned Component)
      → (state_at opts now key c.states).status ≡ status
      → IsScanned c
      → IsScanned (scan_status opts now status key (state_at opts now key c.states) c)
  unfolding scan_status
  scan_status-IsScanned PublicationFetchStatus.queued key c e h =
      let f = state_at-IsFair r opts now key c.states h.0 in
      scan_waiting-IsScanned key c (rw (sym (ap (allowed r) e)) f.1) f h
  scan_status-IsScanned PublicationFetchStatus.backoff key c e h =
      let f = state_at-IsFair r opts now key c.states h.0 in
      scan_waiting-IsScanned key c (rw (sym (ap (allowed r) e)) f.1) f h
  scan_status-IsScanned PublicationFetchStatus.fetching key c e h =
      let s = state_at opts now key c.states in
      insert-IsScanned key s c (c.in_flight + 1) (state_at-IsFair r opts now key c.states h.0)
        (λ m. m) h
  scan_status-IsScanned PublicationFetchStatus.delivered key c e h =
      let s = state_at opts now key c.states in
      insert-IsScanned key s c c.in_flight (state_at-IsFair r opts now key c.states h.0) (λ m. m) h
  scan_status-IsScanned PublicationFetchStatus.expired key c e h =
      let s = state_at opts now key c.states in
      insert-IsScanned key s c c.in_flight (state_at-IsFair r opts now key c.states h.0) (λ m. m) h

  pub scan_each-IsScanned :
      (fetches : OrdMap (PublicationKey Component) (List (Subscription Component)))
      (c : Scanned Component)
      → IsScanned c
      → IsScanned (scan_each opts now fetches c)
  unfolding scan_each
  scan_each-IsScanned [] c h = h
  scan_each-IsScanned ((key, subs) ∷ fetches) c h =
      let s = state_at opts now key c.states in
      scan_each-IsScanned fetches (scan_status opts now s.status key s c)
        (scan_status-IsScanned s.status key c refl h)
