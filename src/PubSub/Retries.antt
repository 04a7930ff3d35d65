-- ===== src/PubSub/Retries.antt =====
-- Runs of publication fetches: the retry budget holds after any of the steps, in any order.
use ndn_svs.Base.{
  ℕ, ◌≤◌, ◌≡◌, inl, inr, refl, arith, true, false, ◌&&◌, Option, none, some, List, [], ◌∷◌, ◌++◌,
  max, ltb, leb, ltb→le, Bool-cases, Option-cases, Ord, pair_ord, nat_ord, if◌then◌else◌, All,
  All-map,
}
use ndn_svs.Base.OrdMap.{OrdMap, find}
use ndn_svs.Packets.{Packets}
use ndn_svs.Mapping.{Components}
use ndn_svs.SyncProtocol.Options.{pos}
use ndn_svs.PubSub.Assembly.{is_some}
use ndn_svs.PubSub.Client.{
  PublicationKey, PublicationFetchState, FetchOptions, Subscription, SubscriptionData, Client,
}
use ndn_svs.PubSub.Fetch.{
  estimated_lifetime, retry_budget_exhausted, backed_off, attempt_at, add_publication_fetch,
  clean_up_fetch, remember_repair_request, back_off, fail_fetch, observe, observe_found,
  observe_publication_fetch_success,
}
use ndn_svs.PubSub.FetchAll.{
  Sort, SortLaws, scan_each, is_fetching, is_expired, fetches_before, drop_expired, deliver_each,
  deliver_cached, express_fetch, cached_publication, send_ready, send_found, send_each, fetch_all,
}
use ndn_svs.PubSub.Delivered.{remember_delivered}
use ndn_svs.PubSub.Budget.{
  IsFair, AllFair, insert-AllFair, erase-AllFair, find-IsFair, MayTry, IsReady, insert-IsReady,
  erase-IsReady, attempt_at-IsFair, started, scan_each-IsScanned, allowed_most,
}

tried :
    (r : ℕ) (s : PublicationFetchState) → is_fetching s.status ≡ false → MayTry r s → s.attempts ≤ r
tried r s n (inl y) = cc
tried r s n (inr a) = a

module _ {Component Data Interest Block S : Type 0} ⦃o : Ord (List Component)⦄ (r : ℕ)
    (opts : FetchOptions) where
  abbrev pub IsBudgeted : Client Component Data Interest Block S → Type 0
  IsBudgeted c = AllFair r c.publication_fetch_states

  pub add-IsBudgeted :
      (now : ℕ) (key : PublicationKey Component) (sub : Subscription Component)
      (c : Client Component Data Interest Block S)
      → IsBudgeted c
      → IsBudgeted (add_publication_fetch opts now key sub c)
  unfolding add_publication_fetch
  add-IsBudgeted now key sub c h =
      insert-AllFair r key _ c.publication_fetch_states
        (started r opts now
          (estimated_lifetime opts (find (key.0, key.1.0) c.publication_lifetime_estimates))
          (find key c.publication_fetch_states)
          (λ s. find-IsFair r key s c.publication_fetch_states h))
        h

  pub clean_up-IsBudgeted :
      (key : PublicationKey Component) (c : Client Component Data Interest Block S)
      → IsBudgeted c
      → IsBudgeted (clean_up_fetch key c)
  unfolding clean_up_fetch
  clean_up-IsBudgeted key c h = erase-AllFair r key c.publication_fetch_states h

  remembered_states :
      (key : PublicationKey Component) (c : Client Component Data Interest Block S)
      → (remember_repair_request key c).publication_fetch_states ≡ c.publication_fetch_states
  unfolding remember_repair_request
  remembered_states key c = ground arith

  pub fail-IsBudgeted :
      (now : ℕ) (key : PublicationKey Component) (subs : Option (List (Subscription Component)))
      (state : Option PublicationFetchState) (c : Client Component Data Interest Block S)
      → opts.publication_fetch_retries ≡ pos r
      → find key c.publication_fetch_states ≡ state
      → IsBudgeted c
      → IsBudgeted (fail_fetch opts now key subs state c)
  unfolding fail_fetch retry_budget_exhausted back_off backed_off
  fail-IsBudgeted now key none state c b e h = h
  fail-IsBudgeted now key (some subs) none c b e h = h
  fail-IsBudgeted now key (some subs) (some s) c b e h = elim (Bool-cases (ltb r s.attempts)) [
    | inl spent ↦ rw (b, spent) (clean_up-IsBudgeted key c h)
    | inr left ↦
        rw (b, left)
          (elim (Bool-cases (leb s.deadline now)) [
            | inl late ↦ rw (late) (clean_up-IsBudgeted key c h)
            | inr early ↦
                rw (early, remembered_states key c)
                  (insert-AllFair r key _ c.publication_fetch_states
                    (
                      (find-IsFair r key s c.publication_fetch_states h e).0,
                      ltb→le r s.attempts left,
                    )
                    h)
          ])
  ]

  observe-IsBudgeted :
      (now : ℕ) (key : PublicationKey Component) (s : PublicationFetchState) (at : Option ℕ)
      (c : Client Component Data Interest Block S)
      → IsFair r s
      → IsBudgeted c
      → IsBudgeted (observe opts now key s at c)
  unfolding observe
  observe-IsBudgeted now key s none c f h =
      insert-AllFair r key _ c.publication_fetch_states
        (f.0, omega (arith, f.1, allowed_most r s.status)) h
  observe-IsBudgeted now key s (some at) c f h =
      insert-AllFair r key _ c.publication_fetch_states
        (f.0, omega (arith, f.1, allowed_most r s.status)) h

  pub observe_found-IsBudgeted :
      (now : ℕ) (key : PublicationKey Component) (state : Option PublicationFetchState)
      (c : Client Component Data Interest Block S)
      → find key c.publication_fetch_states ≡ state
      → IsBudgeted c
      → IsBudgeted (observe_found opts now key state c)
  unfolding observe_found
  observe_found-IsBudgeted now key none c e h = h
  observe_found-IsBudgeted now key (some s) c e h =
      observe-IsBudgeted now key s s.attempt_started c
        (find-IsFair r key s c.publication_fetch_states h e) h

  -- the state, and the publications that are ready and still to be asked for
  abbrev pub IsSendable :
      List (PublicationKey Component) → Client Component Data Interest Block S → Type 0
  IsSendable ready c = IsBudgeted c × All (IsReady r c.publication_fetch_states) ready

  drop_expired-IsSendable :
      (states : OrdMap (PublicationKey Component) PublicationFetchState)
      (ready : List (PublicationKey Component)) (c : Client Component Data Interest Block S)
      → IsSendable ready c
      → IsSendable ready (drop_expired states c)
  unfolding drop_expired clean_up_fetch
  drop_expired-IsSendable [] ready c h = h
  drop_expired-IsSendable ((key, state) ∷ states) ready c h =
      drop_expired-IsSendable states ready
        (if is_expired state.status && is_some (find key c.fetch_map)
          then clean_up_fetch key c
          else c)
        (elim (Bool-cases (is_expired state.status && is_some (find key c.fetch_map))) [
          | inl e ↦ rw (e) (
            clean_up-IsBudgeted key c h.0,
            All-map (λ k. erase-IsReady r k key c.publication_fetch_states h.0.0) ready h.1,
          )
          | inr e ↦ rw (e) h
        ])

module _ {Component Data Interest Block S : Type 0} ⦃o : Ord (List Component)⦄ (r : ℕ)
    (packets : Packets Component Data) (components : Components Component) (opts : FetchOptions)
    (now : ℕ) where
  express-IsSendable :
      (key : PublicationKey Component) (s : PublicationFetchState)
      (ready : List (PublicationKey Component)) (c : Client Component Data Interest Block S)
      → is_some s.first_queued ≡ true
      → s.attempts ≤ r
      → IsSendable r opts ready c
      → IsSendable r opts ready (express_fetch packets components opts now key s c)
  unfolding express_fetch attempt_at
  express-IsSendable key s ready c q a h = (
    insert-AllFair r key (attempt_at opts now s) c.publication_fetch_states
        (attempt_at-IsFair r opts now s q a) h.0,
    All-map
        (λ k. insert-IsReady r k key (attempt_at opts now s) c.publication_fetch_states (inl refl))
        ready h.1,
  )

  observe-IsReady :
      (key k : PublicationKey Component) (s : PublicationFetchState) (at : Option ℕ)
      (c : Client Component Data Interest Block S)
      → s.attempts ≤ r
      → IsReady r c.publication_fetch_states k
      → IsReady r (observe opts now key s at c).publication_fetch_states k
  unfolding observe
  observe-IsReady key k s none c a h = insert-IsReady r k key _ c.publication_fetch_states (inr a) h
  observe-IsReady key k s (some at) c a h =
      insert-IsReady r k key _ c.publication_fetch_states (inr a) h

  deliver-IsSendable :
      (key : PublicationKey Component) (s : PublicationFetchState)
      (subs : List (Subscription Component)) (shown : SubscriptionData Component Data)
      (ready : List (PublicationKey Component)) (c : Client Component Data Interest Block S)
      → find key c.publication_fetch_states ≡ some s
      → s.attempts ≤ r
      → IsSendable r opts ready c
      → IsSendable r opts ready (deliver_cached packets components opts now key subs shown c)
  unfolding deliver_cached observe_publication_fetch_success observe_found clean_up_fetch
  deliver-IsSendable key s subs shown ready c e a h =
      let told : Client Component Data Interest Block S = record c {
        effects = c.effects ++ deliver_each shown subs;
        piggy_delivered = remember_delivered key c.piggy_delivered;
      } in
      let fair = find-IsFair r key s c.publication_fetch_states h.0 e in
      let seen = observe-IsBudgeted r opts now key s s.attempt_started told fair h.0 in
      rw (e) (
        erase-AllFair r key (observe opts now key s s.attempt_started told).publication_fetch_states
            seen,
        All-map
            (λ k i.
              erase-IsReady r k key
                (observe opts now key s s.attempt_started told).publication_fetch_states seen.0
                (observe-IsReady key k s s.attempt_started told a i))
            ready h.1,
      )

  send_found-IsSendable :
      (key : PublicationKey Component) (subs : Option (List (Subscription Component)))
      (state : Option PublicationFetchState) (ready : List (PublicationKey Component)) (n : ℕ)
      (c : Client Component Data Interest Block S)
      → find key c.publication_fetch_states ≡ state
      → IsSendable r opts (key ∷ ready) c
      → IsSendable r opts ready (send_found packets components opts now key subs state (n, c)).1
  unfolding send_found send_ready
  send_found-IsSendable key none state ready n c e h = (h.0, h.1.1)
  send_found-IsSendable key (some subs) none ready n c e h = (h.0, h.1.1)
  send_found-IsSendable key (some subs) (some s) ready n c e h =
      elim (Bool-cases (is_fetching s.status)) [
        | inl busy ↦ rw (busy) (h.0, h.1.1)
        | inr free ↦ rw (free) (elim (Bool-cases (ltb now s.next_attempt)) [
          | inl early ↦ rw (early) (h.0, h.1.1)
          | inr due ↦
              let a = tried r s free (h.1.0 s e) in
              rw (due) (elim (Option-cases (cached_publication packets components opts now key c)) [
                | inl k ↦ rw (k) (
                    express-IsSendable key s ready c
                      (find-IsFair r key s c.publication_fetch_states h.0 e).0 a (h.0, h.1.1))
                | inr k ↦ rw (k.1) (deliver-IsSendable key s subs k.0 ready c e a (h.0, h.1.1))
              ])
        ])
      ]

  send_each-IsSendable :
      (ready : List (PublicationKey Component)) (n : ℕ) (c : Client Component Data Interest Block S)
      → IsSendable r opts ready c
      → IsBudgeted r opts (send_each packets components opts now ready (n, c)).1
  unfolding send_each
  send_each-IsSendable [] n c h = h.0
  send_each-IsSendable (key ∷ ready) n c h =
      let next =
        send_found packets components opts now key (find key c.fetch_map)
          (find key c.publication_fetch_states) (n, c) in
      elim (Bool-cases (leb (max 1 opts.publication_fetch_window) n)) [
        | inl full ↦ rw (full, send_each) h.0
        | inr room ↦
            rw (room, send_each)
              (send_each-IsSendable ready next.0 next.1 (
                send_found-IsSendable key (find key c.fetch_map)
                  (find key c.publication_fetch_states) ready n c refl h))
      ]

  pub fetch_all-IsBudgeted :
      (sort : Sort (PublicationKey Component)) (c : Client Component Data Interest Block S)
      → SortLaws sort
      → IsBudgeted r opts c
      → IsBudgeted r opts (fetch_all packets components opts now sort c)
  unfolding fetch_all
  fetch_all-IsBudgeted sort c laws h =
      let scanned =
        scan_each opts now c.fetch_map
          (record { states = c.publication_fetch_states; in_flight = 0; ready = [] }) in
      let found =
        scan_each-IsScanned r opts now c.fetch_map
          (record { states = c.publication_fetch_states; in_flight = 0; ready = [] }) (h, tt) in
      let kept =
        drop_expired scanned.states (record c { publication_fetch_states = scanned.states }) in
      let left =
        drop_expired-IsSendable r opts scanned.states scanned.ready
          (record c { publication_fetch_states = scanned.states }) found in
      let less = fetches_before kept.publication_fetch_states in
      send_each-IsSendable (sort less scanned.ready) scanned.in_flight kept
        (left.0, laws.All-sort (IsReady r kept.publication_fetch_states) less scanned.ready left.1)
