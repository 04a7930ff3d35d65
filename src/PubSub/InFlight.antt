-- ===== src/PubSub/InFlight.antt =====
-- The window of publication fetches: how many are under way before and after `fetchAll`.
use ndn_svs.Base.{
  ℕ, ◌+◌, ◌≤◌, ◌<◌, ◌≡◌, inl, inr, refl, arith, max, false, ◌||◌, ◌&&◌, Option, none, some, List,
  [], ◌∷◌, ◌++◌, ltb, leb, Bool-cases, Option-cases, Ord, pair_ord, nat_ord, if◌then◌else◌,
}
use ndn_svs.Base.OrdMap.{OrdMap, find, insert, erase, IsSorted}
use ndn_svs.Base.OrdMap.Laws.{insert-IsSorted, erase-IsSorted}
use ndn_svs.Packets.{Packets}
use ndn_svs.Mapping.{Components}
use ndn_svs.PubSub.Assembly.{is_some}
use ndn_svs.PubSub.Delivered.{remember_delivered}
use ndn_svs.PubSub.Client.{
  PublicationKey, PublicationFetchStatus, PublicationFetchState, FetchOptions, Subscription,
  SubscriptionData, Client,
}
use ndn_svs.PubSub.Fetch.{
  attempt_at, clean_up_fetch, observe, observe_found, observe_publication_fetch_success,
}
use ndn_svs.PubSub.FetchAll.{
  Sort, Scanned, scan_each, is_fetching, is_expired, fetches_before, drop_expired, deliver_each,
  deliver_cached, express_fetch, cached_publication, send_ready, send_found, send_each, fetch_all,
}
use ndn_svs.PubSub.Counts.{count-le, count_one_more, count-erase}
use ndn_svs.PubSub.Busy.{
  is_busy, calm_after, one_busy, busy_erased, in_flight, scan_each-counts, scan_each-counts_most,
  scan_each-IsSorted,
}

module _ {Component Data Interest Block S : Type 0} ⦃o : Ord (List Component)⦄ where
  -- the maps in order, and no more under way than was counted
  abbrev pub IsCounted : ℕ → Client Component Data Interest Block S → Type 0
  IsCounted n c =
      IsSorted c.fetch_map
      × IsSorted c.publication_fetch_states
      × (in_flight c.fetch_map c.publication_fetch_states ≤ n)

module _ {Component Data Interest Block S : Type 0} ⦃o : Ord (List Component)⦄
    (packets : Packets Component Data) (components : Components Component) (opts : FetchOptions)
    (now : ℕ) where
  clean_up-IsCounted :
      (n : ℕ) (key : PublicationKey Component) (c : Client Component Data Interest Block S)
      → IsCounted n c
      → IsCounted n (clean_up_fetch key c)
  unfolding clean_up_fetch
  clean_up-IsCounted n key c h = (
    erase-IsSorted key c.fetch_map h.0,
    erase-IsSorted key c.publication_fetch_states h.1,
    omega (
      arith,
      h.2,
      count-erase (is_busy c.publication_fetch_states) key c.fetch_map,
      count-le (is_busy (erase key c.publication_fetch_states)) (is_busy c.publication_fetch_states)
          (erase key c.fetch_map) (busy_erased key c.publication_fetch_states h.1),
    ),
  )

  write-IsCounted :
      (n : ℕ) (key : PublicationKey Component) (w : PublicationFetchState)
      (c : Client Component Data Interest Block S)
      → is_fetching w.status ≡ false
      → IsCounted n c
      → IsSorted c.fetch_map
        × IsSorted (insert key w c.publication_fetch_states)
        × (in_flight c.fetch_map (insert key w c.publication_fetch_states) ≤ n)
  write-IsCounted n key w c f h = (
    h.0,
    insert-IsSorted key w c.publication_fetch_states h.1,
    omega (
      arith,
      h.2,
      count-le (is_busy (insert key w c.publication_fetch_states))
          (is_busy c.publication_fetch_states) c.fetch_map
          (calm_after key w c.publication_fetch_states f),
    ),
  )

  observed-IsCounted :
      (n : ℕ) (key : PublicationKey Component) (s : PublicationFetchState) (at : Option ℕ)
      (c : Client Component Data Interest Block S)
      → IsCounted n c
      → IsCounted n (observe opts now key s at c)
  unfolding observe
  observed-IsCounted n key s none c h =
      write-IsCounted n key (record s { status = PublicationFetchStatus.delivered }) c refl h
  observed-IsCounted n key s (some at) c h = write-IsCounted n key _ c refl h

  found-IsCounted :
      (n : ℕ) (key : PublicationKey Component) (s : Option PublicationFetchState)
      (c : Client Component Data Interest Block S)
      → IsCounted n c
      → IsCounted n (observe_found opts now key s c)
  unfolding observe_found
  found-IsCounted n key none c h = h
  found-IsCounted n key (some s) c h = observed-IsCounted n key s s.attempt_started c h

  deliver-IsCounted :
      (n : ℕ) (key : PublicationKey Component) (subs : List (Subscription Component))
      (shown : SubscriptionData Component Data) (c : Client Component Data Interest Block S)
      → IsCounted n c
      → IsCounted n (deliver_cached packets components opts now key subs shown c)
  unfolding deliver_cached observe_publication_fetch_success
  deliver-IsCounted n key subs shown c h =
      let told : Client Component Data Interest Block S = record c {
        effects = c.effects ++ deliver_each shown subs;
        piggy_delivered = remember_delivered key c.piggy_delivered;
      } in
      let state = find key c.publication_fetch_states in
      clean_up-IsCounted n key (observe_found opts now key state told)
        (found-IsCounted n key state told h)

  express-IsCounted :
      (n : ℕ) (key : PublicationKey Component) (s : PublicationFetchState)
      (c : Client Component Data Interest Block S)
      → IsCounted n c
      → IsCounted (n + 1) (express_fetch packets components opts now key s c)
  unfolding express_fetch
  express-IsCounted n key s c h =
      let w = attempt_at opts now s in
      (
        h.0,
        insert-IsSorted key w c.publication_fetch_states h.1,
        omega (
          arith,
          h.2,
          count_one_more (is_busy (insert key w c.publication_fetch_states))
              (is_busy c.publication_fetch_states) key c.fetch_map h.0
              (one_busy key w c.publication_fetch_states),
        ),
      )

  -- a visit of the last loop counts what it sends
  send_found-IsCounted :
      (key : PublicationKey Component) (subs : Option (List (Subscription Component)))
      (state : Option PublicationFetchState) (n : ℕ) (c : Client Component Data Interest Block S)
      → IsCounted n c
      → let r = send_found packets components opts now key subs state (n, c) in
        IsCounted r.0 r.1 × (r.0 ≤ n + 1)
  unfolding send_found send_ready
  send_found-IsCounted key none state n c h = (h, omega arith)
  send_found-IsCounted key (some subs) none n c h = (h, omega arith)
  send_found-IsCounted key (some subs) (some s) n c h =
      elim (Bool-cases (is_fetching s.status || ltb now s.next_attempt)) [
        | inl skip ↦ rw (skip) (h, omega arith)
        | inr due ↦
            rw (due) (elim (Option-cases (cached_publication packets components opts now key c)) [
              | inl k ↦ rw (k) (express-IsCounted n key s c h, omega arith)
              | inr k ↦ rw (k.1) (deliver-IsCounted n key subs k.0 c h, omega arith)
            ])
      ]

  send_each-IsCounted :
      (ready : List (PublicationKey Component)) (n : ℕ) (c : Client Component Data Interest Block S)
      → IsCounted n c
      → IsCounted
          (max n (max 1 opts.publication_fetch_window))
          (send_each packets components opts now ready (n, c)).1
  unfolding send_each
  send_each-IsCounted [] n c h = (h.0, h.1, omega (arith, h.2))
  send_each-IsCounted (key ∷ ready) n c h =
      let window = max 1 opts.publication_fetch_window in
      let next =
        send_found packets components opts now key (find key c.fetch_map)
          (find key c.publication_fetch_states) (n, c) in
      let one =
        send_found-IsCounted key (find key c.fetch_map) (find key c.publication_fetch_states) n c
          h in
      elim (Bool-cases (leb window n)) [
        | inl full ↦ rw (full, send_each) (h.0, h.1, omega (arith, h.2))
        | inr room ↦
            let lt_window : n < window = ground (arith, room) in
            let rest = send_each-IsCounted ready next.0 next.1 one.0 in
            rw (room, send_each) (rest.0, rest.1, omega (arith, rest.2, one.1, lt_window))
      ]

  drop_expired-IsCounted :
      (n : ℕ) (states : OrdMap (PublicationKey Component) PublicationFetchState)
      (c : Client Component Data Interest Block S)
      → IsCounted n c
      → IsCounted n (drop_expired states c)
  unfolding drop_expired
  drop_expired-IsCounted n [] c h = h
  drop_expired-IsCounted n ((key, state) ∷ states) c h =
      drop_expired-IsCounted n states
        (if is_expired state.status && is_some (find key c.fetch_map)
          then clean_up_fetch key c
          else c)
        (elim (Bool-cases (is_expired state.status && is_some (find key c.fetch_map))) [
          | inl e ↦ rw (e) (clean_up-IsCounted n key c h)
          | inr e ↦ rw (e) h
        ])

  -- `fetchAll` keeps to its window: where the maps of the fetches and of their states are in the
  -- order of their keys, they are so after it, and then at most as many publications are under way
  -- as before it, or as the window allows, 1 at least, whichever is more. Nothing is assumed of the
  -- sort.
  pub fetch_all-IsCounted :
      (sort : Sort (PublicationKey Component)) (c : Client Component Data Interest Block S)
      → IsSorted c.fetch_map
      → IsSorted c.publication_fetch_states
      → IsCounted
          (max
            (in_flight c.fetch_map c.publication_fetch_states)
            (max 1 opts.publication_fetch_window))
          (fetch_all packets components opts now sort c)
  unfolding fetch_all
  fetch_all-IsCounted sort c h k =
      let start : Scanned Component = record {
        states = c.publication_fetch_states;
        in_flight = 0;
        ready = [];
      } in
      let scanned = scan_each opts now c.fetch_map start in
      let kept =
        drop_expired scanned.states (record c { publication_fetch_states = scanned.states }) in
      let ready = sort (fetches_before kept.publication_fetch_states) scanned.ready in
      let counted =
        drop_expired-IsCounted scanned.in_flight scanned.states
          (record c { publication_fetch_states = scanned.states })
          (
            h,
            scan_each-IsSorted opts now c.fetch_map start k,
            omega (arith, scan_each-counts opts now c.fetch_map start),
          ) in
      let sent = send_each-IsCounted ready scanned.in_flight kept counted in
      (sent.0, sent.1, omega (arith, sent.2, scan_each-counts_most opts now c.fetch_map start))
