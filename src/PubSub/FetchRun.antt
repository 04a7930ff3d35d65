-- ===== src/PubSub/FetchRun.antt =====
-- Runs of the steps of publication fetches, in any order, each with the time at which it happens.
use ndn_svs.Base.{ℕ, ◌≡◌, refl, List, [], ◌∷◌, Ord, pair_ord, nat_ord}
use ndn_svs.Base.OrdMap.{find}
use ndn_svs.Packets.{Packets}
use ndn_svs.Mapping.{Components}
use ndn_svs.SyncProtocol.Options.{pos}
use ndn_svs.PubSub.Client.{PublicationKey, FetchOptions, Subscription, Client}
use ndn_svs.PubSub.Fetch.{
  add_publication_fetch, clean_up_fetch, mark_publication_fetch_failed,
  observe_publication_fetch_success,
}
use ndn_svs.PubSub.FetchAll.{Sort, SortLaws, fetch_all}
use ndn_svs.PubSub.Retries.{
  IsBudgeted, add-IsBudgeted, clean_up-IsBudgeted, fail-IsBudgeted, observe_found-IsBudgeted,
  fetch_all-IsBudgeted,
}

pub data FetchStep (Component : Type 0) : Type 0 where
  queues : ℕ → PublicationKey Component → Subscription Component → FetchStep Component
  asks : ℕ → FetchStep Component
  fails : ℕ → PublicationKey Component → FetchStep Component
  answers : ℕ → PublicationKey Component → FetchStep Component
  ends : PublicationKey Component → FetchStep Component

module _ {Component Data Interest Block S : Type 0} ⦃o : Ord (List Component)⦄
    (packets : Packets Component Data) (components : Components Component) (opts : FetchOptions)
    (sort : Sort (PublicationKey Component)) where
  unfoldable pub step :
      FetchStep Component
      → Client Component Data Interest Block S
      → Client Component Data Interest Block S
  step (queues now key sub) c = add_publication_fetch opts now key sub c
  step (asks now) c = fetch_all packets components opts now sort c
  step (fails now key) c = mark_publication_fetch_failed opts now key c
  step (answers now key) c = observe_publication_fetch_success opts now key c
  step (ends key) c = clean_up_fetch key c

  unfoldable pub run :
      List (FetchStep Component)
      → Client Component Data Interest Block S
      → Client Component Data Interest Block S
  unfolding step
  run [] c = c
  run (e ∷ es) c = run es (step e c)

  step-IsBudgeted :
      (r : ℕ) (e : FetchStep Component) (c : Client Component Data Interest Block S)
      → opts.publication_fetch_retries ≡ pos r
      → SortLaws sort
      → IsBudgeted r opts c
      → IsBudgeted r opts (step e c)
  unfolding step mark_publication_fetch_failed observe_publication_fetch_success
  step-IsBudgeted r (queues now key sub) c b laws h = add-IsBudgeted r opts now key sub c h
  step-IsBudgeted r (asks now) c b laws h =
      fetch_all-IsBudgeted r packets components opts now sort c laws h
  step-IsBudgeted r (fails now key) c b laws h =
      fail-IsBudgeted r opts now key (find key c.fetch_map) (find key c.publication_fetch_states) c
        b refl h
  step-IsBudgeted r (answers now key) c b laws h =
      observe_found-IsBudgeted r opts now key (find key c.publication_fetch_states) c refl h
  step-IsBudgeted r (ends key) c b laws h = clean_up-IsBudgeted r opts key c h

  run_keeps-IsBudgeted :
      (r : ℕ) (es : List (FetchStep Component)) (c : Client Component Data Interest Block S)
      → opts.publication_fetch_retries ≡ pos r
      → SortLaws sort
      → IsBudgeted r opts c
      → IsBudgeted r opts (run es c)
  unfolding run
  run_keeps-IsBudgeted r [] c b laws h = h
  run_keeps-IsBudgeted r (e ∷ es) c b laws h =
      run_keeps-IsBudgeted r es (step e c) b laws (step-IsBudgeted r e c b laws h)

  -- The retry budget holds in every run: with a budget of `r` retries, and no fetch in the
  -- beginning, after any sequence of queued publications, calls of fetchAll, failures, answers and
  -- ends, at any times, a fetch that waits was attempted at most `r` times, and every other fetch
  -- at most `r + 1` times, whatever the sort is that keeps the elements.
  pub run-IsBudgeted :
      (r : ℕ) (es : List (FetchStep Component)) (c : Client Component Data Interest Block S)
      → opts.publication_fetch_retries ≡ pos r
      → SortLaws sort
      → c.publication_fetch_states ≡ []
      → IsBudgeted r opts (run es c)
  run-IsBudgeted r es c b laws e = run_keeps-IsBudgeted r es c b laws (rw (e) (tt, tt))
