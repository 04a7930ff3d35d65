-- ===== src/Core/Run/Jobs.antt =====
-- In every run the jobs of the workers are current, and what a worker found ends as the serial
-- handler does.
use ndn_svs.Base.{
  ℕ, zero, suc, ◌≡◌, subst, some, List, [], ◌∷◌, arith, Ord, nat_ord, inl, inr, Option-cases, All,
}
use ndn_svs.Core.State.{Core, Wire, Draws, SyncProcessingJob}
use ndn_svs.Core.Receive.{
  on_sync_interest_validated_serial, processing_worker, process_sync_interest_result,
}
use ndn_svs.Core.Parallel.{outcome, process-serial}
use ndn_svs.Core.Progress.{Progress}
use ndn_svs.Core.Run.{pick, jobs, left, Current, Fresh}

pub All-pick :
    {A : Type 0} (P : A → Type 0) (k : ℕ) (xs : List A) (y : A) (ys : List A)
    → All P xs
    → pick k xs ≡ some (y, ys)
    → P y × All P ys
unfolding pick
All-pick P k [] y ys h e = cc
All-pick P zero (x ∷ xs) y ys h e =
    let e' : x ≡ y = ground arith in
    let f : xs ≡ ys = ground arith in (subst P e' h.0, subst (All P) f h.1)
All-pick P (suc k) (x ∷ xs) y ys h e = elim (Option-cases (pick k xs)) [
  | inl n ↦ cc (rw (n, pick) at e)
  | inr ((z, zs), f) ↦
      let g = rw (f, pick) at e in
      let e' : z ≡ y = ground arith in
      let e'' : x ∷ zs ≡ ys = ground arith in
      let rest = All-pick P k xs z zs h.1 f in (subst P e' rest.0, subst (All P) e'' (h.0, rest.1))
]

module _ {Node Interest Block : Type 0} ⦃o : Ord Node⦄ (w : Wire Node Interest Block) where
  -- In a core whose jobs are current, the k-th worker's result ends as the serial handler does on
  -- the packet, but for the counters.
  pub finish-serial :
      (d : Draws) (k : ℕ) (c : Core Node Interest Block) (j : SyncProcessingJob Node Interest)
      (rest : List (SyncProcessingJob Node Interest))
      → Fresh c
      → pick k (jobs c.processing_pool) ≡ some (j, rest)
      → outcome (process_sync_interest_result w d (processing_worker w d j) (left rest c))
        ≡ outcome (on_sync_interest_validated_serial w d j.interest (left rest c))
  finish-serial d k c j rest h e =
      process-serial w d j (left rest c)
        (All-pick (Current c) k (jobs c.processing_pool) j rest h.current e).0.1
