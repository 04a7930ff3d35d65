-- ===== src/Core/Announcement.antt =====
-- What is told to nobody: lower numbers, and the extra blocks that some workers build.
use ndn_svs.Base.{ℕ, ◌≤◌, ◌<◌, ◌≡◌, true, false, Option, [], ◌∷◌, ◌++◌, arith, Ord, nat_ord, ok}
use ndn_svs.VersionVector.{get}
use ndn_svs.VersionVector.Invariant.{get-store, set-store}
use ndn_svs.Core.State.{
  Core, Wire, Draws, v3, express_interest, GetExtra, SyncProductionJob, or_self,
}
use ndn_svs.Core.Send.{production_worker, process_sync_production_result}
use ndn_svs.Core.Publish.{update_seq_no}

module _ {Node Interest Block : Type 0} ⦃o : Ord Node⦄ (w : Wire Node Interest Block)
    (d : Draws) where
  -- A publication whose number is not greater overwrites the entry: it may go down, under the
  -- same generation, and nobody is told.
  pub update_seq_no-lower :
      (seq b : ℕ) (nid : Option Node) (c : Core Node Interest Block)
      → 0 < seq
      → seq ≤ get c.vv (or_self c nid) b
      → let r = update_seq_no w d seq b nid c in
        (r.0 ≡ ok tt)
        × (get r.1.vv (or_self c nid) b ≡ seq)
        × (r.1.state_generation ≡ c.state_generation)
        × (r.1.effects ≡ c.effects)
  unfolding update_seq_no
  update_seq_no-lower seq b nid c p h = ground (
    arith,
    set-store d.wall_clock (or_self c nid) b seq c.vv,
    get-store d.wall_clock (or_self c nid) b seq c.vv (or_self c nid) b,
    o.cmp_self (or_self c nid),
  )

  -- A V3 worker that builds the extra blocks but may not sign sends none of them: for a job of the
  -- current generation with no blocks of its own, the packet that goes out is the vector alone,
  -- whatever the callback returned.
  pub production_drops_extra_blocks :
      (extra : GetExtra Node Block) (job : SyncProductionJob Node Block)
      (c : Core Node Interest Block) (i : Interest)
      → w.version ≡ v3
      → job.extra_blocks ≡ []
      → c.state_generation ≡ job.state_generation
      → w.encode job.local_vector [] ≡ ok i
      → (process_sync_production_result w (production_worker w false true extra job) c).1.effects
        ≡ c.effects ++ express_interest i ∷ []
  unfolding process_sync_production_result production_worker
  production_drops_extra_blocks extra job c i v e g h = ground arith
