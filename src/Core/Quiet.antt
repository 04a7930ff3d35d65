-- ===== src/Core/Quiet.antt =====
-- The operations of the core that leave its vector and its generation alone.
use ndn_svs.Base.{
  ℕ, ◌≡◌, refl, ◌∙◌, Bool, true, false, none, List, [], ◌∷◌, ◌++◌, arith, Ord, if◌then◌else◌,
  Result, ok, err,
}
use ndn_svs.Base.Action.{Action, go_on, ◌>>=◌, done}
use ndn_svs.VersionVector.{VersionVector}
use ndn_svs.Core.Merge.{MissingDataInfo}
use ndn_svs.Core.State.{Core, Wire, Draws, recv_block, record_vector}
use ndn_svs.Core.Send.{
  send_sync_interest_serial, send_sync_interest, schedule_retx,
  send_local_publication_sync_interest, process_sync_production_result, SyncProductionResult,
}
use ndn_svs.Core.Receive.{recv_each, deliver_extensions, report_missing, respond, after_merge}

module _ {Node Interest Block : Type 0} ⦃o : Ord Node⦄ where
  pub record Same (c c' : Core Node Interest Block) : Type 0 where
    pub vector : c'.vv ≡ c.vv
    pub generation : c'.state_generation ≡ c.state_generation
    pub pool : c'.processing_pool ≡ c.processing_pool

  abbrev pub Quiet : {A : Type 0} → Action (Core Node Interest Block) A → Type 0
  Quiet m = (c : Core Node Interest Block) → Same c (m c).1

  pub Same-trans : {a b c : Core Node Interest Block} → Same a b → Same b c → Same a c
  Same-trans p q = record {
    vector = q.vector ∙ p.vector;
    generation = q.generation ∙ p.generation;
    pool = q.pool ∙ p.pool;
  }

  go_on-Same :
      {A B : Type 0} (r : Result A) (f : A → Action (Core Node Interest Block) B)
      (c : Core Node Interest Block)
      → ((a : A) → Quiet (f a))
      → Same c (go_on r f c).1
  go_on-Same (ok a) f c q = q a c
  go_on-Same (err e) f c q = record { vector = refl; generation = refl; pool = refl }

  pub bind-Quiet :
      {A B : Type 0} (m : Action (Core Node Interest Block) A)
      (f : A → Action (Core Node Interest Block) B)
      → Quiet m
      → ((a : A) → Quiet (f a))
      → Quiet (m >>= f)
  bind-Quiet m f p q c = Same-trans (p c) (go_on-Same (m c).0 f (m c).1 q)

  pub if-Quiet :
      {A : Type 0} (b : Bool) (m n : Action (Core Node Interest Block) A)
      → Quiet m
      → Quiet n
      → Quiet (if b then m else n)
  if-Quiet true m n p q = p
  if-Quiet false m n p q = q

module _ {Node Interest Block : Type 0} ⦃o : Ord Node⦄ (w : Wire Node Interest Block) where
  pub send_sync_interest_serial-Quiet : Quiet (send_sync_interest_serial w)
  unfolding send_sync_interest_serial
  send_sync_interest_serial-Quiet c = ground arith

  pub send_sync_interest-Quiet : Quiet (send_sync_interest w)
  unfolding send_sync_interest
  send_sync_interest-Quiet c = ground arith

  pub process_sync_production_result-Quiet :
      (r : SyncProductionResult Node Interest Block) → Quiet (process_sync_production_result w r)
  unfolding process_sync_production_result
  process_sync_production_result-Quiet r c = ground arith

module _ {Node Interest Block : Type 0} ⦃o : Ord Node⦄ (w : Wire Node Interest Block)
    (d : Draws) where
  pub schedule_retx-Quiet : (delay : ℕ) → Quiet (schedule_retx w d delay)
  unfolding schedule_retx
  schedule_retx-Quiet delay c = record { vector = refl; generation = refl; pool = refl }

  pub send_local_publication-Quiet : Quiet (send_local_publication_sync_interest w d)
  unfolding send_local_publication_sync_interest
  send_local_publication-Quiet c =
      let sent = send_sync_interest-Quiet w (record c { recorded_vv = none }) in
      ground (arith, sent)

  recv_each-Quiet : (bs : List Block) (v : VersionVector Node) → Quiet (recv_each w d bs v)
  unfolding recv_each
  recv_each-Quiet [] v c = record { vector = refl; generation = refl; pool = refl }
  recv_each-Quiet (b ∷ bs) v c =
      let rest = recv_each-Quiet bs v (record c { effects = c.effects ++ recv_block b v ∷ [] }) in
      record { vector = rest.vector; generation = rest.generation; pool = rest.pool }

  deliver_extensions-Quiet :
      (bs : List Block) (v : VersionVector Node) → Quiet (deliver_extensions w d bs v)
  unfolding deliver_extensions
  deliver_extensions-Quiet [] v c = record { vector = refl; generation = refl; pool = refl }
  deliver_extensions-Quiet (b ∷ bs) v c = ground (arith, recv_each-Quiet (b ∷ bs) v c)

  report_missing-Quiet :
      (face : ℕ) (infos : List (MissingDataInfo Node)) → Quiet (report_missing w d face infos)
  unfolding report_missing
  report_missing-Quiet face [] c = record { vector = refl; generation = refl; pool = refl }
  report_missing-Quiet face (i ∷ infos) c = record { vector = refl; generation = refl; pool = refl }

  record_vector-Quiet :
      (v : VersionVector Node)
      → Quiet (record_vector {Interest = Interest} {Block = Block} d.wall_clock v)
  unfolding record_vector
  record_vector-Quiet v c = ground arith

  respond-Quiet : (mine : Bool) (v : VersionVector Node) → Quiet (respond w d mine v)
  unfolding respond
  respond-Quiet mine v c = ground arith

  pub after_merge-Quiet :
      (face : ℕ) (bs : List Block) (v : VersionVector Node) (mine : Bool)
      (infos : List (MissingDataInfo Node))
      → Quiet (after_merge w d face bs v mine infos)
  unfolding after_merge
  after_merge-Quiet face bs v mine infos c =
      bind-Quiet (deliver_extensions w d bs v) _ (deliver_extensions-Quiet bs v)
        (λ _. bind-Quiet (report_missing w d face infos) _ (report_missing-Quiet face infos) λ _.
          bind-Quiet (record_vector d.wall_clock v) _ (record_vector-Quiet v) λ b.
            if-Quiet b done _ (λ c. record { vector = refl; generation = refl; pool = refl })
              (respond-Quiet mine v))
        c
