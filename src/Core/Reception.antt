-- ===== src/Core/Reception.antt =====
-- What the serial handler leaves in the vector, and two nodes that hear one another.
use ndn_svs.Base.{ap, ℕ, ◌≡◌, max, true, Ord, nat_ord, ok}
use ndn_svs.VersionVector.{VersionVector, get}
use ndn_svs.VersionVector.Invariant.{IsValid}
use ndn_svs.Core.Merge.{merge_start}
use ndn_svs.Core.Merge.Total.{merged, learn_all, flat}
use ndn_svs.Core.Merge.Values.{get-merged}
use ndn_svs.Core.Merge.Lattice.{merged_comm}
use ndn_svs.Core.State.{Core, Wire, Draws, Envelope}
use ndn_svs.Core.Receive.{on_sync_interest_validated_serial}
use ndn_svs.Core.Quiet.{after_merge-Quiet}
use ndn_svs.Core.Parallel.{serial-decoded, merged_core}

module _ {Node Interest Block : Type 0} ⦃o : Ord Node⦄ (w : Wire Node Interest Block)
    (d : Draws) where
  serial-vv :
      (i : Interest) (c : Core Node Interest Block) (e : Envelope Node Block)
      → w.decode true i ≡ ok e
      → (on_sync_interest_validated_serial w d i c).1.vv
        ≡ (merged d.wall_clock c.vv e.state_vector).merged_vector
  serial-vv i c e h =
      rw (serial-decoded w d i c e h)
        (after_merge-Quiet w d (w.incoming_face i) e.extensions e.state_vector _ _
          (merged_core w d c e.state_vector)).vector

  -- A packet that decodes to a valid vector leaves at every entry the greater of the number held
  -- and the number received.
  pub get-serial :
      (i : Interest) (c : Core Node Interest Block) (e : Envelope Node Block) (n : Node) (b : ℕ)
      → w.decode true i ≡ ok e
      → IsValid e.state_vector
      → get (on_sync_interest_validated_serial w d i c).1.vv n b
        ≡ max (get c.vv n b) (get e.state_vector n b)
  get-serial i c e n b h v =
      rw (serial-vv i c e h) (get-merged d.wall_clock c.vv e.state_vector n b v)

-- a merge reads the entries of the received vector and nothing else of it
merged_alike :
    {Node : Type 0} ⦃o : Ord Node⦄ (now : ℕ) (u v w : VersionVector Node)
    → v.entries ≡ w.entries
    → (merged now u v).merged_vector ≡ (merged now u w).merged_vector
unfolding merged
merged_alike now u v w e =
    ap (λ entries. (learn_all now (flat entries) (merge_start u)).merged_vector) e

-- Two nodes with valid vectors that each hear the other's entries once, as they were before, hold the
-- same entries. Of a packet no more is assumed than that it decodes to the entries of its sender:
-- the time stamps and caches of the decoded vector may be any.
pub exchange_converges :
    {Node Interest Block : Type 0} ⦃o : Ord Node⦄ (w w' : Wire Node Interest Block) (d d' : Draws)
    (from_a from_b : Interest) (a b : Core Node Interest Block) (e f : Envelope Node Block)
    → w.decode true from_b ≡ ok f
    → f.state_vector.entries ≡ b.vv.entries
    → w'.decode true from_a ≡ ok e
    → e.state_vector.entries ≡ a.vv.entries
    → IsValid a.vv
    → IsValid b.vv
    → (on_sync_interest_validated_serial w d from_b a).1.vv.entries
      ≡ (on_sync_interest_validated_serial w' d' from_a b).1.vv.entries
exchange_converges w w' d d' from_a from_b a b e f hb eb ha ea va vb =
    rw
      (
        serial-vv w d from_b a f hb,
        serial-vv w' d' from_a b e ha,
        merged_alike d.wall_clock a.vv f.state_vector b.vv eb,
        merged_alike d'.wall_clock b.vv e.state_vector a.vv ea,
      )
      (merged_comm d.wall_clock d'.wall_clock a.vv b.vv va vb)
