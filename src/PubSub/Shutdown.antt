-- ===== src/PubSub/Shutdown.antt =====
-- The destructor of `SVSPubSub`, in ndn-svs/svspubsub.cpp: what was stored but not advertised is
-- removed from the store again.
use ndn_svs.Base.{ℕ, List, [], ◌∷◌, ◌++◌, if◌then◌else◌}
use ndn_svs.Base.OrdMap.{OrdMap}
use ndn_svs.Packets.{Packets}
use ndn_svs.SyncBase.{DataStore, remove_prepared_data_batch}
use ndn_svs.PubSub.State.{PreparedPublication, PubSub}

-- the packets of one node that wait for their handler, and those of all nodes
abbrev pub staged_of : {Data : Type 0} → OrdMap ℕ (List Data) → List (List Data)
staged_of [] = []
staged_of ((seq, packets) ∷ publications) = packets ∷ staged_of publications

abbrev pub all_staged :
    {Component Data : Type 0} → OrdMap (List Component) (OrdMap ℕ (List Data)) → List (List Data)
all_staged [] = []
all_staged ((node, publications) ∷ nodes) = staged_of publications ++ all_staged nodes

module _ {Component Data Block : Type 0} where
  -- those of one node that are stored and wait to be committed, and those of all nodes
  abbrev pub prepared_of : OrdMap ℕ (PreparedPublication Component Data Block) → List (List Data)
  prepared_of [] = []
  prepared_of ((seq, p) ∷ publications) =
      if p.stored then p.outer_packets ∷ prepared_of publications else prepared_of publications

  abbrev pub all_prepared :
      OrdMap (List Component) (OrdMap ℕ (PreparedPublication Component Data Block))
      → List (List Data)
  all_prepared [] = []
  all_prepared ((node, publications) ∷ nodes) = prepared_of publications ++ all_prepared nodes

module _ {Component Data Interest S : Type 0} (pk : Packets Component Data)
    (st : DataStore Component Data Interest S) where
  -- a batch that cannot be removed is only logged
  unfoldable pub remove_batches : List (List Data) → S → S
  remove_batches [] s = s
  remove_batches (packets ∷ batches) s =
      remove_batches batches (remove_prepared_data_batch pk st packets s).1

module _ {Component Data Interest Block S : Type 0} (pk : Packets Component Data)
    (st : DataStore Component Data Interest S) where
  unfoldable pub shut_down :
      PubSub Component Data Interest Block S → PubSub Component Data Interest Block S
  unfolding remove_batches
  shut_down s =
      let unadvertised =
        all_staged s.staged_publication_packets ++ all_prepared s.prepared_publications in
      record s {
        staged_publication_packets = [];
        prepared_publications = [];
        outputs = record s.outputs {
          base = record s.outputs.base {
            store = remove_batches pk st unadvertised s.outputs.base.store;
          };
        };
      }
