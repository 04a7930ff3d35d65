-- ===== src/PubSub/Atomic.antt =====
-- A collection of extra blocks is taken as a whole or not at all.
use ndn_svs.Base.{
  ℕ, ◌≡◌, ◌⊎◌, inl, inr, refl, true, false, Bool-cases, Result-cases, Option, none, some, List, [],
  ◌∷◌, Ord, nat_ord, ok, All,
}
use ndn_svs.PubSub.Client.{FetchOptions, Client}
use ndn_svs.PubSub.Arrival.{ArrivalEnv, is_known_extension, check_blocks}
use ndn_svs.PubSub.Receive.{receive_checked, on_recv_extra_data, recv_each, on_recv_extra_blocks}
use ndn_svs.PubSub.Acceptable.{
  IsWhole, known, IsAcceptable, check_extension-IsWhole, check_blocks-IsAcceptable,
  IsAcceptable-check_blocks,
}

module _ {Component Data Interest Block S : Type 0} ⦃o : Ord (List Component)⦄
    (env : ArrivalEnv Component Data Interest Block S) (opts : FetchOptions) (fuel : ℕ) where
  abbrev State : Type 0
  State = Client Component Data Interest Block S

  -- The blocks of a collection are received one after the other, each with all its children, and
  -- only those of other types are passed over. There is no result where the fuel does not last.
  pub data Receives : List Block → State → Option State → Type 0 where
    finished : {c : State} → Receives [] c (some c)
    passes :
        {b : Block} {bs : List Block} {c : State} {r : Option State}
        → is_known_extension (env.codec.tlv.type b) ≡ false
        → Receives bs c r
        → Receives (b ∷ bs) c r
    takes :
        {b : Block} {bs : List Block} {c : State} {r : Option State}
        → is_known_extension (env.codec.tlv.type b) ≡ true
        → (children : List Block) → env.codec.tlv.elements b ≡ ok children
        → (next : State) → receive_checked env opts fuel b children c ≡ some next
        → Receives bs next r
        → Receives (b ∷ bs) c r
    stops :
        {b : Block} {bs : List Block} {c : State}
        → is_known_extension (env.codec.tlv.type b) ≡ true
        → (children : List Block) → env.codec.tlv.elements b ≡ ok children
        → receive_checked env opts fuel b children c ≡ none
        → Receives (b ∷ bs) c none

  take_one :
      (b : Block) (bs : List Block) (c : State)
      → is_known_extension (env.codec.tlv.type b) ≡ true
      → (children : List Block) → env.codec.tlv.elements b ≡ ok children
      → ((next : State) → Receives bs next (recv_each env opts fuel bs next))
      → (r : Option State) → receive_checked env opts fuel b children c ≡ r
      → Receives (b ∷ bs) c (elim r [ none ↦ none | some next ↦ recv_each env opts fuel bs next ])
  take_one b bs c k children e rest none h = stops k children e h
  take_one b bs c k children e rest (some next) h = takes k children e next h (rest next)

  recv_each-Receives :
      (blocks : List Block) (c : State)
      → All (IsWhole env.codec) (known env.codec blocks)
      → Receives blocks c (recv_each env opts fuel blocks c)
  unfolding recv_each on_recv_extra_data known
  recv_each-Receives [] c h = finished
  recv_each-Receives (b ∷ bs) c h = elim (Bool-cases (is_known_extension (env.codec.tlv.type b))) [
    | inr other ↦
        rw (recv_each, on_recv_extra_data, other)
          (passes other (recv_each-Receives bs c (rw (known, other) at h)))
    | inl k ↦
        let w = rw (known, k) at h in
        rw (recv_each, on_recv_extra_data, k, check_extension-IsWhole env.codec b k w.0, w.0.1.1)
          (take_one b bs c k w.0.1.0 w.0.1.1 (λ next. recv_each-Receives bs next w.1)
            (receive_checked env opts fuel b w.0.1.0 c) refl)
  ]

  -- `onRecvExtraBlocks` takes a collection as a whole or not at all, for any collection and client.
  -- Either there are at most 16 blocks, those of the two known types have distinct types, and each
  -- of these can be read with all its children of a type that is read; then all known blocks are
  -- received one after the other, each with all its children (up to the one at which the fuel runs
  -- out, if it does; there is no result then). Or this does not hold, and the client is left as it
  -- was.
  pub on_recv_extra_blocks-IsWhole :
      (blocks : List Block) (c : State)
      → (IsAcceptable env.codec blocks
          × Receives blocks c (on_recv_extra_blocks env opts fuel blocks c))
        ⊎ ((¬ IsAcceptable env.codec blocks)
            × (on_recv_extra_blocks env opts fuel blocks c ≡ some c))
  unfolding on_recv_extra_blocks
  on_recv_extra_blocks-IsWhole blocks c = elim (Result-cases (check_blocks env.codec blocks)) [
    | inr bad ↦ inr (
      (λ a. cc (check_blocks-IsAcceptable env.codec blocks a, bad.1)),
      rw (on_recv_extra_blocks, bad.1) refl,
    )
    | inl good ↦
        let a = IsAcceptable-check_blocks env.codec blocks good in
        inl (a, rw (on_recv_extra_blocks, good) (recv_each-Receives blocks c a.2))
  ]
