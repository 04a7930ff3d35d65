-- ===== src/PubSub/Queues.antt =====
-- One queue of what Sync Interests carry: what a pass adds to the block, and what it leaves.
use mathlib.Core.List.{append_assoc, append-nil}
use ndn_svs.Base.{
  ℕ, suc, ◌+◌, ◌-◌, ◌≤◌, ◌<◌, ◌≡◌, ◌⊎◌, inl, inr, refl, sym, ap, subst, map, ◌∙◌, arith, List, [],
  ◌∷◌, ◌++◌, reverse, ltb, ltb→le, Bool-cases, All, All-reverse,
}
use ndn_svs.PubSub.State.{Piggy}
use ndn_svs.PubSub.Extra.{Composite, Packed, pack_entry, pack_each, pack_queue}

module _ {Block : Type 0} (size : Block → ℕ) where
  abbrev pub total_size : List Block → ℕ
  total_size [] = 0
  total_size (b ∷ bs) = size b + total_size bs

  total_size-append : (xs ys : List Block) → total_size (xs ++ ys) ≡ total_size xs + total_size ys
  total_size-append [] ys = omega arith
  total_size-append (x ∷ xs) ys = omega (arith, total_size-append xs ys)

  -- Which of the candidates are taken, in their order, behind a block of the size `n`: each that
  -- still fits within the limit with all that were taken before it, and no other.
  pub data Greedy (limit : ℕ) : ℕ → List Block → List Block → Type 0 where
    finished : {n : ℕ} → Greedy limit n [] []
    takes :
        {n : ℕ} {b : Block} {bs more : List Block}
        → n + size b ≤ limit
        → Greedy limit (n + size b) bs more
        → Greedy limit n (b ∷ bs) (b ∷ more)
    passes :
        {n : ℕ} {b : Block} {bs more : List Block}
        → limit < n + size b
        → Greedy limit n bs more
        → Greedy limit n (b ∷ bs) more

  Greedy-append :
      (limit n m : ℕ) (xs ys more rest : List Block)
      → m ≡ n + total_size more
      → Greedy limit n xs more
      → Greedy limit m ys rest
      → Greedy limit n (xs ++ ys) (more ++ rest)
  Greedy-append limit n m _ ys _ rest e finished h =
      subst (λ k. Greedy limit k ys rest) (let f : m ≡ n = omega (arith, e) in f) h
  Greedy-append limit n m _ ys _ rest e (takes {b = b} {bs = xs} {more = more} fits g) h =
      takes fits (
        Greedy-append limit (n + size b) m xs ys more rest
          (let f : m ≡ n + size b + total_size more = omega (arith, e) in f) g h)
  Greedy-append limit n m _ ys more rest e (passes {b = b} {bs = xs} over g) h =
      passes over (Greedy-append limit n m xs ys more rest e g h)

  -- what was taken fits
  pub Greedy-fits :
      (limit n : ℕ) (xs more : List Block)
      → Greedy limit n xs more
      → (more ≡ []) ⊎ (n + total_size more ≤ limit)
  Greedy-fits limit n _ _ finished = inl refl
  Greedy-fits limit n _ _ (takes {b = b} {bs = xs} {more = more} fits g) =
      inr (elim (Greedy-fits limit (n + size b) xs more g) [
        | inl none_left ↦ omega (arith, fits, ap total_size none_left)
        | inr h ↦ omega (arith, h)
      ])
  Greedy-fits limit n _ more (passes {bs = xs} over g) = Greedy-fits limit n xs more g

  -- the composite block is extended by the candidates that are taken
  abbrev pub Extends : ℕ → List Block → Composite Block → Composite Block → Type 0
  Extends limit candidates c d =
      (more : List Block) × (d.children ≡ c.children ++ more)
      × (d.size ≡ c.size + total_size more)
      × Greedy limit c.size candidates more

  pub Extends-trans :
      (limit : ℕ) (xs ys : List Block) (c d e : Composite Block)
      → Extends limit xs c d
      → Extends limit ys d e
      → Extends limit (xs ++ ys) c e
  Extends-trans limit xs ys c d e f g = (
    f.0 ++ g.0,
    g.1 ∙ ap (λ l. l ++ g.0) f.1 ∙ append_assoc c.children f.0 g.0,
    omega (arith, f.2, g.2, total_size-append f.0 g.0),
    Greedy-append limit c.size d.size xs ys f.0 g.0 f.2 f.3 g.3,
  )

module _ {Payload Block : Type 0} (size : Block → ℕ) (encode : Payload → Block)
    (max_size repeat_count miss_limit : ℕ) where
  abbrev block_of : Piggy Payload → Block
  block_of e = encode e.payload

  pack_entry-Extends :
      (e : Piggy Payload) (r : Packed Payload Block)
      → Extends size max_size
          (block_of e ∷ [])
          r.composite
          (pack_entry size encode max_size repeat_count miss_limit e r).composite
  unfolding pack_entry
  pack_entry-Extends e r =
      let block = encode e.payload in
      let total = r.composite.size + size block in
      elim (Bool-cases (ltb max_size total)) [
        | inl over ↦
            rw (over) (
              [],
              sym (append-nil r.composite.children),
              omega arith,
              passes (ground arith) finished,
            )
        | inr fits ↦
            rw (fits) (block ∷ [], refl, omega arith, takes (ltb→le max_size total fits) finished)
      ]

  pack_each-Extends :
      (es : List (Piggy Payload)) (r : Packed Payload Block)
      → Extends size max_size
          (map block_of es)
          r.composite
          (pack_each size encode max_size repeat_count miss_limit es r).composite
  unfolding pack_each
  pack_each-Extends [] r = ([], sym (append-nil r.composite.children), omega arith, finished)
  pack_each-Extends (e ∷ es) r =
      let next = pack_entry size encode max_size repeat_count miss_limit e r in
      Extends-trans size max_size (block_of e ∷ []) (map block_of es) r.composite next.composite
        (pack_each size encode max_size repeat_count miss_limit es next).composite
        (pack_entry-Extends e r) (pack_each-Extends es next)

  -- the blocks of a queue, the newest first
  abbrev pub newest_first : List (Piggy Payload) → List Block
  newest_first queue = map block_of (reverse queue)

  -- how often an entry may still go out or be passed over
  abbrev pub chances : Piggy Payload → ℕ
  chances e = (repeat_count - e.sent) + (miss_limit - e.missed)

  -- after `n` rounds
  abbrev pub LeftOver : ℕ → List (Piggy Payload) → Type 0
  LeftOver n es = All (λ e. chances e + n ≤ repeat_count + miss_limit) es

  pack_entry-LeftOver :
      (n : ℕ) (e : Piggy Payload) (r : Packed Payload Block)
      → chances e + n ≤ repeat_count + miss_limit
      → LeftOver (suc n) r.retained
      → LeftOver (suc n) (pack_entry size encode max_size repeat_count miss_limit e r).retained
  unfolding pack_entry
  pack_entry-LeftOver n e r h a = ground arith

  pack_each-LeftOver :
      (n : ℕ) (es : List (Piggy Payload)) (r : Packed Payload Block)
      → LeftOver n es
      → LeftOver (suc n) r.retained
      → LeftOver (suc n) (pack_each size encode max_size repeat_count miss_limit es r).retained
  unfolding pack_each
  pack_each-LeftOver n [] r h a = a
  pack_each-LeftOver n (e ∷ es) r h a =
      pack_each-LeftOver n es (pack_entry size encode max_size repeat_count miss_limit e r) h.1
        (pack_entry-LeftOver n e r h.0 a)

  -- Every entry that stays in a queue has one chance less.
  pub pack_queue-LeftOver :
      (n : ℕ) (queue : List (Piggy Payload)) (c : Composite Block)
      → LeftOver n queue
      → LeftOver (suc n) (pack_queue size encode max_size repeat_count miss_limit queue c).retained
  unfolding pack_queue
  pack_queue-LeftOver n queue c h =
      pack_each-LeftOver n (reverse queue) (record { composite = c; retained = [] })
        (All-reverse (λ e. chances e + n ≤ repeat_count + miss_limit) queue h) tt

  pub pack_queue-Extends :
      (queue : List (Piggy Payload)) (c : Composite Block)
      → Extends size max_size
          (newest_first queue)
          c
          (pack_queue size encode max_size repeat_count miss_limit queue c).composite
  unfolding pack_queue
  pack_queue-Extends queue c =
      pack_each-Extends (reverse queue) (record { composite = c; retained = [] })

  pub all_have_chances : (queue : List (Piggy Payload)) → LeftOver 0 queue
  all_have_chances [] = tt
  all_have_chances (e ∷ es) = (omega arith, all_have_chances es)

  pub LeftOver-empty :
      (n : ℕ) (queue : List (Piggy Payload))
      → repeat_count + miss_limit < n
      → LeftOver n queue
      → queue ≡ []
  LeftOver-empty n [] h l = refl
  LeftOver-empty n (e ∷ es) h l = ground arith
