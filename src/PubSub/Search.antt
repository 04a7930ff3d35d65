-- ===== src/PubSub/Search.antt =====
-- The binary search for the size of a segment.
use ndn_svs.Base.{
  ℕ, zero, suc, ◌+◌, ◌-◌, ◌/◌, ◌≤◌, ◌<◌, ◌≡◌, refl, arith, false, Option, none, some, ltb, leb,
  ltb→le, ltb→lt, leb→le, Bool-cases, inl, inr, Result, ok,
}
use ndn_svs.Packets.{Packets, Markers, wire_size, max_ndn_packet_size}
use ndn_svs.PubSub.Segments.{search, is_final_packet_size_allowed}

leb→lt : (a b : ℕ) → leb a b ≡ false → b < a
leb→lt a b h = ground arith

module _ {Component Data : Type 0} (pk : Packets Component Data) (mk : Markers Component)
    (make : ℕ → Data) where
  -- A packet with more content is not smaller.
  abbrev pub AreMonotone : Type 0
  AreMonotone = (a b : ℕ) → a ≤ b → wire_size pk (make a) ≤ wire_size pk (make b)

  abbrev pub TooLarge : ℕ → ℕ → Type 0
  TooLarge low upper = (k : ℕ) → low < k → k ≤ upper → max_ndn_packet_size < wire_size pk (make k)

  -- the largest size up to a bound whose packet fits, if there is one
  abbrev pub IsLargest : ℕ → Option (ℕ × Data) → Type 0
  IsLargest upper none = TooLarge 0 upper
  IsLargest upper (some (size, packet)) =
      (1 ≤ size)
      × (size ≤ upper)
      × (packet ≡ make size)
      × (wire_size pk packet ≤ max_ndn_packet_size)
      × TooLarge size upper

  -- the best size so far is the one below `low`
  abbrev IsBelow : ℕ → Option (ℕ × Data) → Type 0
  IsBelow low none = low ≡ 1
  IsBelow low (some (size, packet)) =
      (1 ≤ size)
      × (low ≡ size + 1)
      × (packet ≡ make size)
      × (wire_size pk packet ≤ max_ndn_packet_size)

  below-IsLargest :
      (upper low high : ℕ) (best : Option (ℕ × Data))
      → IsBelow low best
      → low ≤ suc high
      → high < low
      → high ≤ upper
      → TooLarge high upper
      → IsLargest upper best
  below-IsLargest upper low high none b s e h t = λ k l u. t k (omega (arith, l, e, b)) u
  below-IsLargest upper low high (some (size, packet)) b s e h t =
      (b.0, omega (arith, b.1, s, h), b.2, b.3, λ k l u. t k (omega (arith, l, e, b.1)) u)

  abbrev pub Finds : ℕ → Result (Option (ℕ × Data)) → Type 0
  Finds upper r = (best : Option (ℕ × Data)) × (r ≡ ok best) × IsLargest upper best

  search-Finds :
      (mono : AreMonotone) (upper fuel low high : ℕ) (best : Option (ℕ × Data))
      → 1 ≤ low
      → high ≤ upper
      → low ≤ suc high
      → suc high - low ≤ fuel
      → IsBelow low best
      → TooLarge high upper
      → Finds upper (search pk mk (λ n. ok (make n)) fuel low high best)
  unfolding search is_final_packet_size_allowed
  search-Finds mono upper zero low high best l h s f b t =
      (best, refl, below-IsLargest upper low high best b s (omega (arith, f)) h t)
  search-Finds mono upper (suc fuel) low high best l h s f b t = elim (Bool-cases (ltb high low)) [
    | inl e ↦ rw (e) (best, refl, below-IsLargest upper low high best b s (ltb→lt high low e) h t)
    | inr e ↦
        let c = low + (high - low) / 2 in
        let inside = ltb→le high low e in
        rw (e) elim (Bool-cases (leb (wire_size pk (make c)) max_ndn_packet_size)) [
          | inl fits ↦ rw (fits) (
              search-Finds mono upper fuel (c + 1) high (some (c, make c)) (omega arith) h
                (omega (arith, inside)) (omega (arith, inside, f))
                (omega (arith, l), refl, refl, leb→le _ _ fits) t)
          | inr big ↦ rw (big) (
              search-Finds mono upper fuel low (c - 1) best l (omega (arith, inside, h))
                (omega (arith, l)) (omega (arith, l, inside, f)) b
                (λ k g u. omega (arith, leb→lt _ _ big, mono c k (omega (arith, l, inside, g)))))
        ]
  ]

  -- With packets that grow with their content, and no exception, the search finds the largest
  -- content that fits, and none only if not even one byte fits: as many rounds as the bound says
  -- are enough.
  pub search-largest :
      (mono : AreMonotone) (upper : ℕ)
      → Finds upper (search pk mk (λ n. ok (make n)) upper 1 upper none)
  search-largest mono upper =
      search-Finds mono upper upper 1 upper none (omega arith) (omega arith) (omega arith)
        (omega arith) refl (λ k g u. omega (arith, g, u))
