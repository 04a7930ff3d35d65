-- ===== src/PubSub/Ranges.antt =====
-- The loops of `onFetchedNameMappings` and `updateCallbackInternal` that cut ranges of numbers, for
-- any function that is called with a range. The numbers are `uint64_t`, and the loops run on fuel.
use ndn_svs.Base.{
  ℕ, zero, suc, ◌+◌, ◌-◌, ◌%◌, ◌^◌, ◌≤◌, ◌<◌, ◌≡◌, refl, sym, ◌∙◌, arith, inl, inr, Bool, true,
  false, not, ◌&&◌, ◌||◌, Bool-cases, Option, none, some, List, [], ◌∷◌, elem, ltb, leb, leb→le,
  nat_ord, ◌==◌, ==_iff, ap, if◌then◌else◌, All,
}

abbrev pub or_here : Option ℕ → ℕ → ℕ
or_here none seq = seq
or_here (some low) seq = low

module _ {S : Type 0} (f : ℕ → ℕ → S → S) where
  -- what is called for a returned number, which ends a missing range
  unfoldable pub close_before : Option ℕ → ℕ → S → S
  close_before none seq s = s
  close_before (some low) seq s = f low (seq - 1) s

  unfoldable pub missing_each : ℕ → List ℕ → ℕ → ℕ → Option ℕ → S → Option S
  unfolding close_before
  missing_each zero returned high seq missing_low s = none
  missing_each (suc fuel) returned high seq missing_low s = elim (leb seq high) [
    | true ↦ elim (elem seq returned) [
      | true ↦
          missing_each fuel returned high ((seq + 1) % 2 ^ 64) none (close_before missing_low seq s)
      | false ↦
          missing_each fuel returned high ((seq + 1) % 2 ^ 64) (some (or_here missing_low seq)) s
    ]
    | false ↦ some (elim missing_low [ none ↦ s | some low ↦ f low high s ])
  ]

  -- at most 11 numbers at a time
  unfoldable pub chunk_each : ℕ → ℕ → ℕ → S → Option S
  chunk_each zero high low s = none
  chunk_each (suc fuel) high low s = elim (leb low high) [
    | true ↦
        chunk_each fuel high ((low + 11) % 2 ^ 64)
          (f low (if ltb 10 (high - low) then low + 10 else high) s)
    | false ↦ some s
  ]

  -- one call for each range
  abbrev pub call_each : List (ℕ × ℕ) → S → S
  call_each [] s = s
  call_each (r ∷ rs) s = call_each rs (f r.0 r.1 s)

-- one of the ranges has the number
abbrev pub is_covered : ℕ → List (ℕ × ℕ) → Bool
is_covered n [] = false
is_covered n (r ∷ rs) = (leb r.0 n && leb n r.1) || is_covered n rs

-- the number is in the range that is open before `seq`
abbrev is_open : ℕ → Option ℕ → ℕ → Bool
is_open n none seq = false
is_open n (some low) seq = leb low n && ltb n seq

abbrev IsBefore : Option ℕ → ℕ → Type 0
IsBefore none seq = Unit
IsBefore (some low) seq = low < seq

abbrev close_ranges : Option ℕ → ℕ → List (ℕ × ℕ) → List (ℕ × ℕ)
close_ranges none seq rs = rs
close_ranges (some low) seq rs = (low, seq - 1) ∷ rs

closed_covers :
    (n : ℕ) (low : Option ℕ) (seq : ℕ) (rs : List (ℕ × ℕ))
    → IsBefore low seq
    → is_covered n (close_ranges low seq rs) ≡ (is_open n low seq || is_covered n rs)
closed_covers n none seq rs b = refl
closed_covers n (some low) seq rs b = ground arith

-- a returned number ends the open range
after_returned :
    (n seq high : ℕ) (returned : List ℕ) (low : Option ℕ)
    → elem seq returned ≡ true
    → (is_open n low seq || (leb (seq + 1) n && leb n high && not (elem n returned)))
      ≡ (is_open n low seq || (leb seq n && leb n high && not (elem n returned)))
after_returned n seq high returned low e =
    ap (λ b. is_open n low seq || b)
      (elim (Bool-cases (n == seq)) [
        | inl same ↦ (let here : n ≡ seq = (==_iff n seq).0 same in rw (here, e) (ground arith))
        | inr other ↦ ground (arith, ==_iff n seq)
      ])

-- a missing number opens a range or is in the open one
after_missing :
    (n seq high : ℕ) (returned : List ℕ) (low : Option ℕ)
    → elem seq returned ≡ false
    → IsBefore low seq
    → seq ≤ high
    → (is_open n (some (or_here low seq)) (seq + 1)
        || (leb (seq + 1) n && leb n high && not (elem n returned)))
      ≡ (is_open n low seq || (leb seq n && leb n high && not (elem n returned)))
after_missing n seq high returned none e b h = elim (Bool-cases (n == seq)) [
  | inl same ↦ (let here : n ≡ seq = (==_iff n seq).0 same in rw (here, e) (ground arith))
  | inr other ↦ ground (arith, ==_iff n seq)
]
after_missing n seq high returned (some low) e b h = elim (Bool-cases (n == seq)) [
  | inl same ↦ (let here : n ≡ seq = (==_iff n seq).0 same in rw (here, e) (ground arith))
  | inr other ↦ ground (arith, ==_iff n seq)
]

module _ {S : Type 0} (f : ℕ → ℕ → S → S) where
  closed :
      (low : Option ℕ) (seq : ℕ) (rs : List (ℕ × ℕ)) (s : S)
      → call_each f (close_ranges low seq rs) s ≡ call_each f rs (close_before f low seq s)
  unfolding close_before
  closed none seq rs s = refl
  closed (some low) seq rs s = refl

  -- What is called: ranges with the open one and what is missing from `seq` on.
  abbrev Calls : ℕ → List ℕ → ℕ → ℕ → Option ℕ → S → Type 0
  Calls fuel returned high seq low s =
      (rs : List (ℕ × ℕ)) × (missing_each f fuel returned high seq low s ≡ some (call_each f rs s))
      × ((n : ℕ)
          → is_covered n rs
            ≡ (is_open n low seq || (leb seq n && leb n high && not (elem n returned))))

  step_returned :
      (fuel : ℕ) (returned : List ℕ) (high seq : ℕ) (low : Option ℕ) (s : S)
      → leb seq high ≡ true
      → (seq + 1) % 2 ^ 64 ≡ seq + 1
      → elem seq returned ≡ true
      → IsBefore low seq
      → Calls fuel returned high (seq + 1) none (close_before f low seq s)
      → Calls (suc fuel) returned high seq low s
  unfolding missing_each
  step_returned fuel returned high seq low s m w e b rest = (
    close_ranges low seq rest.0,
    rw (missing_each, m, e, w) (rest.1 ∙ ap some (sym (closed low seq rest.0 s))),
    λ n.
        closed_covers n low seq rest.0 b
        ∙ ap (λ c. is_open n low seq || c) (rest.2 n)
        ∙ after_returned n seq high returned low e,
  )

  step_missing :
      (fuel : ℕ) (returned : List ℕ) (high seq : ℕ) (low : Option ℕ) (s : S)
      → leb seq high ≡ true
      → (seq + 1) % 2 ^ 64 ≡ seq + 1
      → elem seq returned ≡ false
      → IsBefore low seq
      → Calls fuel returned high (seq + 1) (some (or_here low seq)) s
      → Calls (suc fuel) returned high seq low s
  unfolding missing_each
  step_missing fuel returned high seq low s m w e b rest = (
    rest.0,
    rw (missing_each, m, e, w) rest.1,
    λ n. rest.2 n ∙ after_missing n seq high returned low e b (leb→le seq high m),
  )

  over-Calls :
      (fuel : ℕ) (returned : List ℕ) (high seq : ℕ) (low : Option ℕ) (s : S)
      → leb seq high ≡ false
      → seq ≤ high + 1
      → Calls (suc fuel) returned high seq low s
  unfolding missing_each
  over-Calls fuel returned high seq none s o a = ([], rw (missing_each, o) refl, λ n. ground arith)
  over-Calls fuel returned high seq (some low) s o a =
      ((low, high) ∷ [], rw (missing_each, o) refl, λ n. ground arith)

  before_next : (low : Option ℕ) (seq : ℕ) → IsBefore low seq → or_here low seq < seq + 1
  before_next none seq b = omega arith
  before_next (some low) seq b = omega arith

  missing_each-Calls :
      (fuel : ℕ) (returned : List ℕ) (high seq : ℕ) (low : Option ℕ) (s : S)
      → high + 1 < 2 ^ 64
      → seq ≤ high + 1
      → high + 1 < seq + fuel
      → IsBefore low seq
      → Calls fuel returned high seq low s
  missing_each-Calls zero returned high seq low s w a b c =
      let never : high + 1 < high + 1 = omega arith in let no : true ≡ false = ground arith in cc
  missing_each-Calls (suc fuel) returned high seq low s w a b c = elim (Bool-cases (leb seq high)) [
    | inr over ↦ over-Calls fuel returned high seq low s over a
    | inl more ↦
        let h = leb→le seq high more in
        let next : (seq + 1) % 2 ^ 64 ≡ seq + 1 = omega arith in
        elim (Bool-cases (elem seq returned)) [
          | inl known ↦ step_returned fuel returned high seq low s more next known c (
              missing_each-Calls fuel returned high (seq + 1) none (close_before f low seq s) w
                (omega arith) (omega arith) tt)
          | inr missing ↦ step_missing fuel returned high seq low s more next missing c (
              missing_each-Calls fuel returned high (seq + 1) (some (or_here low seq)) s w
                (omega arith) (omega arith) (before_next low seq c))
        ]
  ]

  -- The loop of onFetchedNameMappings ends, for a range that ends before 2 ^ 64 - 1, and calls for
  -- ranges that have exactly the numbers from `low` to `high` that were not returned, whatever it
  -- calls with them.
  pub missing_each-covers :
      (fuel : ℕ) (returned : List ℕ) (low high : ℕ) (s : S)
      → high + 1 < 2 ^ 64
      → low ≤ high + 1
      → high + 1 < low + fuel
      → (rs : List (ℕ × ℕ)) × (missing_each f fuel returned high low none s
          ≡ some (call_each f rs s))
        × ((n : ℕ) → is_covered n rs ≡ (leb low n && leb n high && not (elem n returned)))
  missing_each-covers fuel returned low high s w a b =
      missing_each-Calls fuel returned high low none s w a b tt

  in_chunk :
      (n low high : ℕ)
      → low ≤ high
      → (leb low n && leb n (if ltb 10 (high - low) then low + 10 else high)
          || (leb (low + 11) n && leb n high))
        ≡ (leb low n && leb n high)
  in_chunk n low high h = ground arith

  chunk_bound : (low high : ℕ) → (if ltb 10 (high - low) then low + 10 else high) ≤ low + 10
  chunk_bound low high = ground arith

  chunk_next :
      (fuel high low : ℕ) (s : S)
      → leb low high ≡ true
      → (low + 11) % 2 ^ 64 ≡ low + 11
      → chunk_each f (suc fuel) high low s
        ≡ chunk_each f fuel high
            (low + 11)
            (f low (if ltb 10 (high - low) then low + 10 else high) s)
  unfolding chunk_each
  chunk_next fuel high low s m w = rw (chunk_each, m, w) refl

  -- The loop of updateCallbackInternal asks for what is left in ranges of 11 numbers at most, which
  -- have exactly the numbers from `low` to `high`, and ends, where `high` is at least 11 below 2 ^ 64.
  pub chunk_each-covers :
      (fuel low high : ℕ) (s : S)
      → high + 11 < 2 ^ 64
      → high < low + fuel
      → (rs : List (ℕ × ℕ)) × (chunk_each f (suc fuel) high low s ≡ some (call_each f rs s))
        × ((n : ℕ) → is_covered n rs ≡ (leb low n && leb n high))
        × All (λ r. r.1 ≤ r.0 + 10) rs
  unfolding chunk_each
  chunk_each-covers zero low high s w b =
      let over : leb low high ≡ false = ground arith in
      ([], rw (chunk_each, over) refl, λ n. ground arith, tt)
  chunk_each-covers (suc fuel) low high s w b = elim (Bool-cases (leb low high)) [
    | inr over ↦ ([], rw (chunk_each, over) refl, λ n. ground arith, tt)
    | inl more ↦
        let h = leb→le low high more in
        let next : (low + 11) % 2 ^ 64 ≡ low + 11 = omega arith in
        let last = if ltb 10 (high - low) then low + 10 else high in
        let rest = chunk_each-covers fuel (low + 11) high (f low last s) w (omega arith) in
        (
          (low, last) ∷ rest.0,
          chunk_next (suc fuel) high low s more next ∙ rest.1,
          λ n. ap (λ c. leb low n && leb n last || c) (rest.2 n) ∙ in_chunk n low high h,
          (chunk_bound low high, rest.3),
        )
  ]
