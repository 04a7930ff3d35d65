-- ===== src/PubSub/Assembled.antt =====
-- The order in which the segments come does not matter.
use mathlib.Core.List.{Permᴰ}
use mathlib.Core.List.Permᴰ
use ndn_svs.Base.{
  ℕ, ◌≡◌, refl, sym, ap, ◌∙◌, subst, arith, false, Option, none, some, List, [], ◌∷◌, Ord, nat_ord,
  ◌==◌, ==_self, Result, ok, err, ◌>>=◌, bind-ok,
}
use ndn_svs.Base.OrdMap.{OrdMap, find, insert, IsSorted}
use ndn_svs.Base.OrdMap.Laws.{find-insert, insert-IsSorted, insert_comm}
use ndn_svs.Packets.{Packets, Markers}
use ndn_svs.PubSub.Assembly.{
  InnerSegment, Collected, differs, decode_segment, add_segment, collect_segments, assemble,
  decode_inner_segments, to_optional,
}

module _ {Component Data : Type 0} ⦃o : Ord (List Component)⦄ where
  abbrev pub added :
      InnerSegment Component Data → Collected Component Data → Collected Component Data
  added s c = record {
    segments = insert s.segment_no s.inner c.segments;
    expected_final = some s.final_segment;
    base_name = some s.base_name;
  }

  abbrev pub nothing_collected : Collected Component Data
  nothing_collected = record { segments = []; expected_final = none; base_name = none }

  -- the segment belongs to what was collected, and is new
  abbrev pub Fits : InnerSegment Component Data → Collected Component Data → Type 0
  Fits s c =
      (differs c.base_name s.base_name ≡ false)
      × (differs c.expected_final s.final_segment ≡ false)
      × (find s.segment_no c.segments ≡ none)

module _ {Component Data : Type 0} ⦃o : Ord (List Component)⦄ (pk : Packets Component Data)
    (mk : Markers Component) where
  pub Fits-add_segment :
      (s : InnerSegment Component Data) (c : Collected Component Data)
      → Fits s c
      → add_segment pk mk s c ≡ ok (added s c)
  unfolding add_segment
  Fits-add_segment s c f = rw (f.0, f.1, f.2) refl

  add_segment-Fits :
      (s : InnerSegment Component Data) (c c' : Collected Component Data)
      → add_segment pk mk s c ≡ ok c'
      → Fits s c × (c' ≡ added s c)
  unfolding add_segment
  add_segment-Fits s c c' h = ground arith

  differs_seen :
      {K : Type 0} ⦃k : Ord K⦄ (seen : Option K) (a b : K)
      → differs seen a ≡ false
      → differs (some a) b ≡ false
      → (a ≡ b) × (differs seen b ≡ false) × (differs (some b) a ≡ false)
  differs_seen ⦃k⦄ seen a b h d =
      let same : a ≡ b = k.cmp_eq a b (ground arith) in
      (
        same,
        subst (λ b. differs seen b ≡ false) same h,
        subst (λ b. differs (some b) a ≡ false) same (rw (==_self a) refl),
      )

  unseen :
      (s t : ℕ) (x : Data) (m : OrdMap ℕ Data)
      → find t (insert s x m) ≡ none
      → (find t m ≡ none) × ((s == t) ≡ false)
  unseen s t x m h = ground (arith, find-insert s t x m)

  still_none :
      (s t : ℕ) (x : Data) (m : OrdMap ℕ Data)
      → find s m ≡ none
      → (s == t) ≡ false
      → find s (insert t x m) ≡ none
  still_none s t x m h k = find-insert t s x m ∙ rw (k, h) refl

  swapped :
      (s t : InnerSegment Component Data) (c : Collected Component Data)
      → IsSorted c.segments
      → Fits s c
      → Fits t (added s c)
      → Fits t c × Fits s (added t c) × (added s (added t c) ≡ added t (added s c))
  swapped s t c sorted f g =
      let b = differs_seen c.base_name s.base_name t.base_name f.0 g.0 in
      let n = differs_seen c.expected_final s.final_segment t.final_segment f.1 g.1 in
      let u = unseen s.segment_no t.segment_no s.inner c.segments g.2 in
      (
        (b.1, n.1, u.0),
        (b.2, n.2, still_none s.segment_no t.segment_no t.inner c.segments f.2 u.1),
        cc (insert_comm s.segment_no t.segment_no s.inner t.inner c.segments sorted u.1, b.0, n.0),
      )

  collect_segments-step :
      (b : List ℕ) (bs : List (List ℕ)) (c c' : Collected Component Data)
      → collect_segments pk mk (b ∷ bs) c ≡ ok c'
      → (s : InnerSegment Component Data) × (decode_segment pk mk b ≡ ok s)
        × Fits s c
        × (collect_segments pk mk bs (added s c) ≡ ok c')
  unfolding collect_segments
  collect_segments-step b bs c c' h =
      let d = bind-ok (decode_segment pk mk b) _ c' h in
      let a = bind-ok (add_segment pk mk d.0 c) (collect_segments pk mk bs) c' d.2 in
      let f = add_segment-Fits d.0 c a.0 a.1 in (d.0, d.1, f.0, cc (a.2, f.1))

  pub collect_segments-takes :
      (b : List ℕ) (bs : List (List ℕ)) (c : Collected Component Data)
      (s : InnerSegment Component Data)
      → decode_segment pk mk b ≡ ok s
      → Fits s c
      → collect_segments pk mk (b ∷ bs) c ≡ collect_segments pk mk bs (added s c)
  unfolding collect_segments
  collect_segments-takes b bs c s d f = rw (d, Fits-add_segment s c f) refl

  collect_segments-order :
      (xs ys : List (List ℕ)) (c c' : Collected Component Data)
      → Permᴰ xs ys
      → IsSorted c.segments
      → collect_segments pk mk xs c ≡ ok c'
      → collect_segments pk mk ys c ≡ ok c'
  collect_segments-order xs ys c c' Permᴰ.nil sorted h = h
  collect_segments-order (a ∷ xs) (b ∷ ys) c c' (Permᴰ.cons e p) sorted h =
      let q = collect_segments-step a xs c c' h in
      collect_segments-takes b ys c q.0 (subst (λ b. decode_segment pk mk b ≡ ok q.0) e q.1) q.2
      ∙ collect_segments-order xs ys (added q.0 c) c' p
          (insert-IsSorted q.0.segment_no q.0.inner c.segments sorted) q.3
  collect_segments-order (a ∷ b ∷ l) (a' ∷ b' ∷ k) c c' (Permᴰ.swap e f) sorted h =
      let q = collect_segments-step a (b ∷ l) c c' h in
      let r = collect_segments-step b l (added q.0 c) c' q.3 in
      let s = swapped q.0 r.0 c sorted q.2 r.2 in
      collect_segments-takes a' (b' ∷ l) c r.0 (subst (λ b. decode_segment pk mk b ≡ ok r.0) f r.1)
        s.0
      ∙ collect_segments-takes b' l (added r.0 c) q.0
          (subst (λ b. decode_segment pk mk b ≡ ok q.0) e q.1) s.1
      ∙ ap (collect_segments pk mk l) s.2
      ∙ r.3
  collect_segments-order xs zs c c' (Permᴰ.trans {l₂ = ys} p q) sorted h =
      collect_segments-order ys zs c c' q sorted (collect_segments-order xs ys c c' p sorted h)

  pub decoded :
      (xs : List (List ℕ))
      → decode_inner_segments pk mk xs
        ≡ to_optional (collect_segments pk mk xs nothing_collected >>= assemble pk mk)
  unfolding decode_inner_segments
  decoded xs = refl

  same_outcome :
      (xs ys : List (List ℕ))
      → Permᴰ xs ys
      → (r q : Result (Collected Component Data)) → collect_segments pk mk xs nothing_collected ≡ r
      → collect_segments pk mk ys nothing_collected ≡ q
      → to_optional (r >>= assemble pk mk) ≡ to_optional (q >>= assemble pk mk)
  same_outcome xs ys p (ok c) q h k =
      let same : ok c ≡ q = sym (collect_segments-order xs ys nothing_collected c p tt h) ∙ k in
      ap (λ q. to_optional (q >>= assemble pk mk)) same
  same_outcome xs ys p (err e) (ok c) h k =
      cc (collect_segments-order ys xs nothing_collected c (Permᴰ.symm p) tt k)
  same_outcome xs ys p (err e) (err f) h k = refl

  -- Segments that come in another order are put together to the same publication, or to none in
  -- both orders.
  pub decode_inner_segments-order :
      (xs ys : List (List ℕ))
      → Permᴰ xs ys
      → decode_inner_segments pk mk xs ≡ decode_inner_segments pk mk ys
  decode_inner_segments-order xs ys p =
      decoded xs
      ∙ same_outcome xs ys p (collect_segments pk mk xs nothing_collected)
          (collect_segments pk mk ys nothing_collected) refl refl
      ∙ sym (decoded ys)
