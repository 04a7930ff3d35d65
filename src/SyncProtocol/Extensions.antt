-- ===== src/SyncProtocol/Extensions.antt =====
-- The extension blocks behind a state vector, as `encode` and `decode` check them, and the two checks
-- compared.
use ndn_svs.Base.{
  ℕ, suc, ◌+◌, ◌≡◌, ◌≤◌, refl, ◌∙◌, Bool, true, false, ◌&&◌, List, [], ◌∷◌, ◌++◌, length,
  length-append, ltb, leb, nat_ord, Result, ok, err, Error, throw_if, ◌>>◌, arith,
}
use mathlib.Core.List.{append_assoc, append-nil}
use ndn_svs.Tlv.{Tlv}
use ndn_svs.SyncProtocol.{contains, is_known, is_core, remember, max_extension_blocks}

plus_one : (m n : ℕ) → m + 1 + n ≡ m + suc n
plus_one m n = omega arith

zero_plus : (n : ℕ) → 0 + n ≡ n
zero_plus n = omega arith

module _ {Node Block : Type 0} (t : Tlv Node Block) where
  -- the loop of `encode`
  unfoldable pub check_each : List ℕ → List Block → Result (Unit {0})
  unfolding contains
  check_each known [] = ok tt
  check_each known (x ∷ xs) = do
    throw_if (is_known (t.type x) && contains (t.type x) known) Error.codec_error
    throw_if (is_core (t.type x)) Error.codec_error
    check_each (remember (t.type x) known) xs

  unfoldable pub check_extensions : List Block → Result (Unit {0})
  unfolding check_each
  check_extensions extensions = do
    throw_if (ltb max_extension_blocks (length extensions)) Error.codec_error
    check_each [] extensions

  -- the loops of `decode`
  unfoldable pub collect : List ℕ → List Block → List Block → Result (List Block)
  unfolding contains
  collect known extensions [] = ok extensions
  collect known extensions (x ∷ xs) = do
    throw_if (leb max_extension_blocks (length extensions)) Error.codec_error
    throw_if (is_core (t.type x)) Error.codec_error
    throw_if (is_known (t.type x) && contains (t.type x) known) Error.codec_error
    collect (remember (t.type x) known) (extensions ++ x ∷ []) xs

  refused_anyway :
      (full : Bool) (es : List Block)
      → err Error.codec_error ≡ (
          throw_if full Error.codec_error
          >> (let k : Result (Unit {0}) = err Error.codec_error in k)
          >> ok es)
  refused_anyway true es = refl
  refused_anyway false es = refl

  -- A guard that holds when another does, behind which two computations agree.
  guards :
      (full_here full b c : Bool) (rest : Result (List Block)) (k : Result (Unit {0}))
      (es : List Block)
      → (full_here ≡ true → full ≡ true)
      → (full_here ≡ false → rest ≡ (throw_if full Error.codec_error >> k >> ok es))
      → (throw_if full_here Error.codec_error
          >> (throw_if b Error.codec_error >> (throw_if c Error.codec_error >> rest)))
        ≡ (throw_if full Error.codec_error
            >> (throw_if c Error.codec_error >> (throw_if b Error.codec_error >> k))
            >> ok es)
  guards true full b c rest k es h g = rw (h refl) refl
  guards false full true true rest k es h g = refused_anyway full es
  guards false full true false rest k es h g = refused_anyway full es
  guards false full false true rest k es h g = refused_anyway full es
  guards false full false false rest k es h g = g refl

  collect-check_each :
      (known : List ℕ) (es xs : List Block)
      → length es ≤ max_extension_blocks
      → collect known es xs ≡ (
          throw_if (ltb max_extension_blocks (length es + length xs)) Error.codec_error
          >> check_each known xs
          >> ok (es ++ xs))
  unfolding collect check_each
  collect-check_each known es [] h = ground (arith, append-nil es)
  collect-check_each known es (x ∷ xs) h =
      guards (leb max_extension_blocks (length es))
        (ltb max_extension_blocks (length es + length (x ∷ xs))) (is_core (t.type x))
        (is_known (t.type x) && contains (t.type x) known)
        (collect (remember (t.type x) known) (es ++ x ∷ []) xs)
        (check_each (remember (t.type x) known) xs) (es ++ x ∷ xs) (λ a. ground arith)
        (λ a.
          let longer = length-append es (x ∷ []) in
          collect-check_each (remember (t.type x) known) (es ++ x ∷ []) xs (ground arith)
          ∙ rw (longer, append_assoc es (x ∷ []) xs, plus_one (length es) (length xs)) refl)

  -- The two loops accept the same extensions, whichever order their tests come in: what `decode`
  -- collects is what `encode` checks.
  pub collect-check_extensions :
      (xs : List Block) → collect [] [] xs ≡ (check_extensions xs >> ok xs)
  unfolding check_extensions
  collect-check_extensions xs =
      collect-check_each [] [] xs (omega arith) ∙ rw (zero_plus (length xs)) refl
