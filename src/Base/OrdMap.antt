-- ===== src/Base/OrdMap.antt =====
-- `std::map`: an association list in the order of its keys.
pub mod Laws
use Prim.Native.Nat.{ℕ, Ordering}
use Prim.Native.Nat.Ordering.{lt, eq, gt}
use mathlib.Core.Path.{◌≡◌}
use mathlib.Core.Bool.{Bool, true, false}
use mathlib.Core.Option.{Option, none, some}
use mathlib.Core.List.{List, [], ◌∷◌}
use ndn_svs.Base.Tests.{Ord}
use ndn_svs.Base.Lists.{All}

abbrev pub OrdMap {ℓ κ} : Type ℓ → Type κ → Type (ℓ ⊔ κ)
OrdMap K V = List (K × V)

module _ {ℓ κ} {K : Type ℓ} {V : Type κ} ⦃o : Ord K⦄ where
  -- `m.find(q)`, and `m.at(q)`, which throws where this is `none`
  unfoldable pub find : K → OrdMap K V → Option V
  find q [] = none
  find q ((k, v) ∷ m) = elim (o.cmp q k) [ lt ↦ none | eq ↦ some v | gt ↦ find q m ]

  -- `m[q] = w`
  unfoldable pub insert : K → V → OrdMap K V → OrdMap K V
  insert q w [] = (q, w) ∷ []
  insert q w ((k, v) ∷ m) = elim (o.cmp q k) [
    | lt ↦ (q, w) ∷ (k, v) ∷ m
    | eq ↦ (q, w) ∷ m
    | gt ↦ (k, v) ∷ insert q w m
  ]

  -- `m.erase(q)`
  unfoldable pub erase : K → OrdMap K V → OrdMap K V
  erase q [] = []
  erase q ((k, v) ∷ m) = elim (o.cmp q k) [ lt ↦ (k, v) ∷ m | eq ↦ m | gt ↦ (k, v) ∷ erase q m ]

  -- every key comes after `q`
  abbrev pub Above : K → OrdMap K V → Type 0
  Above q m = All (λ e. o.cmp q e.0 ≡ lt) m

  abbrev pub IsSorted : OrdMap K V → Type 0
  IsSorted [] = Unit
  IsSorted ((k, v) ∷ m) = Above k m × IsSorted m

-- a value that is missing reads as `d`
abbrev pub or_default {ℓ} : {V : Type ℓ} → V → Option V → V
or_default d none = d
or_default d (some v) = v
