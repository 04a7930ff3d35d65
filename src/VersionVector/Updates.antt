-- ===== src/VersionVector/Updates.antt =====
-- What `set` does to a vector.
use ndn_svs.Base.{
  ℕ, false, ◌≤◌, ◌<◌, ◌≡◌, ◌&&◌, Ord, nat_ord, ◌==◌, if◌then◌else◌, ok, Error, arith, Ensures-ok,
  Ensures-throw_if,
}
use ndn_svs.VersionVector.{VersionVector, set, store, get, get_latest}
use ndn_svs.VersionVector.Invariant.{IsValid, get-store, store-IsValid}
use ndn_svs.VersionVector.Equality.{get-le-get_latest}

nonzero : (s : ℕ) → (s == 0) ≡ false → 0 < s
nonzero s h = ground arith

module _ {Node : Type 0} ⦃o : Ord Node⦄ where
  -- A vector after `set`: valid, with the new number at its entry and every other entry as before.
  pub record IsUpdated (nid : Node) (b s : ℕ) (v w : VersionVector Node) : Type 0 where
    pub valid : IsValid w
    pub values : (n : Node) (c : ℕ) → get w n c ≡ (if n == nid && c == b then s else get v n c)

  -- On a valid vector `set`, where it does not throw, leaves a valid vector, writes its own entry and
  -- leaves every other entry as it was.
  pub set-IsUpdated :
      (now : ℕ) (nid : Node) (b s : ℕ) (v w : VersionVector Node)
      → IsValid v
      → set now nid b s v ≡ ok w
      → IsUpdated nid b s v w
  unfolding set
  set-IsUpdated now nid b s v w valid = Ensures-ok (IsUpdated nid b s v) (set now nid b s v) w (
      Ensures-throw_if (IsUpdated nid b s v) (s == 0) Error.invalid_argument
        (ok (store now nid b s v))
        λ h. record {
          valid = store-IsValid now nid b s v (nonzero s h) valid;
          values = get-store now nid b s v;
        })

  -- After `set` on a valid vector, the latest number of a node, as `refreshLatest` keeps it, is not
  -- below the number of any of its sessions.
  pub set-get_latest :
      (now : ℕ) (nid : Node) (b s : ℕ) (v w : VersionVector Node) (n : Node) (c : ℕ)
      → IsValid v
      → set now nid b s v ≡ ok w
      → get w n c ≤ get_latest w n
  set-get_latest now nid b s v w n c valid e =
      get-le-get_latest w n c (set-IsUpdated now nid b s v w valid e).valid
