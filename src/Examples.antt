-- ===== src/Examples.antt =====
-- Small vectors, packets and cores, on which the theorems are applied.
pub mod Blocks
mod Vectors
mod Packets
mod Cores
pub mod Mappings
mod Extras
mod Fetches
pub mod Publications
pub mod Segments
pub mod Commits
mod Clients
use ndn_svs.Base.{ℕ, nat_ord, arith, refl}
use ndn_svs.Base.OrdMap.{find, insert}
use ndn_svs.VersionVector.{
  VersionVector, empty, store, get_entries, refresh_latest, is_bootstrap_time_too_far_in_future,
}
use ndn_svs.VersionVector.Codec.RoundTrip.{IsEncodable}
use ndn_svs.VersionVector.Invariant.{IsValid, store-IsValid}
use ndn_svs.VersionVector.Codec.Decoded.{empty-IsValid}

-- node 1 at number 3 of its session 7
abbrev pub one : VersionVector ℕ
one = store 5 1 7 3 empty

-- node 1 at number 2 of session 7 and 5 of session 8, node 2 at number 1 of session 9
abbrev pub two : VersionVector ℕ
two = store 5 2 9 1 (store 5 1 8 5 (store 5 1 7 2 empty))

pub one-IsValid : IsValid one
one-IsValid = store-IsValid 5 1 7 3 empty (omega arith) empty-IsValid

pub two-IsValid : IsValid two
two-IsValid = store-IsValid 5 2 9 1 _ (omega arith) (
    store-IsValid 5 1 8 5 _ (omega arith) (store-IsValid 5 1 7 2 empty (omega arith) empty-IsValid))

pub one-IsEncodable : IsEncodable 5 one
unfolding store get_entries refresh_latest find insert is_bootstrap_time_too_far_in_future
one-IsEncodable = (((omega arith, omega arith, omega arith, refl), tt), tt)
