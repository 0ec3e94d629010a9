-- ===== src/Assembler/Supernet.antt =====
-- `_covering_supernet` of src/infrastructure/rag/cloud_assembler.py: the range of a virtual network
-- from the subnets that it must hold.
pub mod Wider
pub mod Least
pub mod Covering
use topo_forge_ai.Network.{canonical, SubnetSpec, same_version, is_subnet_of, v4, same_cidr}
use topo_forge_ai.Prelude.{
  some, none, [], zero, suc, ◌∷◌, List, ◌-◌, ℕ, Bool, Option, if◌then◌else◌, filter, ◌||◌,
}

-- `current.supernet()`
unfoldable pub supernet : SubnetSpec → SubnetSpec
unfolding canonical
supernet s = canonical s.version s.network_address (s.prefix_length - 1)

-- The loop for one network. It is entered with the prefix length as its fuel and stops at the prefix
-- 0, so the two stay equal.
unfoldable pub widen : SubnetSpec → ℕ → SubnetSpec → SubnetSpec
unfolding supernet
widen network zero current = current
widen network (suc fuel) current =
    let wider = widen network fuel (supernet current) in
    if is_subnet_of network current || same_cidr network current then current else wider

-- The loop over the networks.
unfoldable pub widen_all : SubnetSpec → List SubnetSpec → SubnetSpec
unfolding widen
widen_all current [] = current
widen_all current (network ∷ rest) = widen_all (widen network current.prefix_length current) rest

abbrev pub is_v4 : SubnetSpec → Bool
is_v4 s = same_version s.version v4

-- What follows the selection of the IPv4 networks.
abbrev pub cover : List SubnetSpec → Option SubnetSpec
cover [] = none
cover (first ∷ rest) = some (widen_all first rest)

unfoldable pub covering_supernet : List SubnetSpec → Option SubnetSpec
covering_supernet subnets = cover (filter is_v4 subnets)
