-- ===== src/Cloud/Validators/Subnets.antt =====
-- `SubnetValidator` of src/domain/cloud/validators.py.
use topo_forge_ai.Issues.{error}
use topo_forge_ai.Network.{is_subnet_of, overlaps, usable_host_count}
use topo_forge_ai.Cloud.Validators.{report_if, issue}
use topo_forge_ai.Issues.{ValidationIssue, warning}
use topo_forge_ai.Cloud.{CloudArchitecture}
use topo_forge_ai.Cloud.Resources.{Subnet, Infrastructure, VirtualNetwork}
use topo_forge_ai.Prelude.{
  some, none, [], ◌∷◌, List, Option, String, Bool, find_last, concat_map, filter, ◌==◌, not, ◌++◌,
  ◌||◌, dedup, String-Eq, any, map, ltb,
}

abbrev pub is_inside : Subnet → VirtualNetwork → Bool
is_inside s n = is_subnet_of s.cidr n.cidr || any (is_subnet_of s.cidr) n.secondary_cidrs

-- `networks.get(subnet.network_id)`
abbrev pub network_of : Infrastructure → Subnet → Option VirtualNetwork
network_of i s = find_last (λ n. n.resource.id == s.network_id) i.networks

unfoldable pub check_fit : Infrastructure → Subnet → List ValidationIssue
check_fit i s = elim (network_of i s) [
  | none ↦ []
  | some n ↦
      report_if (not (is_inside s n)) (
        issue "SubnetValidator" "subnet_outside_network" error (s.resource.id ∷ n.resource.id ∷ [])
          (some "widen the VPC CIDR or re-address the subnet"))
      ++ report_if (ltb (usable_host_count s.cidr) 2)
          (issue "SubnetValidator" "subnet_too_small" warning (s.resource.id ∷ []) none)
]

abbrev pub overlap_issue : Subnet → Subnet → List ValidationIssue
overlap_issue first second = report_if (overlaps first.cidr second.cidr) (
    issue "SubnetValidator" "overlapping_subnets" error
      (first.resource.id ∷ second.resource.id ∷ []) none)

-- Each subnet with each that stands behind it.
unfoldable pub check_overlaps : List Subnet → List ValidationIssue
check_overlaps [] = []
check_overlaps (first ∷ rest) = concat_map (overlap_issue first) rest ++ check_overlaps rest

-- `by_network[network_id]`
abbrev pub group_of : List Subnet → String → List Subnet
group_of subnets network_id = filter (λ s. s.network_id == network_id) subnets

unfoldable pub validate_subnets : CloudArchitecture → List ValidationIssue
unfolding check_fit check_overlaps
validate_subnets a =
    let subnets = a.infrastructure.subnets in
    concat_map (check_fit a.infrastructure) subnets
    ++ concat_map (λ n. check_overlaps (group_of subnets n))
        (dedup (map (λ s. s.network_id) subnets))
