-- ===== src/Cloud/Validators/Placement.antt =====
-- `ComputePlacementValidator` of src/domain/cloud/validators.py. The function `ip_address` of the
-- standard library, which reads an address from its text, is a parameter: nothing for a text that is
-- no address.
use topo_forge_ai.Issues.{error}
use topo_forge_ai.Cloud.Validators.{report_if, issue}
use topo_forge_ai.Issues.{ValidationIssue}
use topo_forge_ai.Cloud.{CloudArchitecture}
use topo_forge_ai.Cloud.Resources.{Infrastructure, ComputeInstance, Subnet, NetworkInterfaceSpec}
use topo_forge_ai.Network.{
  SubnetSpec, Version, contains_address, same_version, v4, broadcast_address,
}
use topo_forge_ai.Prelude.{
  some, none, [], false, ◌∷◌, String, List, Option, Bool, if◌then◌else◌, find_last, lookup, ℕ, not,
  ◌==◌, ◌++◌, ◌&&◌, ◌||◌, any, is_some, String-Eq, nonempty, leb, ◌-◌, ℕ-Eq,
}

abbrev pub Parser : Type 0
Parser = String → Option (Version × ℕ)

-- `subnets.get(nic.subnet_id)`
abbrev pub subnet_by_id : Infrastructure → String → Option Subnet
subnet_by_id i id = find_last (λ s. s.resource.id == id) i.subnets

-- The dictionary from addresses to the instances that have them, the last entry first.
abbrev pub Seen : Type 0
Seen = List (String × String)

abbrev pub forwarder_issue : ComputeInstance → List ValidationIssue
forwarder_issue c = report_if (c.is_forwarder && any (λ n. n.source_dest_check) c.interfaces) (
    issue "ComputePlacementValidator" "forwarder_with_source_dest_check" error (c.resource.id ∷ [])
      none)

module _ (ip_address : Parser) where
  -- `subnet.cidr.contains(address)`
  unfoldable pub contains_text : SubnetSpec → String → Bool
  contains_text s address = elim (ip_address address) [
    | none ↦ false
    | some (v, a) ↦ contains_address s v a
  ]

  -- `_is_aws_reserved`
  unfoldable pub is_aws_reserved : String → SubnetSpec → Bool
  is_aws_reserved address s = elim (ip_address address) [
    | none ↦ false
    | some (v, a) ↦
        if not (contains_address s v a) || not (same_version s.version v4)
        then false
        else leb (a - s.network_address) 3 || a == broadcast_address s
  ]

  -- What is reported for an address in its subnet.
  unfoldable pub check_address : Seen → ComputeInstance → Subnet → String → List ValidationIssue
  unfolding is_aws_reserved
  check_address seen c s ip =
      elim (lookup ip seen) [
        | none ↦ []
        | some previous ↦ report_if (not (previous == c.resource.id)) (
            issue "ComputePlacementValidator" "duplicate_address" error
              (previous ∷ c.resource.id ∷ []) none)
      ]
      ++ report_if (is_aws_reserved ip s.cidr) (
          issue "ComputePlacementValidator" "aws_reserved_address" error (c.resource.id ∷ [])
            (some "re-address the interface or widen the subnet"))

  -- The loop over the interfaces of an instance, with the addresses that were seen.
  unfoldable pub check_nics :
      Infrastructure
      → ComputeInstance
      → List NetworkInterfaceSpec
      → Seen
      → List ValidationIssue × Seen
  unfolding check_address contains_text
  check_nics i c [] seen = ([], seen)
  check_nics i c (n ∷ rest) seen =
      let skip = check_nics i c rest seen in
      elim (subnet_by_id i n.subnet_id) [
        | none ↦ skip
        | some s ↦ elim n.private_ip [
          | none ↦ skip
          | some ip ↦
              let after = check_nics i c rest ((ip, c.resource.id) ∷ seen) in
              if contains_text s.cidr ip then (check_address seen c s ip ++ after.0, after.1) else (
                issue "ComputePlacementValidator" "address_outside_subnet" error
                      (c.resource.id ∷ s.resource.id ∷ []) none
                    ∷ skip.0,
                skip.1,
              )
        ]
      ]

  -- The loop over the instances.
  unfoldable pub check_instances :
      Infrastructure → List ComputeInstance → Seen → List ValidationIssue
  unfolding check_nics
  check_instances i [] seen = []
  check_instances i (c ∷ rest) seen =
      let unplaced =
        issue "ComputePlacementValidator" "compute_not_placed" error (c.resource.id ∷ []) none
        ∷ check_instances i rest seen in
      let checked = check_nics i c c.interfaces seen in
      let placed = checked.0 ++ (forwarder_issue c ++ check_instances i rest checked.1) in
      if not (is_some c.subnet_id) && not (nonempty c.interfaces) then unplaced else placed

  unfoldable pub validate_placement : CloudArchitecture → List ValidationIssue
  unfolding check_instances
  validate_placement a = check_instances a.infrastructure a.infrastructure.compute []
