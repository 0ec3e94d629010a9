-- ===== src/Cloud/Validators/Routes.antt =====
-- `RouteTableValidator` of src/domain/cloud/validators.py.
use topo_forge_ai.Issues.{error}
use topo_forge_ai.Network.{SubnetSpec, SubnetSpec-Eq}
use topo_forge_ai.Cloud.Validators.{report_if, issue}
use topo_forge_ai.Issues.{ValidationIssue, warning}
use topo_forge_ai.Cloud.{CloudArchitecture}
use topo_forge_ai.Cloud.Resources.{
  GatewayType, Gateway, RouteTable, Subnet, nat, peering, all_resources, Route,
}
use topo_forge_ai.Prelude.{
  some, none, [], true, false, ◌∷◌, List, String, Bool, map, not, ◌&&◌, contains, is_some,
  concat_map, ◌++◌, length, String-Eq, ◌==◌, ℕ-Eq,
}

-- The loop over the routes of a table, with the destinations that were seen.
unfoldable pub check_routes :
    List String → RouteTable → List SubnetSpec → List Route → List ValidationIssue
check_routes ids t seen [] = []
check_routes ids t seen (r ∷ rest) =
    report_if (not (contains ids r.target_ref))
      (issue "RouteTableValidator" "route_target_missing" error (t.resource.id ∷ []) none)
    ++ (report_if (contains seen r.destination) (
          issue "RouteTableValidator" "duplicate_route_destination" error (t.resource.id ∷ []) none)
        ++ check_routes ids t (r.destination ∷ seen) rest)

abbrev pub unrouted_issue : List String → Subnet → List ValidationIssue
unrouted_issue associated s =
    report_if (not (contains associated s.resource.id))
      (issue "RouteTableValidator" "subnet_without_route_table" warning (s.resource.id ∷ []) none)

abbrev pub is_nat : GatewayType → Bool
is_nat nat = true
is_nat _ = false

abbrev pub is_peering : GatewayType → Bool
is_peering peering = true
is_peering _ = false

unfoldable pub check_gateway : Gateway → List ValidationIssue
check_gateway g =
    report_if (is_nat g.type && not (is_some g.subnet_id))
      (issue "RouteTableValidator" "nat_gateway_without_subnet" error (g.resource.id ∷ []) none)
    ++ report_if (is_peering g.type && not (length g.peer_network_ids == 2)) (
        issue "RouteTableValidator" "peering_arity" error (g.resource.id ∷ [])
          (some "use a transit gateway for three or more domains"))

unfoldable pub validate_routes : CloudArchitecture → List ValidationIssue
unfolding check_routes check_gateway
validate_routes a =
    let i = a.infrastructure in
    let ids = map (λ r. r.id) (all_resources i) in
    let associated = concat_map (λ t. t.associated_subnet_ids) i.route_tables in
    concat_map (λ t. check_routes ids t [] t.routes) i.route_tables
    ++ (concat_map (unrouted_issue associated) i.subnets ++ concat_map check_gateway i.gateways)
