-- ===== src/Assembler/Routes.antt =====
-- `_route_tables` of src/infrastructure/rag/cloud_assembler.py: a route table for each network that
-- has subnets.
pub mod Anchored
pub mod Targets
pub mod Served
use topo_forge_ai.Assembler.Networks.{named_resource}
use topo_forge_ai.Assembler.Gateways.{carries_transport, subnets_in}
use topo_forge_ai.Cloud.Resources.{
  GatewayType, Route, Gateway, VirtualNetwork, Subnet, RouteTable, route_table_kind,
}
use topo_forge_ai.Network.{SubnetSpec, v4}
use topo_forge_ai.Prelude.{
  some, none, [], true, false, ◌∷◌, String, List, Bool, find, if◌then◌else◌, ◌==◌, ◌&&◌, concat_map,
  String-Eq, contains, ◌<>◌, ◌++◌, map, nonempty, Option,
}

-- `SubnetSpec(cidr="0.0.0.0/0")`
abbrev pub default_route : SubnetSpec
default_route = record { version = v4; network_address = 0; prefix_length = 0 }

abbrev pub route_to : SubnetSpec → String → Route
route_to destination target_ref = record {
  destination = destination;
  target_ref = target_ref;
  target_kind = "gateway";
  description = none;
}

abbrev pub is_at : String → Gateway → Bool
is_at network_id g = elim g.network_id [ none ↦ false | some id ↦ id == network_id ]

abbrev pub is_internet_at : String → Gateway → Bool
is_internet_at network_id g = elim g.type [ GatewayType.internet ↦ is_at network_id g | _ ↦ false ]

abbrev pub is_nat_at : String → Gateway → Bool
is_nat_at network_id g = elim g.type [ GatewayType.nat ↦ is_at network_id g | _ ↦ false ]

-- The way to the internet: through the internet gateway, or else through the NAT gateway.
abbrev pub default_through : Option Gateway → Option Gateway → List Route
default_through (some internet) nat = route_to default_route internet.resource.id ∷ []
default_through none (some nat) = route_to default_route nat.resource.id ∷ []
default_through none none = []

unfoldable pub default_routes : List Gateway → String → List Route
default_routes gateways network_id =
    default_through (find (is_internet_at network_id) gateways)
      (find (is_nat_at network_id) gateways)

-- The loop over the networks that a gateway links.
unfoldable pub peer_routes : List VirtualNetwork → String → Gateway → List String → List Route
peer_routes networks network_id g [] = []
peer_routes networks network_id g (peer_id ∷ rest) =
    let later = peer_routes networks network_id g rest in
    if peer_id == network_id then later else elim (find (λ n. n.resource.id == peer_id) networks) [
      | none ↦ later
      | some peer ↦ route_to peer.cidr g.resource.id ∷ later
    ]

unfoldable pub gateway_routes : List VirtualNetwork → String → Gateway → List Route
unfolding peer_routes
gateway_routes networks network_id g =
    if carries_transport g && contains g.peer_network_ids network_id
    then peer_routes networks network_id g g.peer_network_ids
    else []

-- One round of the loop over the networks.
unfoldable pub table_for :
    List VirtualNetwork → List Subnet → List Gateway → VirtualNetwork → List RouteTable
unfolding default_routes gateway_routes
table_for networks subnets gateways n =
    let inside = subnets_in subnets n.resource.id in
    let table : RouteTable = record {
      resource =
          named_resource ("rt-" <> n.resource.id) route_table_kind
            (n.resource.logical_name <> "-rt") (some "aws_route_table") n.resource.source_node_ids;
      network_id = n.resource.id;
      routes =
          default_routes gateways n.resource.id
          ++ concat_map (gateway_routes networks n.resource.id) gateways;
      associated_subnet_ids = map (λ s. s.resource.id) inside;
      is_main = true;
    } in
    if nonempty inside then table ∷ [] else []

unfoldable pub route_tables : List VirtualNetwork → List Subnet → List Gateway → List RouteTable
unfolding table_for
route_tables networks subnets gateways = concat_map (table_for networks subnets gateways) networks
