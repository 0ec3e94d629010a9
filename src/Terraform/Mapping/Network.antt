-- ===== src/Terraform/Mapping/Network.antt =====
-- src/infrastructure/generators/terraform/mappings/aws.py: networks, subnets and route tables. The
-- text of an address range is a parameter.
use topo_forge_ai.Generation.{high, medium}
use topo_forge_ai.Network.{SubnetSpec}
use topo_forge_ai.Terraform.Hcl.{
  HclValue, Block, set_all, quoted, flag, raw, new_block, assign, add_all, set,
}
use topo_forge_ai.Prelude.{
  ◌<>◌, some, none, [], suc, ◌∷◌, String, ℕ, List, lookup, ◌%◌, if◌then◌else◌, String-Eq, ◌==◌,
  Option,
}
use topo_forge_ai.Terraform.Mapping.{
  MappingContext, Emission, number_text, terraform_identifier, reference, base_tags, emit_warning,
  provenance, text_if, emit_blocks, emit_each, own, tags_value, ◌then_emit◌, on_reference,
}
use topo_forge_ai.Cloud.Resources.{
  VirtualNetwork, Subnet, RouteTable, Route, subnets_of, SubnetPurpose, lan_purpose,
  transit_purpose, management_purpose, database_purpose, public_edge,
}

abbrev purpose_text : SubnetPurpose → String
purpose_text lan_purpose = "lan"
purpose_text transit_purpose = "transit"
purpose_text management_purpose = "management"
purpose_text database_purpose = "database"
purpose_text public_edge = "public_edge"

-- `_subnet_index`, before the remainder.
abbrev position : String → ℕ → List Subnet → ℕ
position id n [] = 0
position id n (s ∷ rest) =
    let later = position id (suc n) rest in if s.resource.id == id then n else later

unfoldable pub subnet_index : Subnet → MappingContext → ℕ
unfolding subnets_of
subnet_index s ctx = position s.resource.id 0 (subnets_of s.network_id ctx.infrastructure) % 3

-- `_route_target_argument`
abbrev argument_of : String → String
argument_of type =
    elim (lookup {V = String} type (
      ("aws_internet_gateway", "gateway_id")
      ∷ ("aws_nat_gateway", "nat_gateway_id")
      ∷ ("aws_ec2_transit_gateway", "transit_gateway_id")
      ∷ ("aws_vpc_peering_connection", "vpc_peering_connection_id")
      ∷ ("aws_vpn_gateway", "gateway_id")
      ∷ ("aws_instance", "instance_id")
      ∷ ("aws_network_interface", "network_interface_id")
      ∷ [])) [ none ↦ "gateway_id" | some argument ↦ argument ]

unfoldable pub route_target_argument : String → MappingContext → String
route_target_argument target_ref ctx = elim (lookup target_ref ctx.addresses) [
  | none ↦ "gateway_id"
  | some (type, name) ↦ argument_of type
]

abbrev pub zone_of : ℕ → Option String → HclValue
zone_of index (some z) = quoted z
zone_of index none =
    raw ("data.aws_availability_zones.available.names[" <> (number_text index <> "]"))

module _ (strip lower : String → String) (cidr_text : SubnetSpec → String) where
  abbrev pub secondaries : String → ℕ → List SubnetSpec → List Block
  secondaries name index [] = []
  secondaries name index (s ∷ rest) =
      set_all (("vpc_id", own "aws_vpc" name "id") ∷ ("cidr_block", quoted (cidr_text s)) ∷ []) (
        new_block "resource"
          ("aws_vpc_ipv4_cidr_block_association"
            ∷ (name <> ("_secondary_" <> number_text index))
            ∷ [])
          [])
      ∷ secondaries name (suc index) rest

  unfoldable pub map_virtual_network : VirtualNetwork → MappingContext → Emission
  map_virtual_network network ctx =
      let name = terraform_identifier strip lower network.resource.id in
      record {
        blocks =
            set_all
              (("cidr_block", quoted (cidr_text network.cidr))
                ∷ ("enable_dns_support", flag network.enable_dns_support)
                ∷ ("enable_dns_hostnames", flag network.enable_dns_hostnames)
                ∷ tags_value (base_tags network.resource)
                ∷ [])
              (new_block "resource" ("aws_vpc" ∷ name ∷ []) (provenance network.resource))
            ∷ secondaries name 0 network.secondary_cidrs;
        warnings = [];
        variables = [];
        outputs =
            (
              name <> "_id",
              (own "aws_vpc" name "id", "VPC id for " <> network.resource.logical_name),
            )
            ∷ [];
      }

  abbrev pub zone : Subnet → MappingContext → HclValue
  zone subnet ctx = zone_of (subnet_index subnet ctx) (text_if subnet.availability_zone)

  unfoldable pub map_subnet : Subnet → MappingContext → Emission
  map_subnet subnet ctx =
      let name = terraform_identifier strip lower subnet.resource.id in
      on_reference (reference ctx subnet.network_id)
        (emit_warning high "unresolved_network_reference" subnet.resource.id)
        (λ vpc. emit_blocks (
          set_all
            (("vpc_id", vpc)
              ∷ ("cidr_block", quoted (cidr_text subnet.cidr))
              ∷ ("availability_zone", zone subnet ctx)
              ∷ ("map_public_ip_on_launch", flag subnet.public)
              ∷ tags_value (
                  assign "topoforge:purpose" (purpose_text subnet.purpose)
                    (base_tags subnet.resource))
              ∷ [])
            (new_block "resource" ("aws_subnet" ∷ name ∷ []) (provenance subnet.resource))
          ∷ []))

  -- One round of the loop over the routes: a nested block or a warning.
  unfoldable pub map_route : RouteTable → MappingContext → Route → Emission
  map_route table ctx route =
      on_reference (reference ctx route.target_ref)
        (emit_warning high "unresolved_route_target" table.resource.id)
        (λ target. emit_blocks (
          set_all
            (("cidr_block", quoted (cidr_text route.destination))
              ∷ (route_target_argument route.target_ref ctx, target)
              ∷ [])
            (new_block "route" [] [])
          ∷ []))

  unfoldable pub map_association : RouteTable → MappingContext → String → Emission
  map_association table ctx subnet_id =
      let name = terraform_identifier strip lower table.resource.id in
      on_reference (reference ctx subnet_id)
        (emit_warning medium "unresolved_subnet_association" table.resource.id)
        (λ subnet. emit_blocks (
          set_all (("subnet_id", subnet) ∷ ("route_table_id", own "aws_route_table" name "id") ∷ [])
            (new_block "resource"
              ("aws_route_table_association"
                ∷ (name <> ("_" <> terraform_identifier strip lower subnet_id))
                ∷ [])
              [])
          ∷ []))

  -- The table's own block, with the routes in it.
  abbrev pub route_table_head : RouteTable → MappingContext → HclValue → Emission
  route_table_head table ctx vpc =
      let routes = emit_each (map_route table ctx) table.routes in
      record routes {
        blocks =
            set_all (tags_value (base_tags table.resource) ∷ []) (
              add_all routes.blocks (
                set "vpc_id" vpc (
                  new_block "resource"
                    ("aws_route_table" ∷ terraform_identifier strip lower table.resource.id ∷ [])
                    (provenance table.resource))))
            ∷ [];
      }

  unfoldable pub map_route_table : RouteTable → MappingContext → Emission
  map_route_table table ctx =
      on_reference (reference ctx table.network_id)
        (emit_warning high "unresolved_network_reference" table.resource.id)
        (λ vpc.
          route_table_head table ctx vpc
          then_emit emit_each (map_association table ctx) table.associated_subnet_ids)
