-- ===== src/Terraform/Addresses.antt =====
-- src/infrastructure/generators/terraform/generator.py: `_index_addresses`, and the blocks of the
-- resources in the order of their emission.
use topo_forge_ai.Network.{SubnetSpec}
use topo_forge_ai.Terraform.Hcl.{assign}
use topo_forge_ai.Prelude.{some, none, [], ◌∷◌, Option, String, List, map, ◌++◌}
use topo_forge_ai.Terraform.Mapping.{
  MappingContext, Emission, terraform_identifier, emit_each, ◌then_emit◌,
}
use topo_forge_ai.Cloud.Resources.{
  Infrastructure, Gateway, GatewayType, internet, nat, transit_gateway, vpn, peering,
  virtual_private, ResourceKind, CloudResource, virtual_network, subnet_kind, route_table_kind,
  gateway_kind, compute_kind, database_kind, load_balancer_kind, security_group_kind,
  network_firewall, iam_kind,
}
use topo_forge_ai.Terraform.Mapping.Network.{map_virtual_network, map_subnet, map_route_table}
use topo_forge_ai.Terraform.Mapping.Gateways.{map_gateway}
use topo_forge_ai.Terraform.Mapping.Security.{map_security_group}
use topo_forge_ai.Terraform.Mapping.Compute.{map_compute}
use topo_forge_ai.Terraform.Mapping.Data.{map_database, map_load_balancer}

-- `type_by_kind`
abbrev pub type_of_kind : ResourceKind → Option String
type_of_kind virtual_network = some "aws_vpc"
type_of_kind subnet_kind = some "aws_subnet"
type_of_kind route_table_kind = some "aws_route_table"
type_of_kind security_group_kind = some "aws_security_group"
type_of_kind compute_kind = some "aws_instance"
type_of_kind database_kind = some "aws_db_instance"
type_of_kind load_balancer_kind = some "aws_lb"
type_of_kind gateway_kind = none
type_of_kind network_firewall = none
type_of_kind iam_kind = none

-- `gateway_types`
abbrev pub type_of_gateway : GatewayType → String
type_of_gateway internet = "aws_internet_gateway"
type_of_gateway nat = "aws_nat_gateway"
type_of_gateway transit_gateway = "aws_ec2_transit_gateway"
type_of_gateway peering = "aws_vpc_peering_connection"
type_of_gateway vpn = "aws_vpn_gateway"
type_of_gateway virtual_private = "aws_vpn_gateway"

abbrev pub by_kind : CloudResource → String × Option String
by_kind r = (r.id, type_of_kind r.kind)

abbrev pub by_type : Gateway → String × Option String
by_type g = (g.resource.id, some (type_of_gateway g.type))

-- The resources with their Terraform types, in the order of `all_resources`.
unfoldable pub typed_resources : Infrastructure → List (String × Option String)
typed_resources i =
    map (λ n. by_kind n.resource) i.networks
    ++ (map (λ s. by_kind s.resource) i.subnets
        ++ (map (λ t. by_kind t.resource) i.route_tables
            ++ (map by_type i.gateways
                ++ (map (λ c. by_kind c.resource) i.compute
                    ++ (map (λ d. by_kind d.resource) i.databases
                        ++ (map (λ b. by_kind b.resource) i.load_balancers
                            ++ map (λ g. by_kind g.resource) i.security_groups))))))

module _ (strip lower : String → String) where
  abbrev pub index_from :
      List (String × (String × String))
      → List (String × Option String)
      → List (String × (String × String))
  index_from addresses [] = addresses
  index_from addresses ((id, none) ∷ rest) = index_from addresses rest
  index_from addresses ((id, some type) ∷ rest) =
      index_from (assign id (type, terraform_identifier strip lower id) addresses) rest

  unfoldable pub index_addresses : Infrastructure → MappingContext
  index_addresses i = record { infrastructure = i; addresses = index_from [] (typed_resources i) }

  module _ (cidr_text : SubnetSpec → String) where
    -- The loop over `_EMISSION_ORDER`.
    unfoldable pub emit_resources : Infrastructure → MappingContext → Emission
    emit_resources i ctx =
        emit_each (λ n. map_virtual_network strip lower cidr_text n ctx) i.networks
        then_emit emit_each (λ s. map_subnet strip lower cidr_text s ctx) i.subnets
        then_emit emit_each (λ g. map_gateway strip lower g ctx) i.gateways
        then_emit emit_each (λ t. map_route_table strip lower cidr_text t ctx) i.route_tables
        then_emit emit_each (λ g. map_security_group strip lower g ctx) i.security_groups
        then_emit emit_each (λ c. map_compute strip lower c ctx) i.compute
        then_emit emit_each (λ d. map_database strip lower d ctx) i.databases
        then_emit emit_each (λ b. map_load_balancer strip lower b ctx) i.load_balancers

    unfoldable pub emit_architecture : Infrastructure → Emission
    emit_architecture i = emit_resources i (index_addresses i)
