-- ===== src/Terraform/Closure/Declared.antt =====
-- src/infrastructure/generators/terraform/mappings/aws.py: a mapper that reports nothing of high
-- severity declares its resource, under the address that `_index_addresses` gave it.
use topo_forge_ai.Terraform.Hcl.{HclValue}
use topo_forge_ai.Terraform.Closure.{
  header_of-set_all, header_of-add_all, header_of-set_if, header_of-set,
}
use topo_forge_ai.Network.{SubnetSpec}
use topo_forge_ai.Prelude.{some, none, [], inl, inr, ◌∷◌, String, List, Option, ◌∙◌}
use topo_forge_ai.Terraform.Mapping.{
  MappingContext, reference, reference_if, references, terraform_identifier,
}
use topo_forge_ai.Terraform.Closure.Emissions.{Declares, on_reference-Declares}
use topo_forge_ai.Cloud.Resources.{
  VirtualNetwork, Subnet, RouteTable, SecurityGroup, Gateway, GatewayType, ComputeInstance,
  Database, LoadBalancer, internet, nat, transit_gateway, vpn, peering, virtual_private,
  CloudResource,
}
use topo_forge_ai.Terraform.Mapping.Network.{map_virtual_network, map_subnet, map_route_table}
use topo_forge_ai.Terraform.Mapping.Gateways.{
  map_gateway, map_internet, map_nat, map_peering, map_transit, map_gateway_of, map_peers,
  peering_block,
}
use topo_forge_ai.Terraform.Mapping.Security.{map_security_group}
use topo_forge_ai.Terraform.Mapping.Compute.{map_compute, primary_subnet}
use topo_forge_ai.Terraform.Mapping.Data.{
  map_database, map_database_in, map_load_balancer, map_balancer_in,
}
use topo_forge_ai.Terraform.Addresses.{type_of_gateway}

module _ (strip lower : String → String) (cidr_text : SubnetSpec → String)
    (ctx : MappingContext) where
  abbrev name_of : CloudResource → String
  name_of r = terraform_identifier strip lower r.id

  pub map_virtual_network-Declares :
      (n : VirtualNetwork)
      → Declares "aws_vpc" (name_of n.resource) (map_virtual_network strip lower cidr_text n ctx)
  unfolding map_virtual_network
  map_virtual_network-Declares n calm = inl (header_of-set_all _ _)

  pub map_subnet-Declares :
      (s : Subnet)
      → Declares "aws_subnet" (name_of s.resource) (map_subnet strip lower cidr_text s ctx)
  unfolding map_subnet
  map_subnet-Declares s =
      on_reference-Declares (reference ctx s.network_id) _ _ _ _ _
        (λ v calm. inl (header_of-set_all _ _))

  pub map_route_table-Declares :
      (t : RouteTable)
      → Declares "aws_route_table"
          (name_of t.resource)
          (map_route_table strip lower cidr_text t ctx)
  unfolding map_route_table
  map_route_table-Declares t =
      on_reference-Declares (reference ctx t.network_id) _ _ _ _ _
        (λ v calm. inl (header_of-set_all _ _ ∙ header_of-add_all _ _ ∙ header_of-set _ _ _))

  pub map_security_group-Declares :
      (s : SecurityGroup)
      → Declares "aws_security_group" (name_of s.resource) (map_security_group strip lower s ctx)
  unfolding map_security_group
  map_security_group-Declares s =
      on_reference-Declares (reference ctx s.network_id) _ _ _ _ _
        (λ v calm. inl (header_of-set_all _ _ ∙ header_of-add_all _ _ ∙ header_of-set_all _ _))

  map_peers-Declares :
      (w : Gateway) (ids : List String)
      → Declares "aws_vpc_peering_connection" (name_of w.resource) (map_peers strip lower w ctx ids)
  map_peers-Declares w [] = λ calm. absurd (cc)
  map_peers-Declares w (a ∷ []) = λ calm. absurd (cc)
  map_peers-Declares w (a ∷ b ∷ []) = both (reference ctx a) (reference ctx b)
    where
      both :
          (o p : Option HclValue)
          → Declares "aws_vpc_peering_connection"
              (name_of w.resource)
              (peering_block strip lower w o p)
      both (some v) (some u) calm = inl (header_of-set_all _ _)
      both (some v) none calm = absurd (cc)
      both none p calm = absurd (cc)
  map_peers-Declares w (a ∷ b ∷ c ∷ ids) = λ calm. absurd (cc)

  map_gateway_of-Declares :
      (type : GatewayType) (w : Gateway)
      → Declares (type_of_gateway type) (name_of w.resource) (map_gateway_of strip lower type w ctx)
  unfolding map_peering map_internet map_nat map_transit
  map_gateway_of-Declares internet w =
      on_reference-Declares (reference_if ctx w.network_id) _ _ _ _ _
        (λ v calm. inl (header_of-set_all _ _))
  map_gateway_of-Declares nat w =
      on_reference-Declares (reference_if ctx w.subnet_id) _ _ _ _ _
        (λ v calm. inr (inl (header_of-set_all _ _)))
  map_gateway_of-Declares peering w = map_peers-Declares w w.peer_network_ids
  map_gateway_of-Declares transit_gateway w = λ calm. inl (header_of-set_all _ _)
  map_gateway_of-Declares vpn w = λ calm. absurd (cc)
  map_gateway_of-Declares virtual_private w = λ calm. absurd (cc)

  pub map_gateway-Declares :
      (w : Gateway)
      → Declares (type_of_gateway w.type) (name_of w.resource) (map_gateway strip lower w ctx)
  unfolding map_gateway
  map_gateway-Declares w = map_gateway_of-Declares w.type w

  pub map_compute-Declares :
      (c : ComputeInstance)
      → Declares "aws_instance" (name_of c.resource) (map_compute strip lower c ctx)
  unfolding map_compute
  map_compute-Declares c =
      on_reference-Declares (reference_if ctx (primary_subnet c)) _ _ _ _ _
        (λ v calm. inl (header_of-set_all _ _ ∙ header_of-add_all _ _ ∙ header_of-set_all _ _))

  database_in-Declares :
      (d : Database) (vs : List HclValue)
      → Declares "aws_db_instance" (name_of d.resource) (map_database_in strip lower d ctx vs)
  database_in-Declares d [] calm = absurd (cc)
  database_in-Declares d (v ∷ []) calm = absurd (cc)
  database_in-Declares d (v ∷ u ∷ vs) calm =
      inr (inl (header_of-set_all _ _ ∙ header_of-set_if _ _ _ ∙ header_of-set_all _ _))

  pub map_database-Declares :
      (d : Database)
      → Declares "aws_db_instance" (name_of d.resource) (map_database strip lower d ctx)
  unfolding map_database
  map_database-Declares d = database_in-Declares d (references ctx d.subnet_ids)

  balancer_in-Declares :
      (b : LoadBalancer) (vs : List HclValue)
      → Declares "aws_lb" (name_of b.resource) (map_balancer_in strip lower b ctx vs)
  balancer_in-Declares b [] calm = absurd (cc)
  balancer_in-Declares b (v ∷ vs) calm = inl (header_of-set_all _ _)

  pub map_load_balancer-Declares :
      (b : LoadBalancer)
      → Declares "aws_lb" (name_of b.resource) (map_load_balancer strip lower b ctx)
  unfolding map_load_balancer
  map_load_balancer-Declares b = balancer_in-Declares b (references ctx b.subnet_ids)
