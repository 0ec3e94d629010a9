-- ===== src/Terraform/Mapping/Gateways.antt =====
-- src/infrastructure/generators/terraform/mappings/aws.py: gateways.
use topo_forge_ai.Generation.{high}
use topo_forge_ai.Terraform.Hcl.{
  HclValue, set_all, quoted, flag, assign, listed, new_block, items_of,
}
use topo_forge_ai.Prelude.{◌<>◌, some, [], true, ◌∷◌, String, Option, List, map}
use topo_forge_ai.Terraform.Mapping.{
  MappingContext, Emission, terraform_identifier, reference, emit_warning, reference_if, references,
  emit_blocks, tags_value, own, base_tags, provenance, ◌then_emit◌, emit_each, on_reference,
}
use topo_forge_ai.Cloud.Resources.{
  Gateway, GatewayType, internet, nat, transit_gateway, vpn, peering, virtual_private, subnets_of,
}

module _ (strip lower : String → String) where
  unfoldable pub map_internet : Gateway → MappingContext → Emission
  map_internet gateway ctx =
      let name = terraform_identifier strip lower gateway.resource.id in
      on_reference (reference_if ctx gateway.network_id)
        (emit_warning high "unresolved_network_reference" gateway.resource.id)
        (λ vpc. emit_blocks (
          set_all (("vpc_id", vpc) ∷ tags_value (base_tags gateway.resource) ∷ []) (
            new_block "resource" ("aws_internet_gateway" ∷ name ∷ []) (provenance gateway.resource))
          ∷ []))

  unfoldable pub map_nat : Gateway → MappingContext → Emission
  map_nat gateway ctx =
      let name = terraform_identifier strip lower gateway.resource.id in
      on_reference (reference_if ctx gateway.subnet_id)
        (emit_warning high "nat_gateway_without_public_subnet" gateway.resource.id)
        (λ subnet. emit_blocks (
          set_all
            (("domain", quoted "vpc")
              ∷ tags_value (
                  assign "Name" (gateway.resource.logical_name <> "-eip")
                    (base_tags gateway.resource))
              ∷ [])
            (new_block "resource" ("aws_eip" ∷ (name <> "_eip") ∷ []) (provenance gateway.resource))
          ∷ set_all
              (("allocation_id", own "aws_eip" (name <> "_eip") "id")
                ∷ ("subnet_id", subnet)
                ∷ tags_value (base_tags gateway.resource)
                ∷ [])
              (new_block "resource" ("aws_nat_gateway" ∷ name ∷ []) [])
          ∷ []))

  -- Where both networks are known.
  abbrev pub peering_block : Gateway → Option HclValue → Option HclValue → Emission
  peering_block gateway (some left) (some right) = emit_blocks (
      set_all
        (("vpc_id", left)
          ∷ ("peer_vpc_id", right)
          ∷ ("auto_accept", flag true)
          ∷ tags_value (base_tags gateway.resource)
          ∷ [])
        (new_block "resource"
          ("aws_vpc_peering_connection" ∷ terraform_identifier strip lower gateway.resource.id ∷ [])
          (provenance gateway.resource))
      ∷ [])
  peering_block gateway left right = emit_warning high "unresolved_peer_network" gateway.resource.id

  abbrev pub map_peers : Gateway → MappingContext → List String → Emission
  map_peers gateway ctx (left ∷ right ∷ []) =
      peering_block gateway (reference ctx left) (reference ctx right)
  map_peers gateway ctx others =
      emit_warning high "peering_needs_exactly_two_networks" gateway.resource.id

  unfoldable pub map_peering : Gateway → MappingContext → Emission
  map_peering gateway ctx = map_peers gateway ctx gateway.peer_network_ids

  -- One round of the loop over the networks of a transit gateway.
  abbrev pub attachment_block : Gateway → String → Option HclValue → List HclValue → Emission
  attachment_block gateway network_id (some vpc) (subnet ∷ subnets) =
      let name = terraform_identifier strip lower gateway.resource.id in
      emit_blocks (
        set_all
          (("transit_gateway_id", own "aws_ec2_transit_gateway" name "id")
            ∷ ("vpc_id", vpc)
            ∷ ("subnet_ids", listed (items_of (subnet ∷ subnets)))
            ∷ tags_value (base_tags gateway.resource)
            ∷ [])
          (new_block "resource"
            ("aws_ec2_transit_gateway_vpc_attachment"
              ∷ (name <> ("_" <> terraform_identifier strip lower network_id))
              ∷ [])
            [])
        ∷ [])
  attachment_block gateway network_id vpc subnets =
      emit_warning high "transit_attachment_incomplete" gateway.resource.id

  unfoldable pub map_attachment : Gateway → MappingContext → String → Emission
  map_attachment gateway ctx network_id =
      attachment_block gateway network_id (reference ctx network_id)
        (references ctx (map (λ s. s.resource.id) (subnets_of network_id ctx.infrastructure)))

  unfoldable pub map_transit : Gateway → MappingContext → Emission
  map_transit gateway ctx =
      let name = terraform_identifier strip lower gateway.resource.id in
      emit_blocks (
        set_all
          (("description", quoted gateway.resource.logical_name)
            ∷ tags_value (base_tags gateway.resource)
            ∷ [])
          (new_block "resource" ("aws_ec2_transit_gateway" ∷ name ∷ [])
            (provenance gateway.resource))
        ∷ [])
      then_emit emit_each (map_attachment gateway ctx) gateway.peer_network_ids

  abbrev pub map_gateway_of : GatewayType → Gateway → MappingContext → Emission
  map_gateway_of internet gateway ctx = map_internet gateway ctx
  map_gateway_of nat gateway ctx = map_nat gateway ctx
  map_gateway_of peering gateway ctx = map_peering gateway ctx
  map_gateway_of transit_gateway gateway ctx = map_transit gateway ctx
  map_gateway_of vpn gateway ctx = emit_warning high "unsupported_gateway_type" gateway.resource.id
  map_gateway_of virtual_private gateway ctx =
      emit_warning high "unsupported_gateway_type" gateway.resource.id

  unfoldable pub map_gateway : Gateway → MappingContext → Emission
  map_gateway gateway ctx = map_gateway_of gateway.type gateway ctx
