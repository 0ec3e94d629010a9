-- ===== src/Terraform/Mapping/Security.antt =====
-- src/infrastructure/generators/terraform/mappings/aws.py: security groups.
use topo_forge_ai.Generation.{high}
use topo_forge_ai.Terraform.Hcl.{
  HclValue, int, nothing, Block, quoted, set_if, set_all, listed, new_block, items_of, add_all,
}
use topo_forge_ai.Prelude.{◌<>◌, some, none, [], ◌∷◌, String, Option, List, map}
use topo_forge_ai.Value.{ℤ, pos}
use topo_forge_ai.Terraform.Mapping.{
  MappingContext, Emission, text_if, emit_warning, reference, terraform_identifier, emit_blocks,
  emit_each, tags_value, base_tags, provenance, on_reference,
}
use topo_forge_ai.Cloud.Resources.{
  SecurityGroup, SecurityRule, ingress, egress, SecurityRuleDirection,
}

abbrev pub rule_block_type : SecurityRuleDirection → String
rule_block_type ingress = "ingress"
rule_block_type egress = "egress"

-- `port if port is not None else 0`
abbrev pub port_value : Option ℤ → HclValue
port_value none = int (pos 0)
port_value (some p) = int p

abbrev pub description_value : Option String → HclValue
description_value none = nothing
description_value (some d) = quoted d

-- The block of a rule with what names its sources.
abbrev pub rule_block : SecurityRule → String × HclValue → Block
rule_block rule source = set_if "description" (description_value rule.description) (
    set_all
      (("from_port", port_value rule.from_port)
        ∷ ("to_port", port_value rule.to_port)
        ∷ ("protocol", quoted rule.protocol)
        ∷ source
        ∷ [])
      (new_block (rule_block_type rule.direction) [] []))

abbrev pub rule_of_blocks : SecurityGroup → SecurityRule → List String → Emission
rule_of_blocks group rule [] = emit_warning high "rule_without_source" group.resource.id
rule_of_blocks group rule (c ∷ cs) =
    emit_blocks (rule_block rule ("cidr_blocks", listed (items_of (map quoted (c ∷ cs)))) ∷ [])

-- One round of the loop over the rules.
abbrev pub map_rule_from : SecurityGroup → MappingContext → SecurityRule → Option String → Emission
map_rule_from group ctx rule none = rule_of_blocks group rule rule.cidr_blocks
map_rule_from group ctx rule (some peer_id) =
    on_reference (reference ctx peer_id)
      (emit_warning high "unresolved_security_group_reference" group.resource.id)
      (λ peer.
        emit_blocks (rule_block rule ("security_groups", listed (items_of (peer ∷ []))) ∷ []))

unfoldable pub map_rule : SecurityGroup → MappingContext → SecurityRule → Emission
map_rule group ctx rule = map_rule_from group ctx rule (text_if rule.source_security_group_id)

module _ (strip lower : String → String) where
  unfoldable pub map_security_group : SecurityGroup → MappingContext → Emission
  map_security_group group ctx =
      let name = terraform_identifier strip lower group.resource.id in
      on_reference (reference ctx group.network_id)
        (emit_warning high "unresolved_network_reference" group.resource.id)
        (λ vpc.
          let rules = emit_each (map_rule group ctx) group.rules in
          let head = set_all (tags_value (base_tags group.resource) ∷ []) (
            add_all rules.blocks (
              set_all
                (("name", quoted group.resource.logical_name)
                  ∷ (
                    "description",
                    quoted ("TopoForge security group for " <> group.resource.logical_name),
                  )
                  ∷ ("vpc_id", vpc)
                  ∷ [])
                (new_block "resource" ("aws_security_group" ∷ name ∷ [])
                  (provenance group.resource)))) in
          record rules { blocks = head ∷ [] })
