-- ===== src/Terraform/Closure/Network.antt =====
-- src/infrastructure/generators/terraform/mappings/aws.py: networks, subnets, route tables and
-- security groups: the expressions in their blocks, and what they declare.
use topo_forge_ai.Value.{ℤ}
use topo_forge_ai.Terraform.Closure.{
  ValueHas, set_all-BlockHas, tags-ValueHas, reference-ValueHas, BlockHas, header_of-set_all,
  set_if-BlockHas, items_of-ItemsHave, header_of-add_all, add_all-BlockHas, header_of-set,
  set-BlockHas,
}
use topo_forge_ai.Terraform.Hcl.{HclValue, quoted}
use topo_forge_ai.Network.{SubnetSpec}
use topo_forge_ai.Prelude.{
  some, none, [], inl, suc, ◌∷◌, String, ℕ, List, All, ◌≡◌, Option, map, ◌∙◌,
}
use topo_forge_ai.Terraform.Mapping.{
  MappingContext, Emission, terraform_identifier, reference, text_if, base_tags, emit_each,
}
use topo_forge_ai.Terraform.Closure.Emissions.{
  Grounds, IsSound, on_reference-IsSound, on_reference-BlockHas, emit_each-BlockHas,
  then_emit-IsSound, emit_each-IsSound, All-Unit,
}
use topo_forge_ai.Cloud.Resources.{
  VirtualNetwork, Subnet, RouteTable, Route, SecurityGroup, SecurityRule,
}
use topo_forge_ai.Terraform.Mapping.Network.{
  map_virtual_network, map_subnet, map_route_table, map_route, map_association, secondaries, zone,
  subnet_index, zone_of, route_table_head,
}
use topo_forge_ai.Terraform.Mapping.Security.{
  map_security_group, map_rule, map_rule_from, rule_of_blocks, rule_block, port_value,
  description_value,
}

module _ (K : String → Type 0) where
  port-ValueHas : (o : Option ℤ) → ValueHas K (port_value o)
  port-ValueHas none = tt
  port-ValueHas (some p) = tt

  description-ValueHas : (o : Option String) → ValueHas K (description_value o)
  description-ValueHas none = tt
  description-ValueHas (some d) = tt

module _ (strip lower : String → String) (cidr_text : SubnetSpec → String) {K : String → Type 0}
    {D : String → String → Type 0} {V : String → Type 0} {ctx : MappingContext}
    (g : Grounds K D V ctx) where
  abbrev Sound : Emission → Type 0
  Sound = IsSound K D V

  -- A value that is a reference of the context.
  abbrev ref_has : (id : String) (v : HclValue) → reference ctx id ≡ some v → ValueHas K v
  ref_has id v h = reference-ValueHas K ctx g.known id v h

  secondaries-BlockHas :
      (name : String) (index : ℕ) (ss : List SubnetSpec)
      → D "aws_vpc" name
      → All (BlockHas K) (secondaries strip lower cidr_text name index ss)
  secondaries-BlockHas name index [] h = tt
  secondaries-BlockHas name index (s ∷ ss) h = (
    set_all-BlockHas K _ _ (g.owned "aws_vpc" name "id" h, (tt, tt)) (tt, tt),
    secondaries-BlockHas name (suc index) ss h,
  )

  pub map_virtual_network-IsSound :
      (n : VirtualNetwork) → Sound (map_virtual_network strip lower cidr_text n ctx)
  unfolding map_virtual_network
  map_virtual_network-IsSound n declared variables =
      let name = terraform_identifier strip lower n.resource.id in
      (
        set_all-BlockHas K _ _ (tt, (tt, (tt, (tags-ValueHas K (base_tags n.resource), tt))))
            (tt, tt),
        secondaries-BlockHas name 0 n.secondary_cidrs
            (declared "aws_vpc" name (inl (header_of-set_all _ _))),
      )

  zone_of-ValueHas : (index : ℕ) (o : Option String) → ValueHas K (zone_of index o)
  zone_of-ValueHas index none = g.zone_known index
  zone_of-ValueHas index (some z) = tt

  zone-ValueHas : (s : Subnet) → ValueHas K (zone strip lower cidr_text s ctx)
  zone-ValueHas s = zone_of-ValueHas (subnet_index s ctx) (text_if s.availability_zone)

  pub map_subnet-IsSound : (s : Subnet) → Sound (map_subnet strip lower cidr_text s ctx)
  unfolding map_subnet
  map_subnet-IsSound s =
      on_reference-IsSound K D V (reference ctx s.network_id) _ _ _ _ (ref_has s.network_id)
        (λ v h declared variables. (
          set_all-BlockHas K _ _ (h, (tt, (zone-ValueHas s, (tt, (tags-ValueHas K _, tt)))))
              (tt, tt),
          tt,
        ))

  map_route-BlockHas :
      (t : RouteTable) (r : Route)
      → All (BlockHas K) (map_route strip lower cidr_text t ctx r).blocks
  unfolding map_route
  map_route-BlockHas t r =
      on_reference-BlockHas K D V (reference ctx r.target_ref) _ _ _ _ (ref_has r.target_ref)
        (λ v h. (set_all-BlockHas K _ _ (tt, (h, tt)) (tt, tt), tt))

  map_association-IsSound :
      (t : RouteTable)
      → D "aws_route_table" (terraform_identifier strip lower t.resource.id)
      → (id : String) → Sound (map_association strip lower cidr_text t ctx id)
  unfolding map_association
  map_association-IsSound t d id =
      on_reference-IsSound K D V (reference ctx id) _ _ _ _ (ref_has id) (λ v h declared variables.
        (set_all-BlockHas K _ _ (h, (g.owned "aws_route_table" _ "id" d, tt)) (tt, tt), tt))

  pub map_route_table-IsSound :
      (t : RouteTable) → Sound (map_route_table strip lower cidr_text t ctx)
  unfolding map_route_table
  map_route_table-IsSound t =
      on_reference-IsSound K D V (reference ctx t.network_id) _ _ _ _ (ref_has t.network_id)
        (λ v h declared variables.
          let own_table =
            declared "aws_route_table" (terraform_identifier strip lower t.resource.id)
              (inl (header_of-set_all _ _ ∙ header_of-add_all _ _ ∙ header_of-set _ _ _)) in
          let routes =
            emit_each-BlockHas K D V (map_route strip lower cidr_text t ctx) (map_route-BlockHas t)
              t.routes in
          then_emit-IsSound K D V (route_table_head strip lower cidr_text t ctx v)
            (emit_each (map_association strip lower cidr_text t ctx) t.associated_subnet_ids)
            (λ _ _. (
              set_all-BlockHas K _ _ (tags-ValueHas K _, tt)
                  (add_all-BlockHas K _ _ routes (set-BlockHas K "vpc_id" v _ h (tt, tt))),
              tt,
            ))
            (emit_each-IsSound K D V (λ _. Unit) _ (λ id _. map_association-IsSound t own_table id)
              t.associated_subnet_ids (All-Unit t.associated_subnet_ids))
            declared variables)

  rule_block-BlockHas :
      (r : SecurityRule) (k : String) (v : HclValue)
      → ValueHas K v
      → BlockHas K (rule_block r (k, v))
  rule_block-BlockHas r k v h = set_if-BlockHas K _ _ _ (description-ValueHas K r.description) (
      set_all-BlockHas K _ _
        (port-ValueHas K r.from_port, (port-ValueHas K r.to_port, (tt, (h, tt)))) (tt, tt))

  quoted-AllHave : (ss : List String) → All (ValueHas K) (map quoted ss)
  quoted-AllHave [] = tt
  quoted-AllHave (s ∷ ss) = (tt, quoted-AllHave ss)

  rule_of_blocks-BlockHas :
      (s : SecurityGroup) (r : SecurityRule) (cs : List String)
      → All (BlockHas K) (rule_of_blocks s r cs).blocks
  rule_of_blocks-BlockHas s r [] = tt
  rule_of_blocks-BlockHas s r (c ∷ cs) = (
    rule_block-BlockHas r "cidr_blocks" _
        (items_of-ItemsHave K (map quoted (c ∷ cs)) (quoted-AllHave (c ∷ cs))),
    tt,
  )

  map_rule_from-BlockHas :
      (s : SecurityGroup) (r : SecurityRule) (peer : Option String)
      → All (BlockHas K) (map_rule_from s ctx r peer).blocks
  map_rule_from-BlockHas s r none = rule_of_blocks-BlockHas s r r.cidr_blocks
  map_rule_from-BlockHas s r (some id) =
      on_reference-BlockHas K D V (reference ctx id) _ _ _ _ (ref_has id) (λ v h.
        (rule_block-BlockHas r "security_groups" _ (items_of-ItemsHave K (v ∷ []) (h, tt)), tt))

  map_rule-BlockHas :
      (s : SecurityGroup) (r : SecurityRule) → All (BlockHas K) (map_rule s ctx r).blocks
  unfolding map_rule
  map_rule-BlockHas s r = map_rule_from-BlockHas s r (text_if r.source_security_group_id)

  pub map_security_group-IsSound :
      (s : SecurityGroup) → Sound (map_security_group strip lower s ctx)
  unfolding map_security_group
  map_security_group-IsSound s =
      on_reference-IsSound K D V (reference ctx s.network_id) _ _ _ _ (ref_has s.network_id)
        (λ v h declared variables.
          let rules = emit_each-BlockHas K D V (map_rule s ctx) (map_rule-BlockHas s) s.rules in
          (
            set_all-BlockHas K _ _ (tags-ValueHas K _, tt)
                (add_all-BlockHas K _ _ rules
                  (set_all-BlockHas K _ _ (tt, (tt, (h, tt))) (tt, tt))),
            tt,
          ))
