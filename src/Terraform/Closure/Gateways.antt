-- ===== src/Terraform/Closure/Gateways.antt =====
-- src/infrastructure/generators/terraform/mappings/aws.py: gateways: the expressions in their blocks.
use topo_forge_ai.Terraform.Closure.{
  header_of-set_all, ValueHas, set_all-BlockHas, reference-ValueHas, reference_if-ValueHas,
  tags-ValueHas, items_of-ItemsHave, references-ValueHas,
}
use topo_forge_ai.Terraform.Hcl.{HclValue}
use topo_forge_ai.Prelude.{
  refl, some, none, [], inl, inr, ◌∷◌, String, Option, List, ◌≡◌, All, ◌<>◌,
}
use topo_forge_ai.Terraform.Mapping.{
  MappingContext, Emission, terraform_identifier, reference, reference_if,
}
use topo_forge_ai.Terraform.Closure.Emissions.{
  Grounds, IsSound, on_reference-IsSound, emit_each-IsSound, All-Unit,
}
use topo_forge_ai.Cloud.Resources.{
  Gateway, GatewayType, internet, nat, transit_gateway, vpn, peering, virtual_private,
}
use topo_forge_ai.Terraform.Mapping.Gateways.{
  map_gateway, map_internet, map_nat, map_peering, map_transit, map_attachment, map_gateway_of,
  map_peers, peering_block, attachment_block,
}

module _ (strip lower : String → String) {K : String → Type 0} {D : String → String → Type 0}
    {V : String → Type 0} {ctx : MappingContext} (g : Grounds K D V ctx) where
  abbrev Sound : Emission → Type 0
  Sound = IsSound K D V

  abbrev ref_has : (id : String) (v : HclValue) → reference ctx id ≡ some v → ValueHas K v
  ref_has id v h = reference-ValueHas K ctx g.known id v h

  abbrev ref_if_has :
      (id : Option String) (v : HclValue) → reference_if ctx id ≡ some v → ValueHas K v
  ref_if_has id v h = reference_if-ValueHas K ctx g.known id v h

  map_internet-IsSound : (w : Gateway) → Sound (map_internet strip lower w ctx)
  unfolding map_internet
  map_internet-IsSound w =
      on_reference-IsSound K D V (reference_if ctx w.network_id) _ _ _ _ (ref_if_has w.network_id)
        (λ v h declared variables.
          (set_all-BlockHas K _ _ (h, (tags-ValueHas K _, tt)) (tt, tt), tt))

  map_nat-IsSound : (w : Gateway) → Sound (map_nat strip lower w ctx)
  unfolding map_nat
  map_nat-IsSound w =
      on_reference-IsSound K D V (reference_if ctx w.subnet_id) _ _ _ _ (ref_if_has w.subnet_id)
        (λ v h declared variables. (
          set_all-BlockHas K _ _ (tt, (tags-ValueHas K _, tt)) (tt, tt),
          (
            set_all-BlockHas K _ _
                (
                  g.owned "aws_eip" (terraform_identifier strip lower w.resource.id <> "_eip") "id"
                      (declared "aws_eip" _ (inl (header_of-set_all _ _))),
                  (h, (tags-ValueHas K _, tt)),
                )
                (tt, tt),
            tt,
          ),
        ))

  peering_block-IsSound :
      (w : Gateway) (a b : Option HclValue)
      → ((v : HclValue) → a ≡ some v → ValueHas K v)
      → ((v : HclValue) → b ≡ some v → ValueHas K v)
      → Sound (peering_block strip lower w a b)
  peering_block-IsSound w (some left) (some right) h k declared variables = (
    set_all-BlockHas K _ _ (h left refl, (k right refl, (tt, (tags-ValueHas K _, tt)))) (tt, tt),
    tt,
  )
  peering_block-IsSound w (some left) none h k declared variables = tt
  peering_block-IsSound w none b h k declared variables = tt

  map_peers-IsSound : (w : Gateway) (ids : List String) → Sound (map_peers strip lower w ctx ids)
  map_peers-IsSound w (a ∷ b ∷ []) =
      peering_block-IsSound w (reference ctx a) (reference ctx b) (ref_has a) (ref_has b)
  map_peers-IsSound w [] = λ _ _. tt
  map_peers-IsSound w (a ∷ []) = λ _ _. tt
  map_peers-IsSound w (a ∷ b ∷ c ∷ ids) = λ _ _. tt

  attachment_block-IsSound :
      (w : Gateway) (id : String) (o : Option HclValue) (vs : List HclValue)
      → D "aws_ec2_transit_gateway" (terraform_identifier strip lower w.resource.id)
      → ((v : HclValue) → o ≡ some v → ValueHas K v)
      → All (ValueHas K) vs
      → Sound (attachment_block strip lower w id o vs)
  attachment_block-IsSound w id (some v) (s ∷ ss) d h k declared variables = (
    set_all-BlockHas K _ _
        (
          g.owned "aws_ec2_transit_gateway" _ "id" d,
          (h v refl, (items_of-ItemsHave K (s ∷ ss) k, (tags-ValueHas K _, tt))),
        )
        (tt, tt),
    tt,
  )
  attachment_block-IsSound w id (some v) [] d h k declared variables = tt
  attachment_block-IsSound w id none vs d h k declared variables = tt

  map_transit-IsSound : (w : Gateway) → Sound (map_transit strip lower w ctx)
  unfolding map_transit map_attachment
  map_transit-IsSound w declared variables =
      let own_gateway =
        declared "aws_ec2_transit_gateway" (terraform_identifier strip lower w.resource.id)
          (inl (header_of-set_all _ _)) in
      (
        set_all-BlockHas K _ _ (tt, (tags-ValueHas K _, tt)) (tt, tt),
        emit_each-IsSound K D V (λ _. Unit) (map_attachment strip lower w ctx)
            (λ id _.
              attachment_block-IsSound w id (reference ctx id) _ own_gateway (ref_has id)
                (references-ValueHas K ctx g.known _))
            w.peer_network_ids (All-Unit w.peer_network_ids) (λ t n h. declared t n (inr h))
            variables,
      )

  map_gateway_of-IsSound :
      (type : GatewayType) (w : Gateway) → Sound (map_gateway_of strip lower type w ctx)
  unfolding map_peering
  map_gateway_of-IsSound internet w = map_internet-IsSound w
  map_gateway_of-IsSound nat w = map_nat-IsSound w
  map_gateway_of-IsSound peering w = map_peers-IsSound w w.peer_network_ids
  map_gateway_of-IsSound transit_gateway w = map_transit-IsSound w
  map_gateway_of-IsSound vpn w = λ _ _. tt
  map_gateway_of-IsSound virtual_private w = λ _ _. tt

  pub map_gateway-IsSound : (w : Gateway) → Sound (map_gateway strip lower w ctx)
  unfolding map_gateway
  map_gateway-IsSound w = map_gateway_of-IsSound w.type w
