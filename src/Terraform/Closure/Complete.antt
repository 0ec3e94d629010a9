-- ===== src/Terraform/Closure/Complete.antt =====
-- src/infrastructure/generators/terraform/generator.py: the references in the generated blocks.
use topo_forge_ai.Terraform.Closure.Whole.{
  total, InWhole, networks_part, subnets_part, gateways_part, route_tables_part,
  security_groups_part, compute_part, databases_part, load_balancers_part, ctx, after_1,
  addresses_declared, after_2, after_3, after_4, after_5, after_6,
}
use topo_forge_ai.Terraform.Closure.Known.{resource, variable, zone, default_image, image}
use topo_forge_ai.Terraform.Closure.Known.{IsKinded, IsKnown, images_known}
use topo_forge_ai.Terraform.Closure.Data.{map_database-IsSound, map_load_balancer-IsSound}
use topo_forge_ai.Terraform.Closure.Compute.{map_compute-IsSound}
use topo_forge_ai.Terraform.Closure.Gateways.{map_gateway-IsSound}
use topo_forge_ai.Terraform.Closure.Network.{
  map_virtual_network-IsSound, map_subnet-IsSound, map_route_table-IsSound,
  map_security_group-IsSound,
}
use topo_forge_ai.Network.{SubnetSpec}
use topo_forge_ai.Terraform.Closure.{BlockHas}
use topo_forge_ai.Prelude.{refl, some, true, String, All, ◌≡◌, In, String-Eq}
use topo_forge_ai.Terraform.Mapping.{Emission}
use topo_forge_ai.Terraform.Addresses.{emit_resources, emit_architecture}
use topo_forge_ai.Cloud.Resources.{Infrastructure}
use topo_forge_ai.Terraform.Mapping.Compute.{looks_like_reference}
use topo_forge_ai.Terraform.Closure.Emissions.{
  IsSound, quiet, All-Unit, Grounds, emit_each-IsSound, then_emit-IsSound,
}

module _ (strip lower : String → String) (cidr_text : SubnetSpec → String)
    (i : Infrastructure) where
  module _ (kinded : IsKinded i)
      (calm : quiet (total strip lower cidr_text i).warnings ≡ true) where
    abbrev K : String → Type 0
    K = IsKnown i (total strip lower cidr_text i)

    abbrev InVariables : String → Type 0
    InVariables v = In v (total strip lower cidr_text i).variables

    grounds : Grounds K (InWhole strip lower cidr_text i) InVariables (ctx strip lower cidr_text i)
    grounds = record {
      known = λ id t n h.
          resource t n "id" refl (addresses_declared strip lower cidr_text i kinded calm id t n h);
      owned = λ t n a d. resource t n a refl d;
      variable = λ v h. variable v refl h;
      zone_known = λ k. zone k refl;
      image_known = default_image refl;
    }

    abbrev Sound : Emission → Type 0
    Sound = IsSound K (InWhole strip lower cidr_text i) InVariables

    networks-Sound : Sound (networks_part strip lower cidr_text i)
    networks-Sound =
        emit_each-IsSound K (InWhole strip lower cidr_text i) InVariables (λ _. Unit) _
          (λ x _. map_virtual_network-IsSound strip lower cidr_text grounds x) i.networks
          (All-Unit i.networks)

    subnets-Sound : Sound (subnets_part strip lower cidr_text i)
    subnets-Sound =
        emit_each-IsSound K (InWhole strip lower cidr_text i) InVariables (λ _. Unit) _
          (λ x _. map_subnet-IsSound strip lower cidr_text grounds x) i.subnets (All-Unit i.subnets)

    gateways-Sound : Sound (gateways_part strip lower cidr_text i)
    gateways-Sound =
        emit_each-IsSound K (InWhole strip lower cidr_text i) InVariables (λ _. Unit) _
          (λ x _. map_gateway-IsSound strip lower grounds x) i.gateways (All-Unit i.gateways)

    route_tables-Sound : Sound (route_tables_part strip lower cidr_text i)
    route_tables-Sound =
        emit_each-IsSound K (InWhole strip lower cidr_text i) InVariables (λ _. Unit) _
          (λ x _. map_route_table-IsSound strip lower cidr_text grounds x) i.route_tables
          (All-Unit i.route_tables)

    security_groups-Sound : Sound (security_groups_part strip lower cidr_text i)
    security_groups-Sound =
        emit_each-IsSound K (InWhole strip lower cidr_text i) InVariables (λ _. Unit) _
          (λ x _. map_security_group-IsSound strip lower cidr_text grounds x) i.security_groups
          (All-Unit i.security_groups)

    compute-Sound : Sound (compute_part strip lower cidr_text i)
    compute-Sound =
        emit_each-IsSound K (InWhole strip lower cidr_text i) InVariables
          (λ c. (x : String) → c.image ≡ some x → looks_like_reference x ≡ true → K x) _
          (λ c h. map_compute-IsSound strip lower grounds c h) i.compute
          (images_known K i.compute (λ x h. image h))

    databases-Sound : Sound (databases_part strip lower cidr_text i)
    databases-Sound =
        emit_each-IsSound K (InWhole strip lower cidr_text i) InVariables (λ _. Unit) _
          (λ x _. map_database-IsSound strip lower grounds x) i.databases (All-Unit i.databases)

    load_balancers-Sound : Sound (load_balancers_part strip lower cidr_text i)
    load_balancers-Sound =
        emit_each-IsSound K (InWhole strip lower cidr_text i) InVariables (λ _. Unit) _
          (λ x _. map_load_balancer-IsSound strip lower grounds x) i.load_balancers
          (All-Unit i.load_balancers)

    total-Sound : Sound (total strip lower cidr_text i)
    total-Sound =
        then_emit-IsSound K (InWhole strip lower cidr_text i) InVariables
          (networks_part strip lower cidr_text i) (after_1 strip lower cidr_text i) networks-Sound
          (then_emit-IsSound K (InWhole strip lower cidr_text i) InVariables
            (subnets_part strip lower cidr_text i) (after_2 strip lower cidr_text i) subnets-Sound
            (then_emit-IsSound K (InWhole strip lower cidr_text i) InVariables
              (gateways_part strip lower cidr_text i) (after_3 strip lower cidr_text i)
              gateways-Sound
              (then_emit-IsSound K (InWhole strip lower cidr_text i) InVariables
                (route_tables_part strip lower cidr_text i) (after_4 strip lower cidr_text i)
                route_tables-Sound
                (then_emit-IsSound K (InWhole strip lower cidr_text i) InVariables
                  (security_groups_part strip lower cidr_text i) (after_5 strip lower cidr_text i)
                  security_groups-Sound
                  (then_emit-IsSound K (InWhole strip lower cidr_text i) InVariables
                    (compute_part strip lower cidr_text i) (after_6 strip lower cidr_text i)
                    compute-Sound
                    (then_emit-IsSound K (InWhole strip lower cidr_text i) InVariables
                      (databases_part strip lower cidr_text i)
                      (load_balancers_part strip lower cidr_text i) databases-Sound
                      (load_balancers-Sound)))))))

  -- Where each resource has the kind of its class: if no mapper reports anything of high severity,
  -- every expression in the generated blocks names what the generated code declares: an attribute of
  -- a resource that one of the blocks declares, a required variable, a data source of data.tf, or the
  -- image of a machine as its author wrote it.
  pub emit_architecture-IsClosed :
      IsKinded i
      → quiet (emit_architecture strip lower cidr_text i).warnings ≡ true
      → All
          (BlockHas (IsKnown i (emit_architecture strip lower cidr_text i)))
          (emit_architecture strip lower cidr_text i).blocks
  unfolding emit_architecture emit_resources
  emit_architecture-IsClosed kinded calm = total-Sound kinded calm (λ t n h. h) (λ v h. h)
