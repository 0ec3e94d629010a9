-- ===== src/Terraform/Closure/Whole.antt =====
-- src/infrastructure/generators/terraform/generator.py: what is emitted for an architecture, class by
-- class, and that every address that `_index_addresses` gives is declared in it.
use topo_forge_ai.Terraform.Closure.Index.{
  IsIndexed, lookup-All, class-IsIndexed, gateway_list-IsIndexed, index_from-All, name_of,
}
use topo_forge_ai.Terraform.Closure.Known.{IsKinded}
use topo_forge_ai.Terraform.Closure.Declared.{
  map_virtual_network-Declares, map_subnet-Declares, map_gateway-Declares, map_route_table-Declares,
  map_security_group-Declares, map_compute-Declares, map_database-Declares,
  map_load_balancer-Declares,
}
use topo_forge_ai.Terraform.Mapping.Data.{map_database, map_load_balancer}
use topo_forge_ai.Terraform.Mapping.Security.{map_security_group}
use topo_forge_ai.Terraform.Mapping.Gateways.{map_gateway}
use topo_forge_ai.Terraform.Mapping.Network.{map_virtual_network, map_subnet, map_route_table}
use topo_forge_ai.Network.{SubnetSpec}
use topo_forge_ai.Terraform.Closure.{Declared, Declared-append_right, Declared-append_left}
use topo_forge_ai.Prelude.{
  refl, some, [], true, String, All, List, ◌≡◌, Option, lookup, String-Eq, map, All-map, ◌++◌,
  All-append,
}
use topo_forge_ai.Terraform.Mapping.{MappingContext, Emission, emit_each, ◌then_emit◌}
use topo_forge_ai.Terraform.Addresses.{
  emit_architecture, index_addresses, type_of_gateway, by_kind, by_type, typed_resources,
}
use topo_forge_ai.Cloud.Resources.{
  Infrastructure, virtual_network, subnet_kind, route_table_kind, compute_kind, database_kind,
  load_balancer_kind, security_group_kind,
}
use topo_forge_ai.Terraform.Mapping.Compute.{map_compute}
use topo_forge_ai.Terraform.Closure.Emissions.{
  quiet, emit_each-Declares, Declares, All-Unit, then_emit_quiet,
}

-- What one class of resources declares, within a larger whole.
part :
    {A : Type 0} (D : String → String → Type 0) (f : A → Emission) (type name : A → String)
    → ((x : A) → Declares (type x) (name x) (f x))
    → (xs : List A) → quiet (emit_each f xs).warnings ≡ true
    → ((t n : String) → Declared t n (emit_each f xs).blocks → D t n)
    → All (λ x. D (type x) (name x)) xs
part D f type name declares xs calm up =
    All-map (λ x. Declared (type x) (name x) (emit_each f xs).blocks) (λ x. D (type x) (name x))
      (λ x. up (type x) (name x)) xs
      (emit_each-Declares f type name (λ _. Unit) (λ x _. declares x) xs (All-Unit xs) calm)

module _ (strip lower : String → String) (cidr_text : SubnetSpec → String)
    (i : Infrastructure) where
  abbrev pub ctx : MappingContext
  ctx = index_addresses strip lower i

  abbrev pub networks_part : Emission
  networks_part = emit_each (λ x. map_virtual_network strip lower cidr_text x ctx) i.networks

  abbrev pub subnets_part : Emission
  subnets_part = emit_each (λ x. map_subnet strip lower cidr_text x ctx) i.subnets

  abbrev pub gateways_part : Emission
  gateways_part = emit_each (λ x. map_gateway strip lower x ctx) i.gateways

  abbrev pub route_tables_part : Emission
  route_tables_part = emit_each (λ x. map_route_table strip lower cidr_text x ctx) i.route_tables

  abbrev pub security_groups_part : Emission
  security_groups_part = emit_each (λ x. map_security_group strip lower x ctx) i.security_groups

  abbrev pub compute_part : Emission
  compute_part = emit_each (λ x. map_compute strip lower x ctx) i.compute

  abbrev pub databases_part : Emission
  databases_part = emit_each (λ x. map_database strip lower x ctx) i.databases

  abbrev pub load_balancers_part : Emission
  load_balancers_part = emit_each (λ x. map_load_balancer strip lower x ctx) i.load_balancers

  abbrev pub after_6 : Emission
  after_6 = databases_part then_emit load_balancers_part

  abbrev pub after_5 : Emission
  after_5 = compute_part then_emit after_6

  abbrev pub after_4 : Emission
  after_4 = security_groups_part then_emit after_5

  abbrev pub after_3 : Emission
  after_3 = route_tables_part then_emit after_4

  abbrev pub after_2 : Emission
  after_2 = gateways_part then_emit after_3

  abbrev pub after_1 : Emission
  after_1 = subnets_part then_emit after_2

  abbrev whole : Emission
  whole = emit_architecture strip lower cidr_text i

  abbrev pub total : Emission
  total = networks_part then_emit after_1

  abbrev pub InWhole : String → String → Type 0
  InWhole t n = Declared t n total.blocks

  in_after_1 : (t n : String) → Declared t n after_1.blocks → InWhole t n
  in_after_1 t n h = Declared-append_right t n networks_part.blocks after_1.blocks h

  in_after_2 : (t n : String) → Declared t n after_2.blocks → InWhole t n
  in_after_2 t n h = in_after_1 t n (Declared-append_right t n subnets_part.blocks after_2.blocks h)

  in_after_3 : (t n : String) → Declared t n after_3.blocks → InWhole t n
  in_after_3 t n h =
      in_after_2 t n (Declared-append_right t n gateways_part.blocks after_3.blocks h)

  in_after_4 : (t n : String) → Declared t n after_4.blocks → InWhole t n
  in_after_4 t n h =
      in_after_3 t n (Declared-append_right t n route_tables_part.blocks after_4.blocks h)

  in_after_5 : (t n : String) → Declared t n after_5.blocks → InWhole t n
  in_after_5 t n h =
      in_after_4 t n (Declared-append_right t n security_groups_part.blocks after_5.blocks h)

  in_after_6 : (t n : String) → Declared t n after_6.blocks → InWhole t n
  in_after_6 t n h = in_after_5 t n (Declared-append_right t n compute_part.blocks after_6.blocks h)

  in_after_7 : (t n : String) → Declared t n load_balancers_part.blocks → InWhole t n
  in_after_7 t n h =
      in_after_6 t n (Declared-append_right t n databases_part.blocks load_balancers_part.blocks h)

  module _ (kinded : IsKinded i) (calm : quiet total.warnings ≡ true) where
    calm_1 : (quiet networks_part.warnings ≡ true) × (quiet after_1.warnings ≡ true)
    calm_1 = then_emit_quiet networks_part after_1 calm

    calm_2 : (quiet subnets_part.warnings ≡ true) × (quiet after_2.warnings ≡ true)
    calm_2 = then_emit_quiet subnets_part after_2 calm_1.1

    calm_3 : (quiet gateways_part.warnings ≡ true) × (quiet after_3.warnings ≡ true)
    calm_3 = then_emit_quiet gateways_part after_3 calm_2.1

    calm_4 : (quiet route_tables_part.warnings ≡ true) × (quiet after_4.warnings ≡ true)
    calm_4 = then_emit_quiet route_tables_part after_4 calm_3.1

    calm_5 : (quiet security_groups_part.warnings ≡ true) × (quiet after_5.warnings ≡ true)
    calm_5 = then_emit_quiet security_groups_part after_5 calm_4.1

    calm_6 : (quiet compute_part.warnings ≡ true) × (quiet after_6.warnings ≡ true)
    calm_6 = then_emit_quiet compute_part after_6 calm_5.1

    calm_7 : (quiet databases_part.warnings ≡ true) × (quiet load_balancers_part.warnings ≡ true)
    calm_7 = then_emit_quiet databases_part load_balancers_part calm_6.1

    networks-IsIndexed :
        All (IsIndexed strip lower InWhole) (map (λ x. by_kind x.resource) i.networks)
    networks-IsIndexed =
        class-IsIndexed strip lower InWhole (λ x. x.resource) virtual_network "aws_vpc" refl
          i.networks kinded.networks_kind
          (part InWhole _ (λ _. "aws_vpc") (λ x. name_of strip lower InWhole x.resource)
            (map_virtual_network-Declares strip lower cidr_text ctx) i.networks calm_1.0
            (λ t n h. Declared-append_left t n networks_part.blocks after_1.blocks h))

    subnets-IsIndexed :
        All (IsIndexed strip lower InWhole) (map (λ x. by_kind x.resource) i.subnets)
    subnets-IsIndexed =
        class-IsIndexed strip lower InWhole (λ x. x.resource) subnet_kind "aws_subnet" refl
          i.subnets kinded.subnets_kind
          (part InWhole _ (λ _. "aws_subnet") (λ x. name_of strip lower InWhole x.resource)
            (map_subnet-Declares strip lower cidr_text ctx) i.subnets calm_2.0
            (λ t n h.
              in_after_1 t n (Declared-append_left t n subnets_part.blocks after_2.blocks h)))

    gateways-IsIndexed : All (IsIndexed strip lower InWhole) (map by_type i.gateways)
    gateways-IsIndexed = gateway_list-IsIndexed strip lower InWhole i.gateways (
        part InWhole _ (λ x. type_of_gateway x.type) (λ x. name_of strip lower InWhole x.resource)
          (map_gateway-Declares strip lower cidr_text ctx) i.gateways calm_3.0
          (λ t n h.
            in_after_2 t n (Declared-append_left t n gateways_part.blocks after_3.blocks h)))

    route_tables-IsIndexed :
        All (IsIndexed strip lower InWhole) (map (λ x. by_kind x.resource) i.route_tables)
    route_tables-IsIndexed =
        class-IsIndexed strip lower InWhole (λ x. x.resource) route_table_kind "aws_route_table"
          refl i.route_tables kinded.tables_kind
          (part InWhole _ (λ _. "aws_route_table") (λ x. name_of strip lower InWhole x.resource)
            (map_route_table-Declares strip lower cidr_text ctx) i.route_tables calm_4.0
            (λ t n h.
              in_after_3 t n (Declared-append_left t n route_tables_part.blocks after_4.blocks h)))

    security_groups-IsIndexed :
        All (IsIndexed strip lower InWhole) (map (λ x. by_kind x.resource) i.security_groups)
    security_groups-IsIndexed =
        class-IsIndexed strip lower InWhole (λ x. x.resource) security_group_kind
          "aws_security_group" refl i.security_groups kinded.groups_kind
          (part InWhole _ (λ _. "aws_security_group") (λ x. name_of strip lower InWhole x.resource)
            (map_security_group-Declares strip lower cidr_text ctx) i.security_groups calm_5.0
            (λ t n h.
              in_after_4 t n
                (Declared-append_left t n security_groups_part.blocks after_5.blocks h)))

    compute-IsIndexed :
        All (IsIndexed strip lower InWhole) (map (λ x. by_kind x.resource) i.compute)
    compute-IsIndexed =
        class-IsIndexed strip lower InWhole (λ x. x.resource) compute_kind "aws_instance" refl
          i.compute kinded.compute_kinds
          (part InWhole _ (λ _. "aws_instance") (λ x. name_of strip lower InWhole x.resource)
            (map_compute-Declares strip lower cidr_text ctx) i.compute calm_6.0
            (λ t n h.
              in_after_5 t n (Declared-append_left t n compute_part.blocks after_6.blocks h)))

    databases-IsIndexed :
        All (IsIndexed strip lower InWhole) (map (λ x. by_kind x.resource) i.databases)
    databases-IsIndexed =
        class-IsIndexed strip lower InWhole (λ x. x.resource) database_kind "aws_db_instance" refl
          i.databases kinded.databases_kind
          (part InWhole _ (λ _. "aws_db_instance") (λ x. name_of strip lower InWhole x.resource)
            (map_database-Declares strip lower cidr_text ctx) i.databases calm_7.0
            (λ t n h.
              in_after_6 t n
                (Declared-append_left t n databases_part.blocks load_balancers_part.blocks h)))

    load_balancers-IsIndexed :
        All (IsIndexed strip lower InWhole) (map (λ x. by_kind x.resource) i.load_balancers)
    load_balancers-IsIndexed =
        class-IsIndexed strip lower InWhole (λ x. x.resource) load_balancer_kind "aws_lb" refl
          i.load_balancers kinded.balancers_kind
          (part InWhole _ (λ _. "aws_lb") (λ x. name_of strip lower InWhole x.resource)
            (map_load_balancer-Declares strip lower cidr_text ctx) i.load_balancers calm_7.1
            in_after_7)

    resources-IsIndexed : All (IsIndexed strip lower InWhole) (typed_resources i)
    unfolding typed_resources
    resources-IsIndexed = join _ _ networks-IsIndexed (
        join _ _ subnets-IsIndexed (
          join _ _ route_tables-IsIndexed (
            join _ _ gateways-IsIndexed (
              join _ _ compute-IsIndexed (
                join _ _ databases-IsIndexed
                  (join _ _ load_balancers-IsIndexed (security_groups-IsIndexed)))))))
      where
        join :
            (xs ys : List (String × Option String))
            → All (IsIndexed strip lower InWhole) xs
            → All (IsIndexed strip lower InWhole) ys
            → All (IsIndexed strip lower InWhole) (xs ++ ys)
        join xs ys a b = (All-append (IsIndexed strip lower InWhole) xs ys).1 (a, b)

    pub addresses_declared : (id t n : String) → lookup id ctx.addresses ≡ some (t, n) → InWhole t n
    unfolding index_addresses
    addresses_declared id t n =
        lookup-All strip lower InWhole id t n _
          (index_from-All strip lower InWhole (typed_resources i) [] tt resources-IsIndexed)
