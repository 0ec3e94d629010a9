-- ===== src/Tests/Terraform.antt =====
-- Terraform code of a small cloud architecture.
use topo_forge_ai.Terraform.Hcl.{set, set_all, add, add_all, set_if, raw}
use topo_forge_ai.Prelude.{
  refl, some, [], true, ok, ◌∷◌, String, ◌≡◌, All, codes, ℕ, ◌++◌, Bool, arith, ◌↔◌, leb, ◌&&◌,
  ◌||◌, map, none, false, ◌<>◌,
}
use topo_forge_ai.Tests.Cloud.{small_cloud, resource_named, lan}
use topo_forge_ai.Cloud.Resources.{
  nat, Infrastructure, Gateway, gateway_kind, Subnet, Database, subnet_kind, database_kind,
  postgres,
}
use topo_forge_ai.Network.{SubnetSpec}
use topo_forge_ai.Generation.{GeneratedFile, TerraformProject}
use topo_forge_ai.Terraform.Mapping.{reference, terraform_identifier, base_tags, provenance}
use topo_forge_ai.Terraform.Mapping.Network.{
  map_virtual_network, map_subnet, map_route_table, map_route, map_association,
}
use topo_forge_ai.Terraform.Mapping.Gateways.{map_gateway, map_internet, map_nat}
use topo_forge_ai.Terraform.Mapping.Security.{map_security_group, map_rule}
use topo_forge_ai.Terraform.Mapping.Compute.{map_compute, map_nics, primary_subnet, is_secondary}
use topo_forge_ai.Terraform.Addresses.{
  emit_architecture, emit_resources, index_addresses, typed_resources,
}
use topo_forge_ai.Terraform.Closure.Known.{IsKnown, IsKinded}
use topo_forge_ai.Terraform.Closure.Emissions.{quiet}
use topo_forge_ai.Terraform.Closure.{BlockHas, header_of}
use topo_forge_ai.Terraform.Closure.Complete.{emit_architecture-IsClosed}
use topo_forge_ai.Terraform.Hcl.Escape.{escape, read_quoted}
use topo_forge_ai.Terraform.Hcl.Escape.RoundTrip.{read_quoted-escape}
use topo_forge_ai.Terraform.Hcl.Render.{render_key}
use topo_forge_ai.Terraform.Hcl.Render.Keys.{read_key-render_key, read_key}
use topo_forge_ai.Terraform.Generator.{generate, default_settings, variables_blocks}
use topo_forge_ai.Terraform.Generator.Accepts.{generate_iff, IsAccepted}
use topo_forge_ai.Terraform.Generator.Secrets.{
  variables_blocks-DeclaresSecret, DeclaresSecret, IsGenerated, TakesPassword,
}

abbrev as_it_is : String → String
as_it_is s = s

abbrev some_range : SubnetSpec → String
some_range s = "10.0.0.0/24"

abbrev infrastructure : Infrastructure
infrastructure = small_cloud.infrastructure

small_cloud-IsKinded : IsKinded infrastructure
small_cloud-IsKinded = record {
  networks_kind = (refl, tt);
  subnets_kind = (refl, tt);
  tables_kind = (refl, tt);
  compute_kinds = (refl, tt);
  databases_kind = tt;
  balancers_kind = tt;
  groups_kind = (refl, tt);
}

small_cloud_quiet :
    quiet (emit_architecture as_it_is as_it_is some_range infrastructure).warnings ≡ true
unfolding emit_architecture emit_resources index_addresses typed_resources reference
    terraform_identifier map_virtual_network map_subnet map_route_table map_route map_association
    map_gateway map_internet map_security_group map_rule map_compute map_nics primary_subnet
    is_secondary
small_cloud_quiet = refl

emit_architecture-IsClosed_example :
    All
      (BlockHas
        (IsKnown infrastructure (emit_architecture as_it_is as_it_is some_range infrastructure)))
      (emit_architecture as_it_is as_it_is some_range infrastructure).blocks
emit_architecture-IsClosed_example =
    emit_architecture-IsClosed as_it_is as_it_is some_range infrastructure small_cloud-IsKinded
      small_cloud_quiet

headers_of_small_cloud :
    map header_of (emit_architecture as_it_is as_it_is some_range infrastructure).blocks
    ≡ ("resource", "aws_vpc" ∷ "vpc" ∷ [])
      ∷ ("resource", "aws_subnet" ∷ "lan" ∷ [])
      ∷ ("resource", "aws_internet_gateway" ∷ "igw" ∷ [])
      ∷ ("resource", "aws_route_table" ∷ "rt" ∷ [])
      ∷ ("resource", "aws_route_table_association" ∷ "rt_lan" ∷ [])
      ∷ ("resource", "aws_security_group" ∷ "sg" ∷ [])
      ∷ ("resource", "aws_instance" ∷ "server" ∷ [])
      ∷ []
unfolding emit_architecture emit_resources index_addresses typed_resources reference
    terraform_identifier map_virtual_network map_subnet map_route_table map_route map_association
    map_gateway map_internet map_security_group map_rule map_compute map_nics primary_subnet
    is_secondary base_tags provenance set set_all add add_all set_if
headers_of_small_cloud = refl

read_quoted-escape_example :
    read_quoted (escape (codes "a${b}\\") ++ b'"' ∷ codes " x") ≡ some (codes "a${b}\\", codes " x")
read_quoted-escape_example = read_quoted-escape (codes "a${b}\\") (codes " x")

abbrev is_letter : ℕ → Bool
is_letter c = (leb 97 c && leb c 122) || (leb 65 c && leb c 90)

read_key-render_key_example :
    read_key is_letter is_letter (render_key is_letter is_letter (codes "a\"b"))
    ≡ some (codes "a\"b")
read_key-render_key_example =
    read_key-render_key is_letter is_letter is_letter is_letter (codes "a\"b") refl refl

bare_key :
    read_key is_letter is_letter (render_key is_letter is_letter (codes "Name"))
    ≡ some (codes "Name")
unfolding render_key
bare_key = refl

-- The key `for` is written bare, and HCL reads no key there.
key_of_for :
    (render_key is_letter is_letter (codes "for") ≡ codes "for")
    × (read_key is_letter is_letter (codes "for") ≡ none)
unfolding render_key
key_of_for = (refl, refl)

abbrev readme : GeneratedFile
readme = record { path = "README.md"; content = []; language = some "markdown" }

generate_iff_example :
    ((p : TerraformProject) × (generate as_it_is as_it_is some_range is_letter is_letter
          default_settings small_cloud readme
        ≡ ok p))
    ↔ IsAccepted as_it_is as_it_is some_range small_cloud
generate_iff_example =
    generate_iff as_it_is as_it_is some_range is_letter is_letter default_settings small_cloud
      readme

abbrev second_lan : Subnet
second_lan = record lan { resource = resource_named "dmz" subnet_kind }

abbrev store : Database
store = record {
  resource = resource_named "db" database_kind;
  engine = postgres;
  engine_version = none;
  instance_class = "db.t3.micro";
  allocated_storage_gb = 20;
  multi_az = false;
  subnet_ids = "lan" ∷ "dmz" ∷ [];
  security_group_ids = "sg" ∷ [];
  publicly_accessible = false;
  credentials_secret_ref = none;
}

abbrev with_store : Infrastructure
with_store = record infrastructure { subnets = lan ∷ second_lan ∷ []; databases = store ∷ [] }

store-IsGenerated :
    IsGenerated as_it_is as_it_is (index_addresses as_it_is as_it_is with_store) store
unfolding index_addresses typed_resources reference terraform_identifier
store-IsGenerated = omega arith

variables_blocks-DeclaresSecret_example :
    TakesPassword
      (terraform_identifier as_it_is as_it_is "db")
      (terraform_identifier as_it_is as_it_is "db" <> "_password")
      (emit_architecture as_it_is as_it_is some_range with_store).blocks
    × DeclaresSecret (terraform_identifier as_it_is as_it_is "db" <> "_password") (
        variables_blocks "eu-west-1"
          (emit_architecture as_it_is as_it_is some_range with_store).variables)
variables_blocks-DeclaresSecret_example =
    variables_blocks-DeclaresSecret as_it_is as_it_is some_range "eu-west-1" with_store [] [] store
      refl store-IsGenerated

name_of_store : terraform_identifier as_it_is as_it_is "db" ≡ "db"
unfolding terraform_identifier
name_of_store = refl

-- A NAT gateway that lies in no subnet, and a route to it.
abbrev lost_gateway : Gateway
lost_gateway = record {
  resource = resource_named "nat" gateway_kind;
  type = nat;
  network_id = some "vpc";
  subnet_id = none;
  peer_network_ids = [];
  allocate_public_ip = false;
}

abbrev with_lost_gateway : Infrastructure
with_lost_gateway = record infrastructure { gateways = lost_gateway ∷ [] }

lost_gateway_not_declared :
    (map_gateway as_it_is as_it_is lost_gateway
      (index_addresses as_it_is as_it_is with_lost_gateway)).blocks
    ≡ []
unfolding map_gateway map_nat
lost_gateway_not_declared = refl

lost_gateway_referenced :
    reference (index_addresses as_it_is as_it_is with_lost_gateway) "nat"
    ≡ some (raw "aws_nat_gateway.nat.id")
unfolding index_addresses typed_resources reference terraform_identifier
lost_gateway_referenced = refl

same_identifier :
    terraform_identifier as_it_is as_it_is "a-b" ≡ terraform_identifier as_it_is as_it_is "a_b"
unfolding terraform_identifier
same_identifier = refl
