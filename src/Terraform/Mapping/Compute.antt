-- ===== src/Terraform/Mapping/Compute.antt =====
-- src/infrastructure/generators/terraform/mappings/aws.py: machines.
use topo_forge_ai.Assembler.Gateways.{starts_with, occurs_in}
use topo_forge_ai.Generation.{high, medium}
use topo_forge_ai.Identifiers.{is_empty_text}
use topo_forge_ai.Terraform.Hcl.{
  HclValue, raw, listed, Block, nothing, quoted, items_of, set, item, set_all, int, assign,
  no_items, flag, new_block, set_if, add_all,
}
use topo_forge_ai.Prelude.{
  ◌<>◌, some, none, [], true, false, zero, suc, ◌∷◌, String, Option, List, Bool, not, ℕ, ◌==◌, ◌||◌,
  if◌then◌else◌, String-Eq, nonempty, ◌+◌, ◌&&◌, ◌++◌,
}
use topo_forge_ai.Value.{pos}
use topo_forge_ai.Terraform.Mapping.{
  MappingContext, Emission, text_if, base_tags, reference_if, no_emission, terraform_identifier,
  emit_warning, own, reference, tags_value, ◌then_emit◌, join, emit_blocks, references, provenance,
  on_reference,
}
use topo_forge_ai.Cloud.Resources.{ComputeInstance, NetworkInterfaceSpec}

-- `_looks_like_reference`
unfoldable pub looks_like_reference : String → Bool
looks_like_reference value =
    not (is_empty_text value) && (not (starts_with "ami-" value) && occurs_in value ".")

unfoldable pub image_value : Option String → HclValue
image_value none = raw "data.aws_ami.amazon_linux.id"
image_value (some image) =
    if looks_like_reference image
    then raw image
    else (if is_empty_text image then raw "data.aws_ami.amazon_linux.id" else quoted image)

abbrev first_subnet : List NetworkInterfaceSpec → Option String
first_subnet [] = none
first_subnet (n ∷ ns) = some n.subnet_id

-- `instance.subnet_id or (instance.interfaces[0].subnet_id if instance.interfaces else None)`
unfoldable pub primary_subnet : ComputeInstance → Option String
primary_subnet c = elim (text_if c.subnet_id) [ none ↦ first_subnet c.interfaces | some s ↦ some s ]

abbrev is_primary_subnet : Option String → String → Bool
is_primary_subnet none s = false
is_primary_subnet (some p) s = s == p

unfoldable pub is_secondary : ComputeInstance → NetworkInterfaceSpec → Bool
is_secondary c n = not (n.primary || is_primary_subnet (primary_subnet c) n.subnet_id)

abbrev pub when : Bool → List (String × HclValue) → List (String × HclValue)
when true attributes = attributes
when false attributes = []

abbrev pub group_attribute : List HclValue → List (String × HclValue)
group_attribute [] = []
group_attribute (g ∷ gs) = ("vpc_security_group_ids", listed (items_of (g ∷ gs))) ∷ []

-- The key pair: the instance's own, or a variable that the project must declare.
abbrev pub key_value : Option String → HclValue
key_value none = raw "var.ssh_key_name"
key_value (some k) = quoted k

abbrev pub key_variables : Option String → List String
key_variables none = "ssh_key_name" ∷ []
key_variables (some k) = []

abbrev pub root_device : Option ℕ → List Block
root_device none = []
root_device (some zero) = []
root_device (some (suc gb)) =
    set "volume_size" (int (pos (suc gb))) (new_block "root_block_device" [] []) ∷ []

unfoldable pub compute_tags : ComputeInstance → List (String × String)
compute_tags c =
    let tags = base_tags c.resource in
    let with_roles =
      if nonempty c.roles then assign "topoforge:roles" (join "," c.roles) tags else tags in
    if c.is_bastion then assign "topoforge:bastion" "true" with_roles else with_roles

abbrev pub address_items : Option String → HclValue
address_items none = nothing
address_items (some a) = listed (item (quoted a) no_items)

module _ (strip lower : String → String) where
  abbrev pub nic_blocks : ComputeInstance → NetworkInterfaceSpec → ℕ → HclValue → List Block
  nic_blocks c nic device_index subnet =
      let name = terraform_identifier strip lower c.resource.id in
      let nic_name = name <> ("_" <> terraform_identifier strip lower nic.id) in
      set_all
        (("source_dest_check", flag nic.source_dest_check)
          ∷ tags_value (assign "Name" nic.id (base_tags c.resource))
          ∷ [])
        (set_if "private_ips" (address_items (text_if nic.private_ip)) (
          set "subnet_id" subnet
            (new_block "resource" ("aws_network_interface" ∷ nic_name ∷ []) [])))
      ∷ set_all
          (("instance_id", own "aws_instance" name "id")
            ∷ ("network_interface_id", own "aws_network_interface" nic_name "id")
            ∷ ("device_index", int (pos device_index))
            ∷ [])
          (new_block "resource" ("aws_network_interface_attachment" ∷ nic_name ∷ []) [])
      ∷ []

  -- The loop over the interfaces; the number is that of the blocks so far.
  unfoldable pub map_nics :
      ComputeInstance → MappingContext → ℕ → List NetworkInterfaceSpec → Emission
  map_nics c ctx so_far [] = no_emission
  map_nics c ctx so_far (nic ∷ nics) =
      let skipped = map_nics c ctx so_far nics in
      let placed = map_nics c ctx (so_far + 2) nics in
      if is_secondary c nic
      then on_reference (reference ctx nic.subnet_id)
          (emit_warning medium "unresolved_interface_subnet" c.resource.id then_emit skipped)
          (λ subnet. emit_blocks (nic_blocks c nic so_far subnet) then_emit placed)
      else skipped

  abbrev pub compute_block : ComputeInstance → MappingContext → HclValue → Block
  compute_block c ctx subnet =
      let name = terraform_identifier strip lower c.resource.id in
      set_all (tags_value (compute_tags c) ∷ []) (
        add_all (root_device c.root_volume_gb) (
          set_all
            (("ami", image_value c.image)
                ∷ ("instance_type", quoted c.instance_type)
                ∷ ("subnet_id", subnet)
                ∷ group_attribute (references ctx c.security_group_ids)
              ++ (when c.assign_public_ip (("associate_public_ip_address", flag true) ∷ [])
                  ++ (when c.is_forwarder (("source_dest_check", flag false) ∷ [])
                      ++ ("key_name", key_value (text_if c.key_name)) ∷ [])))
            (new_block "resource" ("aws_instance" ∷ name ∷ []) (provenance c.resource))))

  abbrev pub compute_outputs : ComputeInstance → List (String × (HclValue × String))
  compute_outputs c =
      let name = terraform_identifier strip lower c.resource.id in
      (
        name <> "_private_ip",
        (own "aws_instance" name "private_ip", "Private address of " <> c.resource.logical_name),
      )
      ∷ (if c.assign_public_ip
          then (
            name <> "_public_ip",
            (own "aws_instance" name "public_ip", "Public address of " <> c.resource.logical_name),
          )
            ∷ []
          else [])

  unfoldable pub map_compute : ComputeInstance → MappingContext → Emission
  map_compute c ctx =
      on_reference (reference_if ctx (primary_subnet c))
        (emit_warning high "compute_without_subnet" c.resource.id)
        (λ subnet.
          record {
            blocks = compute_block c ctx subnet ∷ [];
            warnings = [];
            variables = key_variables (text_if c.key_name);
            outputs = compute_outputs c;
          }
          then_emit map_nics c ctx 1 c.interfaces)
