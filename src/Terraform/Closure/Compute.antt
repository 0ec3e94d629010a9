-- ===== src/Terraform/Closure/Compute.antt =====
-- src/infrastructure/generators/terraform/mappings/aws.py: machines: the expressions in their blocks.
use topo_forge_ai.Generation.{medium}
use topo_forge_ai.Identifiers.{is_empty_text}
use topo_forge_ai.Terraform.Closure.{
  ValueHas, AttributesHave, BlockHas, set-BlockHas, items_of-ItemsHave, set_all-BlockHas,
  reference_if-ValueHas, tags-ValueHas, header_of-set_all, set_if-BlockHas, header_of-add_all,
  header_of-set_if, reference-ValueHas, header_of-set, add_all-BlockHas, references-ValueHas,
}
use topo_forge_ai.Terraform.Hcl.{HclValue}
use topo_forge_ai.Prelude.{
  refl, some, none, [], true, false, inl, inr, zero, suc, ◌∷◌, String, Bool, Option, List, ℕ, ◌≡◌,
  All, In, Bool-cases, String-Eq, ◌∙◌, ◌+◌, if◌then◌else◌, All-append, arith, contains-append,
}
use topo_forge_ai.Terraform.Mapping.{
  MappingContext, Emission, terraform_identifier, emit_blocks, reference_if, reference,
  emit_warning, text_if, references,
}
use topo_forge_ai.Terraform.Closure.Emissions.{
  Grounds, IsSound, on_reference-IsSound, on_reference_else-IsSound, then_emit-IsSound,
}
use topo_forge_ai.Cloud.Resources.{ComputeInstance, NetworkInterfaceSpec}
use topo_forge_ai.Terraform.Mapping.Compute.{
  map_compute, map_nics, nic_blocks, image_value, key_value, key_variables, group_attribute,
  root_device, address_items, when, is_secondary, looks_like_reference, primary_subnet,
}

module _ (K : String → Type 0) where
  when-AttributesHave :
      (b : Bool) (attributes : List (String × HclValue))
      → AttributesHave K attributes
      → AttributesHave K (when b attributes)
  when-AttributesHave true attributes h = h
  when-AttributesHave false attributes h = tt

  root_device-BlockHas : (o : Option ℕ) → All (BlockHas K) (root_device o)
  root_device-BlockHas none = tt
  root_device-BlockHas (some zero) = tt
  root_device-BlockHas (some (suc gb)) = (set-BlockHas K _ _ _ tt (tt, tt), tt)

  address-ValueHas : (o : Option String) → ValueHas K (address_items o)
  address-ValueHas none = tt
  address-ValueHas (some a) = (tt, tt)

  pub group-AttributesHave :
      (vs : List HclValue) → All (ValueHas K) vs → AttributesHave K (group_attribute vs)
  group-AttributesHave [] h = tt
  group-AttributesHave (v ∷ vs) h = (items_of-ItemsHave K (v ∷ vs) h, tt)

module _ (strip lower : String → String) {K : String → Type 0} {D : String → String → Type 0}
    {V : String → Type 0} {ctx : MappingContext} (g : Grounds K D V ctx) where
  abbrev Sound : Emission → Type 0
  Sound = IsSound K D V

  image-ValueHas :
      (o : Option String)
      → ((image : String) → o ≡ some image → looks_like_reference image ≡ true → K image)
      → ValueHas K (image_value o)
  unfolding image_value
  image-ValueHas none h = g.image_known
  image-ValueHas (some image) h = elim (Bool-cases (looks_like_reference image)) [
    | inl refers ↦ rw refers (h image refl refers)
    | inr plain ↦ elim (Bool-cases (is_empty_text image)) [
      | inl gone ↦ rw plain (rw gone g.image_known)
      | inr there ↦ rw plain (rw there tt)
    ]
  ]

  key-ValueHas :
      (o : Option String) → ((v : String) → In v (key_variables o) → V v) → ValueHas K (key_value o)
  key-ValueHas none h = g.variable "ssh_key_name" (h "ssh_key_name" refl)
  key-ValueHas (some k) h = tt

  nic_blocks-BlockHas :
      (c : ComputeInstance) (nic : NetworkInterfaceSpec) (k : ℕ) (subnet : HclValue)
      → D "aws_instance" (terraform_identifier strip lower c.resource.id)
      → ValueHas K subnet
      → Sound (emit_blocks (nic_blocks strip lower c nic k subnet))
  nic_blocks-BlockHas c nic k subnet d h declared variables = (
    set_all-BlockHas K _ _ (tt, (tags-ValueHas K _, tt))
        (set_if-BlockHas K _ _ _ (address-ValueHas K (text_if nic.private_ip))
          (set-BlockHas K _ _ _ h (tt, tt))),
    (
      set_all-BlockHas K _ _
          (
            g.owned "aws_instance" _ "id" d,
            (
              g.owned "aws_network_interface" _ "id" (
                  declared "aws_network_interface" _
                    (inl (header_of-set_all _ _ ∙ header_of-set_if _ _ _ ∙ header_of-set _ _ _))),
              (tt, tt),
            ),
          )
          (tt, tt),
      tt,
    ),
  )

  cond-IsSound : (b : Bool) (e f : Emission) → Sound e → Sound f → Sound (if b then e else f)
  cond-IsSound true e f h k = h
  cond-IsSound false e f h k = k

  map_nics-IsSound :
      (c : ComputeInstance)
      → D "aws_instance" (terraform_identifier strip lower c.resource.id)
      → (k : ℕ) (nics : List NetworkInterfaceSpec) → Sound (map_nics strip lower c ctx k nics)
  unfolding map_nics
  map_nics-IsSound c d k [] = λ _ _. tt
  map_nics-IsSound c d k (nic ∷ nics) =
      cond-IsSound (is_secondary c nic) _ _
        (on_reference_else-IsSound K D V (reference ctx nic.subnet_id) _ _
          (then_emit-IsSound K D V (emit_warning medium "unresolved_interface_subnet" c.resource.id)
            (map_nics strip lower c ctx k nics) (λ _ _. tt) (map_nics-IsSound c d k nics))
          (reference-ValueHas K ctx g.known nic.subnet_id)
          (λ v h.
            then_emit-IsSound K D V (emit_blocks (nic_blocks strip lower c nic k v))
              (map_nics strip lower c ctx (k + 2) nics) (nic_blocks-BlockHas c nic k v d h)
              (map_nics-IsSound c d (k + 2) nics)))
        (map_nics-IsSound c d k nics)

  pub map_compute-IsSound :
      (c : ComputeInstance)
      → ((image : String) → c.image ≡ some image → looks_like_reference image ≡ true → K image)
      → Sound (map_compute strip lower c ctx)
  unfolding map_compute
  map_compute-IsSound c image =
      on_reference-IsSound K D V (reference_if ctx (primary_subnet c)) _ _ _ _
        (reference_if-ValueHas K ctx g.known (primary_subnet c))
        (λ v h declared variables.
          let own_instance =
            declared "aws_instance" (terraform_identifier strip lower c.resource.id)
              (inl (header_of-set_all _ _ ∙ header_of-add_all _ _ ∙ header_of-set_all _ _)) in
          (
            set_all-BlockHas K _ _ (tags-ValueHas K _, tt)
                (add_all-BlockHas K _ _ (root_device-BlockHas K c.root_volume_gb) (
                  set_all-BlockHas K _ _
                    (
                      image-ValueHas c.image image,
                      (
                        tt,
                        (
                          h,
                          (All-append (λ a. ValueHas K a.1)
                                (group_attribute (references ctx c.security_group_ids)) _).1
                              (
                                group-AttributesHave K _
                                    (references-ValueHas K ctx g.known c.security_group_ids),
                                (All-append (λ a. ValueHas K a.1) (when c.assign_public_ip _) _).1 (
                                  when-AttributesHave K c.assign_public_ip _ (tt, tt),
                                  (All-append (λ a. ValueHas K a.1) (when c.is_forwarder _) _).1 (
                                    when-AttributesHave K c.is_forwarder _ (tt, tt),
                                    (
                                      key-ValueHas (text_if c.key_name) (λ v k. variables v (
                                          ground (
                                            arith,
                                            contains-append (key_variables (text_if c.key_name))
                                                (map_nics strip lower c ctx 1
                                                  c.interfaces).variables
                                                v,
                                          ))),
                                      tt,
                                    ),
                                  ),
                                ),
                              ),
                        ),
                      ),
                    )
                    (tt, tt))),
            map_nics-IsSound c own_instance 1 c.interfaces (λ t n d. declared t n (inr d))
                (λ v k. variables v (
                  ground (
                    arith,
                    contains-append (key_variables (text_if c.key_name))
                        (map_nics strip lower c ctx 1 c.interfaces).variables v,
                  ))),
          ))
