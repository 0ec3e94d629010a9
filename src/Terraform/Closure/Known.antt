-- ===== src/Terraform/Closure/Known.antt =====
-- src/infrastructure/generators/terraform: the expressions that name what the generated code declares.
use topo_forge_ai.Terraform.Closure.{Declared}
use topo_forge_ai.Prelude.{
  some, [], true, inl, inr, ◌∷◌, String, All, List, ◌≡◌, ◌⊎◌, ◌<>◌, In, String-Eq, ℕ,
}
use topo_forge_ai.Terraform.Mapping.{Emission, address, number_text}
use topo_forge_ai.Cloud.Resources.{
  Infrastructure, ComputeInstance, virtual_network, subnet_kind, route_table_kind, compute_kind,
  database_kind, load_balancer_kind, security_group_kind,
}
use topo_forge_ai.Terraform.Mapping.Compute.{looks_like_reference}

-- The expression is the image of one of the machines, as its author wrote it.
abbrev pub ImageOf : String → List ComputeInstance → Type 0
ImageOf x [] = ⊥
ImageOf x (c ∷ cs) = ((c.image ≡ some x) × (looks_like_reference x ≡ true)) ⊎ ImageOf x cs

-- An expression that names what the generated code declares: an attribute of a resource that one of
-- the blocks declares, a required variable, a data source of data.tf, or a machine's image.
pub data IsKnown (i : Infrastructure) (e : Emission) (x : String) : Type 0 where
  resource : (t n a : String) → x ≡ address t n a → Declared t n e.blocks → IsKnown i e x
  variable : (v : String) → x ≡ "var." <> v → In v e.variables → IsKnown i e x
  zone :
      (k : ℕ)
      → x ≡ "data.aws_availability_zones.available.names[" <> (number_text k <> "]")
      → IsKnown i e x
  default_image : x ≡ "data.aws_ami.amazon_linux.id" → IsKnown i e x
  image : ImageOf x i.compute → IsKnown i e x

-- Each resource has the kind of its class.
pub record IsKinded (i : Infrastructure) : Type 0 where
  pub networks_kind : All (λ n. n.resource.kind ≡ virtual_network) i.networks
  pub subnets_kind : All (λ s. s.resource.kind ≡ subnet_kind) i.subnets
  pub tables_kind : All (λ t. t.resource.kind ≡ route_table_kind) i.route_tables
  pub compute_kinds : All (λ c. c.resource.kind ≡ compute_kind) i.compute
  pub databases_kind : All (λ d. d.resource.kind ≡ database_kind) i.databases
  pub balancers_kind : All (λ b. b.resource.kind ≡ load_balancer_kind) i.load_balancers
  pub groups_kind : All (λ g. g.resource.kind ≡ security_group_kind) i.security_groups

pub images_known :
    (P : String → Type 0) (cs : List ComputeInstance)
    → ((x : String) → ImageOf x cs → P x)
    → All (λ c. (x : String) → c.image ≡ some x → looks_like_reference x ≡ true → P x) cs
images_known P [] h = tt
images_known P (c ∷ cs) h = (λ x e l. h x (inl (e, l)), images_known P cs (λ x m. h x (inr m)))
