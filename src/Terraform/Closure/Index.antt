-- ===== src/Terraform/Closure/Index.antt =====
-- src/infrastructure/generators/terraform/generator.py: what holds of the addresses that
-- `_index_addresses` gives.
use topo_forge_ai.Terraform.Hcl.{assign}
use topo_forge_ai.Prelude.{
  refl, some, none, [], inl, inr, ◌∷◌, String, All, List, ◌≡◌, Option, lookup, Bool-cases, ◌==◌,
  String-Eq, arith, map, subst, ap,
}
use topo_forge_ai.Terraform.Mapping.{terraform_identifier}
use topo_forge_ai.Terraform.Addresses.{index_from, type_of_kind, type_of_gateway, by_kind, by_type}
use topo_forge_ai.Cloud.Resources.{CloudResource, ResourceKind, Gateway}

module _ (strip lower : String → String) (D : String → String → Type 0) where
  abbrev pub name_of : CloudResource → String
  name_of r = terraform_identifier strip lower r.id

  -- The resource's address, if it has one, is declared.
  abbrev pub IsIndexed : String × Option String → Type 0
  IsIndexed r = (t : String) → r.1 ≡ some t → D t (terraform_identifier strip lower r.0)

  assign-All :
      (id t n : String) (d : List (String × (String × String)))
      → D t n
      → All (λ a. D a.1.0 a.1.1) d
      → All (λ a. D a.1.0 a.1.1) (assign id (t, n) d)
  assign-All id t n [] h g = (h, tt)
  assign-All id t n ((j, w) ∷ d) h g = elim (Bool-cases (j == id)) [
    | inl same ↦ rw same (h, g.1)
    | inr other ↦ rw other (g.0, assign-All id t n d h g.1)
  ]

  pub index_from-All :
      (rs : List (String × Option String)) (d : List (String × (String × String)))
      → All (λ a. D a.1.0 a.1.1) d
      → All IsIndexed rs
      → All (λ a. D a.1.0 a.1.1) (index_from strip lower d rs)
  index_from-All [] d h g = h
  index_from-All ((id, none) ∷ rs) d h g = index_from-All rs d h g.1
  index_from-All ((id, some t) ∷ rs) d h g =
      index_from-All rs _ (assign-All id t _ d (g.0 t refl) h) g.1

  pub lookup-All :
      (id t n : String) (d : List (String × (String × String)))
      → All (λ a. D a.1.0 a.1.1) d
      → lookup id d ≡ some (t, n)
      → D t n
  lookup-All id t n [] h e = absurd (cc)
  lookup-All id t n ((j, (u, m)) ∷ d) h e = elim (Bool-cases (j == id)) [
    | inl same ↦
        let found : ◌≡◌ {A = String × String} (u, m) (t, n) = ground arith in
        subst (λ p. D p.0 p.1) found h.0
    | inr other ↦ lookup-All id t n d h.1 (ground arith)
  ]

  pub class-IsIndexed :
      {A : Type 0} (resource_of : A → CloudResource) (k : ResourceKind) (t : String)
      → type_of_kind k ≡ some t
      → (xs : List A) → All (λ x. (resource_of x).kind ≡ k) xs
      → All (λ x. D t (name_of (resource_of x))) xs
      → All IsIndexed (map (λ x. by_kind (resource_of x)) xs)
  class-IsIndexed resource_of k t known [] h g = tt
  class-IsIndexed resource_of k t known (x ∷ xs) h g = (
    λ u e.
        let same : t ≡ u = cc (ap type_of_kind h.0) in
        subst (λ v. D v (name_of (resource_of x))) same g.0,
    class-IsIndexed resource_of k t known xs h.1 g.1,
  )

  pub gateway_list-IsIndexed :
      (gs : List Gateway)
      → All (λ g. D (type_of_gateway g.type) (name_of g.resource)) gs
      → All IsIndexed (map by_type gs)
  gateway_list-IsIndexed [] h = tt
  gateway_list-IsIndexed (g ∷ gs) h = (
    λ u e.
        let same : type_of_gateway g.type ≡ u = cc in
        subst (λ v. D v (name_of g.resource)) same h.0,
    gateway_list-IsIndexed gs h.1,
  )
