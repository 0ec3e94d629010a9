-- ===== src/Terraform/Generator/Secrets.antt =====
-- src/infrastructure/generators/terraform/generator.py: the variables that hold passwords.
use topo_forge_ai.Terraform.Mapping.Compute.{map_compute}
use topo_forge_ai.Terraform.Mapping.Security.{map_security_group}
use topo_forge_ai.Terraform.Mapping.Gateways.{map_gateway}
use topo_forge_ai.Terraform.Mapping.Network.{map_virtual_network, map_subnet, map_route_table}
use topo_forge_ai.Network.{SubnetSpec}
use topo_forge_ai.Terraform.Mapping.Data.{
  map_database, database_blocks, map_database_in, map_load_balancer,
}
use topo_forge_ai.Cloud.Resources.{Database, Infrastructure}
use topo_forge_ai.Terraform.Addresses.{emit_architecture, emit_resources, index_addresses}
use topo_forge_ai.Terraform.Mapping.{
  Emission, MappingContext, ◌then_emit◌, terraform_identifier, references, emit_each,
}
use text.Mathlib.TextLemmas.{nil-append, cons-append}
use topo_forge_ai.Terraform.Closure.{header_of}
use topo_forge_ai.Terraform.Hcl.{Block, set_all, HclValue, set, block, flag, raw, set_if}
use topo_forge_ai.Prelude.{
  ◌<>◌, refl, some, [], true, inl, inr, ◌∷◌, String, List, ◌≡◌, contains, In, lookup, map, insert,
  sorted, arith, Bool-cases, str_le, eq_iff, dedup, ◌⊎◌, ◌∙◌, ◌==◌, String-Eq, subst,
  contains-dedup, ◌||◌, sym, none, ◌++◌, ◌≤◌, Option, All, contains-append, length, All-map,
  All-append,
}
use topo_forge_ai.Terraform.Generator.{
  variables_blocks, variable_block, sorted_names, ends_with, is_secret,
}

abbrev attributes_of : Block → List (String × HclValue)
attributes_of (block type labels comments attributes inner) = attributes

-- One of the blocks declares the variable, and marks it as sensitive.
abbrev pub DeclaresSecret : String → List Block → Type 0
DeclaresSecret v [] = ⊥
DeclaresSecret v (b ∷ bs) =
    ((header_of b ≡ ("variable", v ∷ []))
      × (lookup "sensitive" (attributes_of b) ≡ some (flag true)))
    ⊎ DeclaresSecret v bs

variable_block_secret :
    (v : String)
    → is_secret v ≡ true
    → (header_of (variable_block v) ≡ ("variable", v ∷ []))
      × (lookup "sensitive" (attributes_of (variable_block v)) ≡ some (flag true))
unfolding variable_block set_all set
variable_block_secret v h = rw h (refl, refl)

blocks_secret :
    (v : String) (vs : List String)
    → is_secret v ≡ true
    → In v vs
    → DeclaresSecret v (map variable_block vs)
blocks_secret v [] h m = absurd (cc)
blocks_secret v (u ∷ vs) h m = elim (Bool-cases (u == v)) [
  | inl same ↦
      let eq : u ≡ v = (eq_iff u v).0 same in
      inl (
        subst
          (λ w.
            (header_of (variable_block w) ≡ ("variable", v ∷ []))
            × (lookup "sensitive" (attributes_of (variable_block w)) ≡ some (flag true)))
          (sym eq) (variable_block_secret v h))
  | inr other ↦ inr (blocks_secret v vs h (ground arith))
]

contains-insert :
    (x y : String) (xs : List String) → contains (insert str_le x xs) y ≡ (x == y || contains xs y)
contains-insert x y [] = refl
contains-insert x y (z ∷ zs) = ground (arith, contains-insert x y zs)

contains-sorted : (xs : List String) (y : String) → contains (sorted str_le xs) y ≡ contains xs y
contains-sorted [] y = refl
contains-sorted (x ∷ xs) y =
    ground (arith, contains-insert x y (sorted str_le xs), contains-sorted xs y)

ends_with_refl : (suffix : String) → ends_with suffix suffix ≡ true
ends_with_refl String.[] = refl
ends_with_refl (String.◌∷◌ c s) = ground (arith, eq_iff (String.◌∷◌ c s) (String.◌∷◌ c s))

ends_with-append : (s suffix : String) → ends_with suffix (s <> suffix) ≡ true
ends_with-append String.[] suffix = rw (nil-append suffix) (ends_with_refl suffix)
ends_with-append (String.◌∷◌ c s) suffix =
    rw (cons-append c s suffix) (ground (arith, ends_with-append s suffix))

-- One of the blocks is a database of the name that takes its password from the variable.
abbrev pub TakesPassword : String → String → List Block → Type 0
TakesPassword name v [] = ⊥
TakesPassword name v (b ∷ bs) =
    ((header_of b ≡ ("resource", "aws_db_instance" ∷ name ∷ []))
      × (lookup "password" (attributes_of b) ≡ some (raw ("var." <> v))))
    ⊎ TakesPassword name v bs

-- An emission has such a database, and requires its variable.
abbrev Requires : String → Emission → Type 0
Requires name e =
    TakesPassword name (name <> "_password") e.blocks × In (name <> "_password") e.variables

TakesPassword-before :
    (name v : String) (bs cs : List Block)
    → TakesPassword name v bs
    → TakesPassword name v (bs ++ cs)
TakesPassword-before name v [] cs h = absurd h
TakesPassword-before name v (b ∷ bs) cs (inl here) = inl here
TakesPassword-before name v (b ∷ bs) cs (inr later) = inr (TakesPassword-before name v bs cs later)

TakesPassword-behind :
    (name v : String) (bs cs : List Block)
    → TakesPassword name v cs
    → TakesPassword name v (bs ++ cs)
TakesPassword-behind name v [] cs h = h
TakesPassword-behind name v (b ∷ bs) cs h = inr (TakesPassword-behind name v bs cs h)

Requires-before : (name : String) (e f : Emission) → Requires name e → Requires name (e then_emit f)
Requires-before name e f (takes, required) = (
  TakesPassword-before name (name <> "_password") e.blocks f.blocks takes,
  ground (arith, contains-append e.variables f.variables (name <> "_password")),
)

Requires-behind : (name : String) (e f : Emission) → Requires name f → Requires name (e then_emit f)
Requires-behind name e f (takes, required) = (
  TakesPassword-behind name (name <> "_password") e.blocks f.blocks takes,
  ground (arith, contains-append e.variables f.variables (name <> "_password")),
)

module _ (strip lower : String → String) where
  abbrev name_of : Database → String
  name_of d = terraform_identifier strip lower d.resource.id

  -- The database is generated where two of its subnets have an address.
  abbrev pub IsGenerated : MappingContext → Database → Type 0
  IsGenerated ctx d = 2 ≤ length (references ctx d.subnet_ids)

  database-TakesPassword :
      (d : Database) (ctx : MappingContext) (subnets groups : List HclValue)
      (version : Option String)
      → references ctx d.security_group_ids ≡ groups
      → d.engine_version ≡ version
      → TakesPassword
          (name_of d)
          (name_of d <> "_password")
          (database_blocks strip lower d ctx subnets)
  unfolding set_all set set_if
  database-TakesPassword d ctx subnets [] none e v = rw (e, v) (inr (inl (refl, refl)))
  database-TakesPassword d ctx subnets [] (some t) e v = rw (e, v) (inr (inl (refl, refl)))
  database-TakesPassword d ctx subnets (g ∷ gs) none e v = rw (e, v) (inr (inl (refl, refl)))
  database-TakesPassword d ctx subnets (g ∷ gs) (some t) e v = rw (e, v) (inr (inl (refl, refl)))

  map_database_in-Requires :
      (d : Database) (ctx : MappingContext) (subnets : List HclValue)
      → 2 ≤ length subnets
      → Requires (name_of d) (map_database_in strip lower d ctx subnets)
  map_database_in-Requires d ctx [] h = absurd (omega arith)
  map_database_in-Requires d ctx (a ∷ []) h = absurd (omega arith)
  map_database_in-Requires d ctx (a ∷ b ∷ more) h = (
    database-TakesPassword d ctx (a ∷ b ∷ more) _ _ refl refl,
    ground (arith, eq_iff (name_of d <> "_password") (name_of d <> "_password")),
  )

  databases-Require :
      (ctx : MappingContext) (ds : List Database)
      → All
          (λ d.
            IsGenerated ctx d
            → Requires (name_of d) (emit_each (λ x. map_database strip lower x ctx) ds))
          ds
  unfolding map_database
  databases-Require ctx [] = tt
  databases-Require ctx (d ∷ ds) =
      let rest = emit_each (λ x. map_database strip lower x ctx) ds in
      (
        λ h.
            Requires-before (name_of d) (map_database strip lower d ctx) rest
              (map_database_in-Requires d ctx (references ctx d.subnet_ids) h),
        All-map _ _
            (λ x later h.
              Requires-behind (name_of x) (map_database strip lower d ctx) rest (later h))
            ds (databases-Require ctx ds),
      )

-- Every password of a required variable is declared and marked as sensitive.
declares_required :
    (region name : String) (variables : List String)
    → In (name <> "_password") variables
    → DeclaresSecret (name <> "_password") (variables_blocks region variables)
unfolding variables_blocks
declares_required region name variables m =
    let v = name <> "_password" in
    inr (
      blocks_secret v (sorted_names variables) (ground (arith, ends_with-append name "_password"))
        (contains-sorted (dedup variables) v ∙ contains-dedup variables v ∙ m))

-- For every database of the infrastructure of whose subnets two or more have an address, the generated
-- code has a database block that takes its password from a variable of its own, and the generated
-- variables.tf declares this variable and marks it as sensitive.
pub variables_blocks-DeclaresSecret :
    (strip lower : String → String) (cidr_text : SubnetSpec → String) (region : String)
    (i : Infrastructure) (before after : List Database) (d : Database)
    → i.databases ≡ before ++ d ∷ after
    → IsGenerated strip lower (index_addresses strip lower i) d
    → let e = emit_architecture strip lower cidr_text i in
      let name = terraform_identifier strip lower d.resource.id in
      TakesPassword name (name <> "_password") e.blocks
      × DeclaresSecret (name <> "_password") (variables_blocks region e.variables)
unfolding emit_architecture emit_resources
variables_blocks-DeclaresSecret strip lower cidr_text region i before after d split generated =
    let ctx = index_addresses strip lower i in
    let networks = emit_each (λ n. map_virtual_network strip lower cidr_text n ctx) i.networks in
    let subnets = emit_each (λ s. map_subnet strip lower cidr_text s ctx) i.subnets in
    let gateways = emit_each (λ g. map_gateway strip lower g ctx) i.gateways in
    let tables = emit_each (λ t. map_route_table strip lower cidr_text t ctx) i.route_tables in
    let groups = emit_each (λ g. map_security_group strip lower g ctx) i.security_groups in
    let compute = emit_each (λ c. map_compute strip lower c ctx) i.compute in
    let databases = emit_each (λ d. map_database strip lower d ctx) i.databases in
    let balancers = emit_each (λ b. map_load_balancer strip lower b ctx) i.load_balancers in
    let all = emit_architecture strip lower cidr_text i in
    let each = subst (All _) split (databases-Require strip lower ctx i.databases) in
    let h = ((All-append _ before (d ∷ after)).0 each).1.0 in
    let name = name_of strip lower d in
    let e₁ = Requires-before name databases balancers (h generated) in
    let e₂ = Requires-behind name compute (databases then_emit balancers) e₁ in
    let e₃ = Requires-behind name groups (compute then_emit databases then_emit balancers) e₂ in
    let e₄ =
      Requires-behind name tables (groups then_emit compute then_emit databases then_emit balancers)
        e₃ in
    let e₅ =
      Requires-behind name gateways
        (tables then_emit groups then_emit compute then_emit databases then_emit balancers) e₄ in
    let e₆ =
      Requires-behind name subnets
        (gateways then_emit tables then_emit groups then_emit compute then_emit databases
          then_emit balancers)
        e₅ in
    let (takes, required) : Requires name all =
      Requires-behind name networks
        (subnets then_emit gateways then_emit tables then_emit groups then_emit compute
          then_emit databases then_emit balancers)
        e₆ in
    (takes, declares_required region name all.variables required)
