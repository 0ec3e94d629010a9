-- ===== src/Cloud.antt =====
-- src/domain/cloud/models.py: the cloud architecture, the answer of the translation and the input of
-- the generators. Left out are what no operation reads: assumptions, warnings, references, identity
-- requirements, unresolved fields, evidence, extensions, and in the metadata the texts, the time
-- stamp and the producers.
pub mod Resources
pub mod Hosts
pub mod Integrity
pub mod Validators
pub mod Sound
use topo_forge_ai.Cloud.Hosts.{Configuration, ConfigurationHost, has_nothing}
use topo_forge_ai.Issues.{ValidationReport}
use topo_forge_ai.Cloud.Resources.{
  Infrastructure, CloudProvider, CloudResource, Subnet, NetworkInterfaceSpec, ComputeInstance,
  is_empty, all_resources,
}
use topo_forge_ai.Prelude.{
  some, none, [], ok, ◌∷◌, String, List, Result, Bool, Option, map, ◌&&◌, not, filter, ℕ, require,
  nonempty, contains, String-Eq, ◌>>◌, for_each, has_duplicates,
}

pub data RelationshipType : Type 0 where
  contains_part attached_to routes_via peered_with secured_by targets configured_by derived_from :
      RelationshipType

pub record Relationship : Type 0 where
  pub id : String
  pub type : RelationshipType
  pub source_id : String
  pub target_id : String
  pub description : Option String

pub record CloudArchitectureMetadata : Type 0 where
  pub cloud_architecture_id : String
  pub provider : CloudProvider
  pub region : String
  pub network_architecture_id : Option String
  pub network_architecture_revision : Option ℕ
  pub project_id : Option String
  pub revision : ℕ
  pub deployment_pattern : Option String
  pub confidence : Option String

pub record CloudArchitecture : Type 0 where
  pub schema_version : String
  pub metadata : CloudArchitectureMetadata
  pub infrastructure : Infrastructure
  pub configuration : Configuration
  pub relationships : List Relationship
  pub unmapped : List String
  pub validation : ValidationReport

-- What construction raises, with the ids that the message names.
pub data CloudError : Type 0 where
  duplicate_resource_ids : CloudError
  unknown_network unknown_compute_subnet unknown_interface_subnet unknown_compute unknown_resource :
      String → String → CloudError

abbrev pub ids_of : List CloudResource → List String
ids_of = map (λ r. r.id)

abbrev pub network_ids : Infrastructure → List String
network_ids i = map (λ n. n.resource.id) i.networks

abbrev pub subnet_ids : Infrastructure → List String
subnet_ids i = map (λ s. s.resource.id) i.subnets

abbrev pub compute_ids : Infrastructure → List String
compute_ids i = map (λ c. c.resource.id) i.compute

unfoldable pub check_subnet : Infrastructure → Subnet → Result CloudError (Unit {0})
check_subnet i s =
    require (contains (network_ids i) s.network_id) (unknown_network s.resource.id s.network_id)

unfoldable pub check_nic : Infrastructure → NetworkInterfaceSpec → Result CloudError (Unit {0})
check_nic i n =
    require (contains (subnet_ids i) n.subnet_id) (unknown_interface_subnet n.id n.subnet_id)

unfoldable pub check_compute : Infrastructure → ComputeInstance → Result CloudError (Unit {0})
check_compute i c = do
  elim c.subnet_id [
    | none ↦ ok tt
    | some s ↦ require (contains (subnet_ids i) s) (unknown_compute_subnet c.resource.id s)
  ]
  for_each (check_nic i) c.interfaces

unfoldable pub check_host : Infrastructure → ConfigurationHost → Result CloudError (Unit {0})
check_host i h = require (contains (compute_ids i) h.compute_id) (unknown_compute h.id h.compute_id)

unfoldable pub check_relationship : Infrastructure → Relationship → Result CloudError (Unit {0})
check_relationship i r = do
  require (contains (ids_of (all_resources i)) r.source_id) (unknown_resource r.id r.source_id)
  require (contains (ids_of (all_resources i)) r.target_id) (unknown_resource r.id r.target_id)

-- The model validator of the document.
unfoldable pub cloud_integrity : CloudArchitecture → Result CloudError CloudArchitecture
cloud_integrity a = do
  let i = a.infrastructure
  require (not (has_duplicates (ids_of (all_resources i)))) duplicate_resource_ids
  for_each (check_subnet i) i.subnets
  for_each (check_compute i) i.compute
  for_each (check_host i) a.configuration.hosts
  for_each (check_relationship i) a.relationships
  ok a

unfoldable pub cloud_is_valid : CloudArchitecture → Bool
cloud_is_valid a = a.validation.valid && not (nonempty a.validation.errors)

unfoldable pub can_generate : CloudArchitecture → Bool
unfolding cloud_is_valid
can_generate a = cloud_is_valid a && not (is_empty a.infrastructure)

unfoldable pub requires_configuration_stage : CloudArchitecture → Bool
requires_configuration_stage a = not (has_nothing a.configuration)

unfoldable pub relationships_of : String → CloudArchitecture → List Relationship
relationships_of resource_id a =
    filter (λ r. contains (r.source_id ∷ r.target_id ∷ []) resource_id) a.relationships

unfoldable pub with_report : ValidationReport → CloudArchitecture → CloudArchitecture
with_report report a = record a { validation = report }
