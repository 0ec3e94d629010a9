-- ===== src/Architecture.antt =====
-- src/domain/architecture/models.py: the network architecture, the document that both input modes
-- make and that the translation reads. Left out are the parts that no operation below reads: the
-- routing plan, NAT rules, access lists, networks, VLANs, unresolved fields, enrichment options and
-- extensions, and in the metadata the texts, time stamps and producers. Of the identifiers that a
-- generator makes, the caller gives the value.
pub mod Integrity
pub mod Gate
pub mod History
pub mod Links
use topo_forge_ai.Network.{Interface}
use topo_forge_ai.Topology.{Topology, Node, interface, LinkEndpoint, Edge}
use topo_forge_ai.Issues.{ValidationReport, MissingInformation, blocks_rag, blocks_progress}
use topo_forge_ai.Prelude.{
  ◌>>◌, ◌>>=◌, some, none, false, ok, String, List, Result, Bool, ◌+◌, Option, not, ◌&&◌,
  if◌then◌else◌, map, ℕ, length, require, nonempty, ◌++◌, any, dedup, contains, filter, ◌==◌,
  String-Eq, ℕ-Eq, for_each, has_duplicates,
}

pub data ArchitectureStatus : Type 0 where
  draft needs_input validated invalid : ArchitectureStatus

pub record ArchitectureMetadata : Type 0 where
  pub architecture_id : String
  pub name : String
  pub project_id : Option String
  pub revision : ℕ
  pub created_by : Option String

pub record NetworkArchitecture : Type 0 where
  pub schema_version : String
  pub metadata : ArchitectureMetadata
  pub nodes : List Node
  pub edges : List Edge
  pub interfaces : List Interface
  pub missing_information : List MissingInformation
  pub validation : ValidationReport
  pub status : ArchitectureStatus

-- What construction raises, with the ids that the message names.
pub data DocumentError : Type 0 where
  duplicate_node_ids duplicate_interface_ids : DocumentError
  unknown_interface_node : String → String → DocumentError
  unknown_edge_node : String → String → DocumentError
  unknown_edge_interface : String → String → DocumentError

abbrev pub ids_of_nodes : List Node → List String
ids_of_nodes = map (λ n. n.id)

abbrev pub ids_of_interfaces : List Interface → List String
ids_of_interfaces = map (λ i. i.id)

unfoldable pub check_interface : List String → Interface → Result DocumentError (Unit {0})
check_interface nodes i = require (contains nodes i.node_id) (unknown_interface_node i.id i.node_id)

unfoldable pub check_endpoint :
    List String → List String → String → LinkEndpoint → Result DocumentError (Unit {0})
check_endpoint nodes interfaces edge_id end = do
  require (contains nodes end.node_id) (unknown_edge_node edge_id end.node_id)
  elim end.interface_id [
    | none ↦ ok tt
    | some i ↦ require (contains interfaces i) (unknown_edge_interface edge_id i)
  ]

unfoldable pub check_edge : List String → List String → Edge → Result DocumentError (Unit {0})
unfolding check_endpoint
check_edge nodes interfaces e = do
  check_endpoint nodes interfaces e.id e.source
  check_endpoint nodes interfaces e.id e.target

-- The model validator of the document.
unfoldable pub referential_integrity :
    NetworkArchitecture → Result DocumentError NetworkArchitecture
unfolding check_interface check_edge
referential_integrity d = do
  let nodes = ids_of_nodes d.nodes
  let interfaces = ids_of_interfaces d.interfaces
  require (not (has_duplicates nodes)) duplicate_node_ids
  require (not (has_duplicates interfaces)) duplicate_interface_ids
  for_each (check_interface nodes) d.interfaces
  for_each (check_edge nodes interfaces) d.edges
  ok d

unfoldable pub is_valid : NetworkArchitecture → Bool
is_valid d = d.validation.valid && not (nonempty d.validation.errors)

unfoldable pub can_proceed_to_rag : NetworkArchitecture → Bool
can_proceed_to_rag d =
    if blocks_rag d.validation then false else not (any blocks_progress d.missing_information)

-- A line of the answer: the code and the message.
unfoldable pub blocking_reasons : NetworkArchitecture → List (String × String)
blocking_reasons d =
    map (λ i. (i.code, i.message)) d.validation.errors
    ++ map (λ m. (m.code, m.summary)) (filter blocks_progress d.missing_information)

unfoldable pub next_revision : NetworkArchitecture → NetworkArchitecture
next_revision d = record d { metadata = record d.metadata { revision = d.metadata.revision + 1 } }

unfoldable pub with_validation : ValidationReport → NetworkArchitecture → NetworkArchitecture
with_validation report d =
    let status = if report.valid then validated else invalid in
    let waits = report.valid && any blocks_progress d.missing_information in
    record d { validation = report; status = if waits then needs_input else status }

unfoldable pub as_topology : NetworkArchitecture → Topology
as_topology d = record { nodes = d.nodes; edges = d.edges; interfaces = d.interfaces }
