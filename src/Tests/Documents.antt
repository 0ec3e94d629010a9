-- ===== src/Tests/Documents.antt =====
-- Subnets, a small topology, a document and its revisions for the lemmas about them.
use topo_forge_ai.Network.Blocks.{IsWithin}
use topo_forge_ai.Topology.Duplicates.{lookup-duplicate_edge_keys}
use topo_forge_ai.Architecture.Links.{adjacency-IsWellFormed}
use topo_forge_ai.Topology.{Pair-Eq, duplicate_edge_keys, unordered_key}
use topo_forge_ai.Network.Hosts.{assignable, assignable-usable_host_count}
use topo_forge_ai.Topology.Components.Partition.{IsClass, connected_components-partition}
use topo_forge_ai.Topology.Components.{connected_components, components_from, flood}
use topo_forge_ai.Prelude.{
  ◌==◌, String-Eq, some, List, All, length, filter, ◌+◌, if◌then◌else◌, leb, arith, lookup, ltb,
  range, any,
}
use topo_forge_ai.Architecture.Integrity.{IsWellFormed, referential_integrity_iff}
use topo_forge_ai.Topology.Adjacency.{neighbours, joins, contains-adjacency}
use topo_forge_ai.Issues.{MissingInformation, empty_report, required, from_issues}
use topo_forge_ai.Architecture.{
  NetworkArchitecture, referential_integrity, with_validation, can_proceed_to_rag, check_edge,
  draft, check_endpoint, validated, as_topology,
}
use topo_forge_ai.Topology.{Topology, adjacency, Node, Edge}
use topo_forge_ai.Network.Blocks.{IsAligned, canonical-IsAligned, overlaps-nested, overlaps_iff}
use topo_forge_ai.Network.{
  SubnetSpec, contains_address, overlaps, is_subnet_of, canonical, v4, Version, num_addresses,
  usable_host_count, same_version, v6,
}
use topo_forge_ai.Prelude.{
  refl, none, [], true, false, ok, ◌∷◌, String, contains, ◌≡◌, ◌↔◌, ◌⊎◌, map, not, ◌&&◌, String-Eq,
  ℕ, ◌==◌,
}
use topo_forge_ai.Architecture.Gate.{expected_status, with_validation_lem}
use topo_forge_ai.Architecture.History.{
  History-IsChain, History-continues, History, first, later, initial, succeed, succeeding_record,
  IsChain, initial_record,
}
use topo_forge_ai.Issues.Report.{from_issues-IsSorted}

abbrev wide : SubnetSpec
wide = canonical v4 167772165 8

abbrev narrow : SubnetSpec
narrow = canonical v4 167772415 24

wide-IsAligned : IsAligned wide
wide-IsAligned = (canonical-IsAligned v4 167772165 8).0

narrow-IsAligned : IsAligned narrow
narrow-IsAligned = (canonical-IsAligned v4 167772415 24).0

overlaps_iff_example : (overlaps wide narrow ≡ true) ↔ (
    (v : Version) × (a : ℕ) × (contains_address wide v a ≡ true)
    × (contains_address narrow v a ≡ true))
overlaps_iff_example = overlaps_iff wide narrow

overlaps-nested_example :
    ((overlaps wide narrow ≡ true)
      ↔ ((is_subnet_of wide narrow ≡ true) ⊎ (is_subnet_of narrow wide ≡ true)))
    × ((is_subnet_of wide narrow ≡ true) ↔ IsWithin wide narrow)
    × ((is_subnet_of narrow wide ≡ true) ↔ IsWithin narrow wide)
overlaps-nested_example = overlaps-nested wide narrow wide-IsAligned narrow-IsAligned

narrow_in_wide : (is_subnet_of narrow wide ≡ true) × (is_subnet_of wide narrow ≡ false)
unfolding is_subnet_of canonical
narrow_in_wide = (refl, refl)

abbrev device : String → Node
device id = record { id = id; type = "router"; name = none; interface_ids = [] }

abbrev cable : String → String → Edge
cable a b = record {
  id = "cable";
  source = record { node_id = a; interface_id = none };
  target = record { node_id = b; interface_id = none };
  directed = false;
  network_id = none;
  vlan_id = none;
}

abbrev two_devices : Topology
two_devices = record {
  nodes = device "r1" ∷ device "r2" ∷ [];
  edges = cable "r1" "r2" ∷ cable "r2" "lost" ∷ [];
  interfaces = [];
}

contains-adjacency_example : contains (neighbours "r2" (adjacency two_devices)) "r1" ≡ (
    (contains (map (λ n. n.id) two_devices.nodes) "r2"
      && contains (map (λ n. n.id) two_devices.nodes) "r1")
    && (not (◌==◌ {A = String} "r2" "r1") && any (joins "r2" "r1") two_devices.edges))
contains-adjacency_example = contains-adjacency two_devices "r2" "r1"

adjacency_test : adjacency two_devices ≡ ("r1", "r2" ∷ []) ∷ ("r2", "r1" ∷ []) ∷ []
unfolding adjacency
adjacency_test = refl

abbrev pub document : NetworkArchitecture
document = record {
  schema_version = "1.0";
  metadata = record {
    architecture_id = "arch";
    name = "lab";
    project_id = none;
    revision = 7;
    created_by = none;
  };
  nodes = device "r1" ∷ device "r2" ∷ [];
  edges = cable "r1" "r2" ∷ [];
  interfaces = [];
  missing_information = [];
  validation = empty_report;
  status = draft;
}

referential_integrity_iff_example :
    (referential_integrity document ≡ ok document) ↔ IsWellFormed document
referential_integrity_iff_example = referential_integrity_iff document

integrity_test : referential_integrity document ≡ ok document
unfolding referential_integrity check_edge check_endpoint
integrity_test = refl

abbrev gap : MissingInformation
gap = record {
  id = "gap";
  need = required;
  code = "missing_interface_address";
  summary = "no address";
  detail = none;
  subject_ids = [];
  path = none;
  derivable_value = none;
  derivation_explanation = none;
  priority = 100;
}

abbrev incomplete : NetworkArchitecture
incomplete = record document { missing_information = gap ∷ [] }

with_validation_lem_example :
    ((with_validation (from_issues [] []) incomplete).status
      ≡ expected_status (from_issues [] []) incomplete)
    × ((can_proceed_to_rag (with_validation (from_issues [] []) incomplete) ≡ true)
        ↔ ((with_validation (from_issues [] []) incomplete).status ≡ validated))
    × (with_validation (from_issues [] []) incomplete ≡ record incomplete {
      validation = from_issues [] [];
      status = expected_status (from_issues [] []) incomplete;
    })
with_validation_lem_example =
    with_validation_lem (from_issues [] []) incomplete (from_issues-IsSorted [] [])

begun : History (initial_record document ∷ [])
unfolding initial
begun = first document (initial_record document) refl

continued :
    History
      (succeeding_record (initial_record document) incomplete [] ∷ initial_record document ∷ [])
unfolding succeed
continued =
    later incomplete [] (initial_record document)
      (succeeding_record (initial_record document) incomplete []) [] begun refl

History-IsChain_example :
    (id : String) × IsChain id
      (succeeding_record (initial_record document) incomplete [] ∷ initial_record document ∷ [])
History-IsChain_example = History-IsChain continued

History-continues_example :
    (initial document ≡ ok (initial_record document))
    × (succeed (initial_record document) document []
        ≡ ok (succeeding_record (initial_record document) document []))
History-continues_example = History-continues begun document []

connected_components-partition_example :
    (cs : List (List String)) × (connected_components two_devices ≡ some cs)
    × All (IsClass (λ a. neighbours a (adjacency two_devices))) cs
    × ((x : String)
        → contains (map (λ n. n.id) two_devices.nodes) x ≡ true
        → length (filter (λ c. contains c x) cs) ≡ 1)
connected_components-partition_example = connected_components-partition two_devices

components_test :
    connected_components (record two_devices { nodes = device "r3" ∷ two_devices.nodes })
    ≡ some (("r3" ∷ []) ∷ ("r2" ∷ "r1" ∷ []) ∷ [])
unfolding connected_components components_from flood adjacency
components_test = refl

assignable-usable_host_count_example :
    length (filter (assignable narrow) (range narrow.network_address (num_addresses narrow)))
    ≡ usable_host_count narrow
      + (if same_version narrow.version v6 && not (leb 127 narrow.prefix_length) then 1 else 0)
unfolding canonical
assignable-usable_host_count_example =
    assignable-usable_host_count narrow narrow-IsAligned (omega arith)

adjacency-IsWellFormed_example :
    All
      (λ e.
        (contains (neighbours e.source.node_id (adjacency (as_topology document))) e.target.node_id
          ≡ not (e.source.node_id == e.target.node_id))
        × (contains
              (neighbours e.target.node_id (adjacency (as_topology document)))
              e.source.node_id
            ≡ not (e.source.node_id == e.target.node_id)))
      document.edges
unfolding referential_integrity check_edge check_endpoint
adjacency-IsWellFormed_example = adjacency-IsWellFormed document refl

abbrev doubled : Topology
doubled = record two_devices { edges = cable "r2" "r1" ∷ two_devices.edges }

lookup-duplicate_edge_keys_example : lookup ("r1", "r2") (duplicate_edge_keys doubled) ≡ (
    if ltb 1 (length (filter (joins "r1" "r2") doubled.edges))
    then some (length (filter (joins "r1" "r2") doubled.edges))
    else none)
lookup-duplicate_edge_keys_example = lookup-duplicate_edge_keys doubled "r1" "r2" refl

duplicates_test : duplicate_edge_keys doubled ≡ (("r1", "r2"), 2) ∷ []
unfolding duplicate_edge_keys unordered_key
duplicates_test = refl
