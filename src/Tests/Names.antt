-- ===== src/Tests/Names.antt =====
-- Names of devices and of cloud representations for the theorems on their classification.
use topo_forge_ai.Assembler.Gateways.{occurs_in}
use topo_forge_ai.Assembler.Representation.{
  classify_representation, representation_keywords, IsKeyword, classify_representation_lem,
}
use topo_forge_ai.NodeTypes.{NodeTypeMapper, map_type, default_node_type_mapper}
use topo_forge_ai.Prelude.{refl, some, none, [], false, ◌∷◌, String, ◌≡◌, All, ◌⊎◌}

abbrev as_it_is : String → String
as_it_is s = s

abbrev two_types : NodeTypeMapper
two_types = record { synonyms = ("router", "router") ∷ ("lb", "load_balancer") ∷ []; unmapped = [] }

map_of_longer_name : map_type as_it_is two_types "ciscorouter9" ≡ ("router", two_types)
unfolding map_type
map_of_longer_name = refl

map_of_numbered_name : (map_type as_it_is default_node_type_mapper "fw-12").0 ≡ "firewall"
unfolding map_type
map_of_numbered_name = refl

map_of_strange_name : (map_type as_it_is two_types "toaster").1.unmapped ≡ "toaster" ∷ []
unfolding map_type
map_of_strange_name = refl

classify_representation_lem_example :
    ((classify_representation as_it_is (some "aws transit gateway") ≡ none)
      × All (λ k. occurs_in "aws transit gateway" k.0 ≡ false) representation_keywords)
    ⊎ ((kind : String) × (classify_representation as_it_is (some "aws transit gateway") ≡ some kind)
        × IsKeyword "aws transit gateway" kind)
classify_representation_lem_example =
    classify_representation_lem as_it_is "aws transit gateway" refl

kind_of_load_balancer :
    classify_representation as_it_is (some "load balancer instance") ≡ some "load_balancer"
unfolding classify_representation
kind_of_load_balancer = refl
