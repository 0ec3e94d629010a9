-- ===== src/Tests/Assembler.antt =====
-- Two routers with a link between them for the theorems on the assembler.
use topo_forge_ai.Assembler.Supernet.Wider.{IsNetwork, canonical-IsNetwork}
use topo_forge_ai.Assembler.Routes.Served.{IsServed, route_tables_lem}
use topo_forge_ai.Assembler.Routes.Anchored.{IsAnchored}
use topo_forge_ai.Assembler.Supernet.Covering.{IsCovering, covering_supernet-IsCovering}
use topo_forge_ai.Assembler.Routes.Targets.{LeadsTo, gateway_ids}
use topo_forge_ai.Cloud.Resources.{Gateway, RouteTable}
use topo_forge_ai.Assembler.Segments.{Segment}
use topo_forge_ai.Topology.{Node}
use topo_forge_ai.Assembler.Routes.{route_tables}
use topo_forge_ai.Assembler.Gateways.{Wishes, gateways}
use topo_forge_ai.Assembler.Networks.Within.{IsHoused, networks_and_subnets-IsHoused}
use topo_forge_ai.Assembler.Networks.{Parts, networks_and_subnets}
use topo_forge_ai.Assembler.Domains.{discover_domains, Domains, routers_of}
use topo_forge_ai.Assembler.Domains.Partition.{IsSplit, discover_domains-IsSplit}
use topo_forge_ai.Identifiers.{slugify, length_of}
use topo_forge_ai.Identifiers.Slugs.{words, slugify-words}
use topo_forge_ai.Assembler.Supernet.{covering_supernet, is_v4}
use topo_forge_ai.Network.{SubnetSpec, canonical, v4, SubnetSpec-Eq}
use topo_forge_ai.Prelude.{
  refl, some, none, [], true, false, ◌∷◌, String, All, filter, List, if◌then◌else◌, ◌≡◌, map, ◌==◌,
  ◌⊎◌, arith, ◌≤◌, any, String-Eq,
}
use topo_forge_ai.Topology.{is_l3_forwarder, display_name}
use topo_forge_ai.Tests.Documents.{document}
use topo_forge_ai.Assembler.Supernet.{widen_all}
use topo_forge_ai.Network.{is_subnet_of}

abbrev same_text : String → String
same_text s = s

abbrev cidr_text : SubnetSpec → String
cidr_text s = if s == canonical v4 167772160 24 then "10.0.0.0/24" else "10.0.1.0/24"

abbrev left_block : SubnetSpec
left_block = canonical v4 167772160 24

abbrev right_block : SubnetSpec
right_block = canonical v4 167772416 24

blocks_are_networks : All IsNetwork (left_block ∷ right_block ∷ [])
blocks_are_networks = (
  canonical-IsNetwork v4 167772160 24 (omega arith) (omega arith),
  (canonical-IsNetwork v4 167772416 24 (omega arith) (omega arith), tt),
)

covering_supernet-IsCovering_example :
    ((filter is_v4 (left_block ∷ right_block ∷ []) ≡ [])
      × (covering_supernet (left_block ∷ right_block ∷ []) ≡ none))
    ⊎ ((answer : SubnetSpec) × (covering_supernet (left_block ∷ right_block ∷ []) ≡ some answer)
        × IsCovering (filter is_v4 (left_block ∷ right_block ∷ [])) answer)
covering_supernet-IsCovering_example =
    covering_supernet-IsCovering (left_block ∷ right_block ∷ []) blocks_are_networks

covering_two_blocks :
    covering_supernet (left_block ∷ right_block ∷ []) ≡ some (canonical v4 167772160 23)
unfolding covering_supernet canonical widen_all is_subnet_of
covering_two_blocks = refl

slugify-words_example :
    (words true (slugify same_text 48 "core router #1!") ≡ true)
    × ((length_of (slugify same_text 48 "core router #1!") ≤ 48)
        ⊎ (slugify same_text 48 "core router #1!" ≡ "unnamed"))
slugify-words_example = slugify-words same_text 48 "core router #1!"

slug_of_name : slugify same_text 48 "core router #1!" ≡ "core-router-1"
unfolding slugify
slug_of_name = refl

abbrev device : String → String → Node
device id type = record { id = id; type = type; name = none; interface_ids = [] }

abbrev devices : List Node
devices = device "r1" "router" ∷ device "r2" "router" ∷ device "pc" "pc" ∷ []

abbrev piece : String → SubnetSpec → List String → Segment
piece id cidr node_ids = record {
  id = id;
  subnet = some cidr;
  node_ids = node_ids;
  interface_ids = [];
  vlan_id = none;
  switch_ids = [];
  is_transit = false;
  is_transport = false;
}

abbrev pieces : List Segment
pieces =
    piece "seg-a" left_block ("r1" ∷ "pc" ∷ [])
    ∷ piece "seg-b" right_block ("r2" ∷ [])
    ∷ piece "seg-c" (canonical v4 167772672 30) ("r1" ∷ "r2" ∷ [])
    ∷ []

discover_domains-IsSplit_example :
    IsSplit (routers_of devices) pieces (discover_domains devices pieces)
discover_domains-IsSplit_example = discover_domains-IsSplit devices pieces

domains_of_pieces :
    map {B = String × List String}
      (λ d. (d.0, map (λ s. s.id) d.1))
      (discover_domains devices pieces).0
    ≡ ("r1", "seg-a" ∷ []) ∷ ("r2", "seg-b" ∷ []) ∷ []
unfolding discover_domains is_l3_forwarder
domains_of_pieces = refl

abbrev two_domains : Domains
two_domains =
    ("r1", piece "seg-a" left_block ("r1" ∷ []) ∷ [])
    ∷ ("r2", piece "seg-b" right_block ("r2" ∷ []) ∷ [])
    ∷ []

abbrev assembled : Parts
assembled = networks_and_subnets cidr_text same_text "eu-west-1" document two_domains

networks_and_subnets-IsHoused_example : IsHoused assembled.networks assembled.subnets
networks_and_subnets-IsHoused_example =
    networks_and_subnets-IsHoused cidr_text same_text "eu-west-1" document two_domains
      ((blocks_are_networks.0, tt), ((blocks_are_networks.1.0, tt), tt))

abbrev both_links : Wishes
both_links = record { internet = false; nat = true; peering = true; transit = true }

abbrev made_gateways : List Gateway
made_gateways = gateways both_links assembled.networks (map (λ s. s.1) assembled.subnets)

abbrev made_tables : List RouteTable
made_tables = route_tables assembled.networks (map (λ s. s.1) assembled.subnets) made_gateways

route_tables_lem_example :
    All (λ t. LeadsTo (gateway_ids made_gateways) t.routes) made_tables
    × (All (IsAnchored assembled.networks (map (λ s. s.1) assembled.subnets)) made_gateways
        × All
            (λ s.
              any (λ n. n.resource.id == s.network_id) assembled.networks ≡ true
              → IsServed made_tables s)
            (map (λ s. s.1) assembled.subnets))
route_tables_lem_example =
    route_tables_lem both_links assembled.networks (map (λ s. s.1) assembled.subnets)

-- With a peering and a transit gateway between two networks, a table has two routes for the same
-- destination.
routes_of_both_links :
    map (λ t. map (λ r. r.target_ref) t.routes) made_tables
    ≡ ("gw-nat-vpc-r1" ∷ "gw-peering" ∷ "gw-transit" ∷ [])
      ∷ ("gw-nat-vpc-r2" ∷ "gw-peering" ∷ "gw-transit" ∷ [])
      ∷ []
unfolding route_tables networks_and_subnets covering_supernet canonical slugify display_name
    gateways
routes_of_both_links = refl
