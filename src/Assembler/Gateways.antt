-- ===== src/Assembler/Gateways.antt =====
-- `_gateways`, `_check_transport` and `_deployment_pattern` of
-- src/infrastructure/rag/cloud_assembler.py. The text of the plan, which `json.dumps` and `str.lower`
-- make, is given. A warning is its code: the messages, the severity and the remediation are not
-- modelled. In the list of what is unmapped stands the id of a segment for its message.
use topo_forge_ai.Cloud.{Relationship, attached_to}
use topo_forge_ai.Assembler.Segments.{Segment}
use topo_forge_ai.Assembler.Networks.{named_resource}
use topo_forge_ai.Identifiers.{is_empty_text}
use Prim.Native.Char.{code}
use topo_forge_ai.Cloud.Resources.{
  VirtualNetwork, Gateway, Subnet, GatewayType, gateway_kind, transit_gateway,
}
use topo_forge_ai.Prelude.{
  some, none, [], true, false, ◌∷◌, String, Bool, List, Option, any, if◌then◌else◌, ◌==◌, ◌||◌,
  filter, ◌<>◌, find, ◌++◌, ◌&&◌, concat_map, leb, map, length, nonempty, not, String-Eq, ltb, ℕ-Eq,
}

abbrev pub starts_with : String → String → Bool
starts_with String.[] text = true
starts_with (String.◌∷◌ c needle) String.[] = false
starts_with (String.◌∷◌ c needle) (String.◌∷◌ d text) = code c == code d && starts_with needle text

-- `needle in text`
abbrev pub occurs_in : String → String → Bool
occurs_in String.[] needle = is_empty_text needle
occurs_in (String.◌∷◌ c text) needle =
    starts_with needle (String.◌∷◌ c text) || occurs_in text needle

-- `_mentions`
unfoldable pub mentions : String → List String → Bool
mentions text needles = any (occurs_in text) needles

-- What the plan asks for.
pub record Wishes : Type 0 where
  pub internet : Bool
  pub nat : Bool
  pub peering : Bool
  pub transit : Bool

unfoldable pub wishes_of : String → Wishes
unfolding mentions
wishes_of text = record {
  internet = mentions text ("internet gateway" ∷ "internet_gateway" ∷ "igw" ∷ []);
  nat = mentions text ("nat gateway" ∷ "nat_gateway" ∷ []);
  peering = mentions text ("peering" ∷ []);
  transit = mentions text ("transit gateway" ∷ "transit_gateway" ∷ "tgw" ∷ []);
}

abbrev pub subnets_in : List Subnet → String → List Subnet
subnets_in subnets network_id = filter (λ s. s.network_id == network_id) subnets

abbrev pub internet_gateway : VirtualNetwork → Gateway
internet_gateway n = record {
  resource =
      named_resource ("gw-igw-" <> n.resource.id) gateway_kind (n.resource.logical_name <> "-igw")
        none n.resource.source_node_ids;
  type = GatewayType.internet;
  network_id = some n.resource.id;
  subnet_id = none;
  peer_network_ids = [];
  allocate_public_ip = false;
}

-- It stands in the first public subnet, or else in the first subnet.
abbrev pub nat_gateway : VirtualNetwork → Subnet → List Subnet → Gateway
nat_gateway n first rest =
    let place : Subnet = elim (find (λ s. s.public) (first ∷ rest)) [ none ↦ first | some s ↦ s ] in
    record {
      resource =
          named_resource ("gw-nat-" <> n.resource.id) gateway_kind
            (n.resource.logical_name <> "-nat") none n.resource.source_node_ids;
      type = GatewayType.nat;
      network_id = some n.resource.id;
      subnet_id = some place.resource.id;
      peer_network_ids = [];
      allocate_public_ip = true;
    }

-- A gateway between the networks.
abbrev pub link_gateway : String → String → GatewayType → List VirtualNetwork → Gateway
link_gateway id logical_name type networks = record {
  resource = named_resource id gateway_kind logical_name none [];
  type = type;
  network_id = none;
  subnet_id = none;
  peer_network_ids = map (λ n. n.resource.id) networks;
  allocate_public_ip = false;
}

-- What a network with these subnets gets: nothing if there are none.
abbrev pub gateways_at : Wishes → VirtualNetwork → List Subnet → List Gateway
gateways_at w n [] = []
gateways_at w n (first ∷ rest) =
    (if w.internet then internet_gateway n ∷ [] else [])
    ++ (if w.nat then nat_gateway n first rest ∷ [] else [])

-- One round of the loop over the networks.
unfoldable pub gateways_for : Wishes → List Subnet → VirtualNetwork → List Gateway
gateways_for w subnets n = gateways_at w n (subnets_in subnets n.resource.id)

abbrev pub peering_gateways : Wishes → List VirtualNetwork → List Gateway
peering_gateways w networks =
    if w.peering && length networks == 2
    then link_gateway "gw-peering" "vpc-peering" GatewayType.peering networks ∷ []
    else []

abbrev pub transit_gateways : Wishes → List VirtualNetwork → List Gateway
transit_gateways w networks =
    if w.transit && leb 2 (length networks)
    then link_gateway "gw-transit" "transit-gateway" transit_gateway networks ∷ []
    else []

unfoldable pub gateways : Wishes → List VirtualNetwork → List Subnet → List Gateway
unfolding gateways_for
gateways w networks subnets =
    concat_map (gateways_for w subnets) networks
    ++ (peering_gateways w networks ++ transit_gateways w networks)

unfoldable pub gateway_relationships :
    Wishes → List VirtualNetwork → List Subnet → List Relationship
gateway_relationships w networks subnets =
    concat_map
      (λ n.
        if w.internet && nonempty (subnets_in subnets n.resource.id)
        then record {
          id = "rel-" <> (internet_gateway n).resource.id;
          type = attached_to;
          source_id = (internet_gateway n).resource.id;
          target_id = n.resource.id;
          description = none;
        }
          ∷ []
        else [])
      networks

unfoldable pub gateway_warnings : Wishes → List VirtualNetwork → List String
gateway_warnings w networks =
    if w.peering && not (length networks == 2) then "peering_requires_two_networks" ∷ [] else []

abbrev pub carries_transport : Gateway → Bool
carries_transport g = elim g.type [
  | GatewayType.peering ↦ true
  | transit_gateway ↦ true
  | _ ↦ false
]

-- The warnings and the unmapped links.
unfoldable pub check_transport :
    List Segment → List Gateway → List VirtualNetwork → List String × List String
check_transport segments gateways networks =
    let transport = filter (λ s. s.is_transport) segments in
    let missing = not (any carries_transport gateways) && ltb 1 (length networks) in
    (
      if nonempty transport && missing then "no_transport_between_routed_domains" ∷ [] else [],
      map (λ s. s.id) transport,
    )

abbrev is_transit : Gateway → Bool
is_transit g = elim g.type [ transit_gateway ↦ true | _ ↦ false ]

abbrev is_peering : Gateway → Bool
is_peering g = elim g.type [ GatewayType.peering ↦ true | _ ↦ false ]

-- The pattern that the plan declares, if that is a text, or one that the gateways show.
unfoldable pub deployment_pattern : Option String → List VirtualNetwork → List Gateway → String
deployment_pattern declared networks gateways =
    let shown =
      if any is_transit gateways
      then "multi_vpc_tgw"
      else (if any is_peering gateways
          then "multi_vpc_peering"
          else (if leb (length networks) 1 then "single_vpc" else "multi_vpc_isolated")) in
    elim declared [ none ↦ shown | some text ↦ if is_empty_text text then shown else text ]
