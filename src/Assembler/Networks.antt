-- ===== src/Assembler/Networks.antt =====
-- `_networks_and_subnets` of src/infrastructure/rag/cloud_assembler.py: a virtual network for each
-- routed domain. A subnet stands with the id of its segment, which the program keeps among the
-- attributes of the subnet. A message about a domain without addresses is the id of its router.
pub mod Within
use topo_forge_ai.Assembler.Supernet.{covering_supernet}
use topo_forge_ai.Topology.{display_name}
use topo_forge_ai.Assembler.Domains.{Domains}
use topo_forge_ai.Cloud.{Relationship, RelationshipType, contains_part}
use topo_forge_ai.Architecture.{NetworkArchitecture}
use topo_forge_ai.Identifiers.{slugify}
use topo_forge_ai.Assembler.Segments.{Segment}
use topo_forge_ai.Cloud.Resources.{
  VirtualNetwork, ResourceKind, Subnet, CloudResource, virtual_network, subnet_kind,
  transit_purpose, lan_purpose,
}
use topo_forge_ai.Network.{SubnetSpec}
use topo_forge_ai.Prelude.{
  some, none, [], true, false, ◌∷◌, List, ◌++◌, String, Bool, Option, ◌==◌, find, ◌<>◌,
  if◌then◌else◌, nonempty, sorted, String-Eq, str_le, map,
}

pub record Parts : Type 0 where
  pub networks : List VirtualNetwork
  pub subnets : List (String × Subnet)
  pub relationships : List Relationship
  pub unmapped : List String

abbrev pub no_parts : Parts
no_parts = record { networks = []; subnets = []; relationships = []; unmapped = [] }

abbrev pub join_parts : Parts → Parts → Parts
join_parts p q = record {
  networks = p.networks ++ q.networks;
  subnets = p.subnets ++ q.subnets;
  relationships = p.relationships ++ q.relationships;
  unmapped = p.unmapped ++ q.unmapped;
}

-- What a comprehension keeps of an optional item.
abbrev pub keep {ℓ} : {A : Type ℓ} → Option A → List A → List A
keep none rest = rest
keep (some x) rest = x ∷ rest

-- `[segment.subnet for segment in owned if segment.subnet]`
abbrev pub addresses_of : List Segment → List SubnetSpec
addresses_of [] = []
addresses_of (s ∷ rest) = keep s.subnet (addresses_of rest)

abbrev pub named_resource :
    String → ResourceKind → String → Option String → List String → CloudResource
named_resource id kind logical_name provider_type source_node_ids = record {
  id = id;
  kind = kind;
  logical_name = logical_name;
  provider_type = provider_type;
  source_node_ids = source_node_ids;
  tags = [];
}

abbrev pub is_implicit : String → Bool
is_implicit router_id = router_id == "__implicit__"

module _ (cidr_text : SubnetSpec → String) (fold : String → String) (region : String) where
  abbrev slug : String → String
  slug = slugify fold 48

  -- The name of a domain: that of its router, if there is one.
  abbrev pub domain_name : NetworkArchitecture → String → String
  domain_name a router_id = elim (find (λ n. n.id == router_id) a.nodes) [
    | none ↦ slug router_id
    | some n ↦ slug (display_name n)
  ]

  abbrev pub network_for : String → String → SubnetSpec → VirtualNetwork
  network_for router_id name cidr = record {
    resource =
        named_resource ("vpc-" <> name) virtual_network (name <> "-vpc") (some "aws_vpc")
          (if is_implicit router_id then [] else router_id ∷ []);
    cidr = cidr;
    secondary_cidrs = [];
    enable_dns_support = true;
    enable_dns_hostnames = true;
    region = some region;
  }

  abbrev pub source_relationship : String → VirtualNetwork → List Relationship
  source_relationship router_id n =
      if is_implicit router_id
      then []
      else record {
        id = "rel-" <> (n.resource.id <> "-source");
        type = RelationshipType.derived_from;
        source_id = n.resource.id;
        target_id = n.resource.id;
        description = some ("routed domain of " <> router_id);
      }
        ∷ []

  -- The label of a segment: its first switch, or its addresses.
  abbrev pub label_of : Segment → SubnetSpec → String
  label_of s cidr = elim s.switch_ids [ [] ↦ slug (cidr_text cidr) | sw ∷ _ ↦ slug sw ]

  abbrev pub subnet_for : String → VirtualNetwork → Segment → SubnetSpec → Subnet
  subnet_for name n s cidr = record {
    resource =
        named_resource ("sn-" <> slug (cidr_text cidr)) subnet_kind
          (name <> ("-" <> label_of s cidr)) (some "aws_subnet") (sorted str_le s.switch_ids);
    network_id = n.resource.id;
    cidr = cidr;
    availability_zone = none;
    public = false;
    purpose = if s.is_transit then transit_purpose else lan_purpose;
    source_vlan_id = s.vlan_id;
  }

  abbrev pub contains_relationship : VirtualNetwork → Subnet → Relationship
  contains_relationship n s = record {
    id = "rel-" <> (n.resource.id <> ("-" <> s.resource.id));
    type = contains_part;
    source_id = n.resource.id;
    target_id = s.resource.id;
    description = none;
  }

  abbrev pub made_subnet :
      String → VirtualNetwork → Segment → Option SubnetSpec → Option (String × Subnet)
  made_subnet name n s none = none
  made_subnet name n s (some cidr) = some (s.id, subnet_for name n s cidr)

  -- The loop over the segments of a domain.
  unfoldable pub subnets_for : String → VirtualNetwork → List Segment → List (String × Subnet)
  subnets_for name n [] = []
  subnets_for name n (s ∷ rest) = keep (made_subnet name n s s.subnet) (subnets_for name n rest)

  -- What a domain gives once its range is known, or not.
  unfoldable pub parts_with :
      NetworkArchitecture → String → List Segment → Option SubnetSpec → Parts
  unfolding subnets_for
  parts_with a router_id owned none = record no_parts { unmapped = router_id ∷ [] }
  parts_with a router_id owned (some cidr) =
      let name = domain_name a router_id in
      let n = network_for router_id name cidr in
      let made = subnets_for name n owned in
      record {
        networks = n ∷ [];
        subnets = made;
        relationships =
            source_relationship router_id n ++ map (λ s. contains_relationship n s.1) made;
        unmapped = [];
      }

  -- One round of the loop over the domains.
  unfoldable pub domain_parts : NetworkArchitecture → String × List Segment → Parts
  unfolding parts_with
  domain_parts a (router_id, owned) =
      let made = parts_with a router_id owned (covering_supernet (addresses_of owned)) in
      if nonempty owned then made else no_parts

  abbrev pub join_all : NetworkArchitecture → Domains → Parts
  join_all a [] = no_parts
  join_all a (d ∷ rest) = join_parts (domain_parts a d) (join_all a rest)

  -- `sorted(domains.items())`: by the ids of the routers, which are distinct.
  unfoldable pub networks_and_subnets : NetworkArchitecture → Domains → Parts
  unfolding domain_parts
  networks_and_subnets a domains = join_all a (sorted (λ d e. str_le d.0 e.0) domains)
