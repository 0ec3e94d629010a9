-- ===== src/Assembler/Segments.antt =====
-- `_Segment` and `_discover_segments` of src/infrastructure/rag/cloud_assembler.py: the broadcast
-- domains of a network. A set of ids is a list without repetition. The text of a subnet, its
-- `cidr`, is a parameter, as is what `str.strip` and `str.lower` make of a text.
use topo_forge_ai.Identifiers.{is_empty_text, slugify}
use topo_forge_ai.Architecture.{NetworkArchitecture}
use topo_forge_ai.Topology.{LinkEndpoint, Edge, Node, edges_of, is_l2, is_l3_forwarder}
use topo_forge_ai.Network.{SubnetSpec, Interface, subnets, SubnetSpec-Eq}
use topo_forge_ai.Prelude.{
  some, none, [], true, false, ◌∷◌, String, List, Option, if◌then◌else◌, Bool, ◌++◌, ℕ, contains,
  ◌<>◌, ◌==◌, filter, concat_map, find, length, map, not, any, leb, sorted, String-Eq, nonempty,
  ◌&&◌, str_le, ℕ-Eq,
}

pub record Segment : Type 0 where
  pub id : String
  pub subnet : Option SubnetSpec
  pub node_ids : List String
  pub interface_ids : List String
  pub vlan_id : Option ℕ
  pub switch_ids : List String
  pub is_transit : Bool
  pub is_transport : Bool

-- `ids.add(id)`
abbrev pub add_id : String → List String → List String
add_id id ids = if contains ids id then ids else ids ++ id ∷ []

-- The dictionary `by_subnet`.
abbrev pub Segments : Type 0
Segments = List (SubnetSpec × Segment)

module _ (cidr_text : SubnetSpec → String) (fold : String → String) where
  abbrev new_segment : SubnetSpec → Interface → Segment
  new_segment key i = record {
    id = "seg-" <> slugify fold 48 (cidr_text key);
    subnet = some key;
    node_ids = [];
    interface_ids = [];
    vlan_id = i.vlan_id;
    switch_ids = [];
    is_transit = false;
    is_transport = false;
  }

  abbrev pub enter : Interface → Segment → Segment
  enter i s = record s {
    node_ids = add_id i.node_id s.node_ids;
    interface_ids = add_id i.id s.interface_ids;
    vlan_id = elim s.vlan_id [ none ↦ i.vlan_id | some v ↦ some v ];
  }

  abbrev pub enter_at : SubnetSpec → Interface → Segments → Segments
  enter_at key i [] = (key, enter i (new_segment key i)) ∷ []
  enter_at key i ((k, s) ∷ rest) =
      let later = enter_at key i rest in if k == key then (k, enter i s) ∷ rest else (k, s) ∷ later

  -- The loop over the interfaces: an interface belongs to the segment of its first subnet.
  unfoldable pub enter_all : List Interface → Segments → Segments
  enter_all [] by_subnet = by_subnet
  enter_all (i ∷ rest) by_subnet = elim (subnets i) [
    | [] ↦ enter_all rest by_subnet
    | key ∷ _ ↦ enter_all rest (enter_at key i by_subnet)
  ]

-- The ends of a device's links that are not the device itself.
abbrev pub far_ends : String → List Edge → List LinkEndpoint
far_ends node_id edges =
    filter (λ end. not (end.node_id == node_id)) (concat_map (λ e. e.source ∷ e.target ∷ []) edges)

-- `if endpoint.interface_id`: the empty text counts as none.
abbrev pub named_interface : LinkEndpoint → List String
named_interface end = elim end.interface_id [
  | none ↦ []
  | some id ↦ if is_empty_text id then [] else id ∷ []
]

-- Whether a switch with these links is on the segment.
unfoldable pub is_attached : List LinkEndpoint → Segment → Bool
is_attached far s =
    let far_interface_ids = concat_map named_interface far in
    let adjacent = any (contains s.node_ids) (map (λ end. end.node_id) far) in
    if any (contains s.interface_ids) far_interface_ids
    then true
    else (if nonempty far_interface_ids then false else adjacent)

unfoldable pub attach : String → List LinkEndpoint → Segment → Segment
unfolding is_attached
attach node_id far s =
    let joined = record s {
      node_ids = add_id node_id s.node_ids;
      switch_ids = s.switch_ids ++ node_id ∷ [];
    } in
    if is_attached far s then joined else s

-- The loop over the devices of the second layer.
unfoldable pub attach_all : List Edge → List Node → List Segment → List Segment
unfolding attach
attach_all edges [] segments = segments
attach_all edges (n ∷ rest) segments =
    let skipped = attach_all edges rest segments in
    let far = far_ends n.id (edges_of n.id edges) in
    let joined = attach_all edges rest (map (attach n.id far) segments) in
    if is_l2 n then joined else skipped

abbrev pub is_l3_member : List Node → String → Bool
is_l3_member nodes id = elim (find (λ n. n.id == id) nodes) [
  | none ↦ false
  | some n ↦ is_l3_forwarder n
]

unfoldable pub mark_transit : List Node → Segment → Segment
mark_transit nodes s =
    let members = length (filter (is_l3_member nodes) s.node_ids) in
    record s { is_transit = leb 2 members && length s.node_ids == members }

unfoldable pub discover_segments :
    (SubnetSpec → String) → (String → String) → NetworkArchitecture → List Segment
unfolding enter_all attach_all mark_transit
discover_segments cidr_text fold a =
    let found = map (λ entry. entry.1) (enter_all cidr_text fold a.interfaces []) in
    sorted (λ s t. str_le s.id t.id) (map (mark_transit a.nodes) (attach_all a.edges a.nodes found))
