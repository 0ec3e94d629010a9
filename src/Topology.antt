-- ===== src/Topology.antt =====
-- src/domain/topology/models.py: devices, links and the graph that they form. Left out is what no
-- operation below reads: bounding boxes, evidence, vendor, model and free-form attributes of a
-- device, the kind, the label, the evidence and the attributes of a link, the pixel coordinates of
-- its ends, and the networks and VLANs. The type of a device is its text value.
pub mod Adjacency
pub mod Components
pub mod Duplicates
use topo_forge_ai.Network.{Interface}
use topo_forge_ai.Prelude.{
  some, none, [], ◌∷◌, String, List, Option, Bool, if◌then◌else◌, filter, map, ℕ, contains, ◌==◌,
  str_le, find, dedup, is_some, ◌&&◌, length, ◌++◌, lookup, not, String-Eq, ℕ-Eq, true, ◌≡◌, Eq,
  ◌+◌, ltb, ◌↔◌, arith, eq_iff, ap,
}

pub record Node : Type 0 where
  pub id : String
  pub type : String
  pub name : Option String
  pub interface_ids : List String

unfoldable pub display_name : Node → String
display_name n = elim n.name [ none ↦ n.id | some name ↦ name ]

-- `L3_FORWARDING_TYPES` and `L2_TYPES` of src/domain/topology/node_types.py.
abbrev pub l3_forwarding_types : List String
l3_forwarding_types = "router" ∷ "firewall" ∷ "gateway" ∷ "load_balancer" ∷ []

abbrev pub l2_types : List String
l2_types = "switch" ∷ "access_point" ∷ []

unfoldable pub is_l3_forwarder : Node → Bool
is_l3_forwarder n = contains l3_forwarding_types n.type

unfoldable pub is_l2 : Node → Bool
is_l2 n = contains l2_types n.type

pub record LinkEndpoint : Type 0 where
  pub node_id : String
  pub interface_id : Option String

pub record Edge : Type 0 where
  pub id : String
  pub source : LinkEndpoint
  pub target : LinkEndpoint
  pub directed : Bool
  pub network_id : Option String
  pub vlan_id : Option ℕ

unfoldable pub node_ids : Edge → List String
node_ids e = e.source.node_id ∷ e.target.node_id ∷ []

unfoldable pub connects : Edge → String → Bool
unfolding node_ids
connects e node_id = contains (node_ids e) node_id

unfoldable pub other_end : Edge → String → Option String
other_end e node_id =
    if e.source.node_id == node_id
    then some e.target.node_id
    else if e.target.node_id == node_id
    then some e.source.node_id
    else none

-- `tuple(sorted(self.node_ids))`
unfoldable pub unordered_key : Edge → String × String
unordered_key e =
    if str_le e.source.node_id e.target.node_id
    then (e.source.node_id, e.target.node_id)
    else (e.target.node_id, e.source.node_id)

pub record Topology : Type 0 where
  pub nodes : List Node
  pub edges : List Edge
  pub interfaces : List Interface

unfoldable pub node : String → Topology → Option Node
node node_id t = find (λ n. n.id == node_id) t.nodes

unfoldable pub interface : String → Topology → Option Interface
interface interface_id t = find (λ i. i.id == interface_id) t.interfaces

unfoldable pub interfaces_of : String → List Interface → List Interface
interfaces_of node_id interfaces = filter (λ i. i.node_id == node_id) interfaces

unfoldable pub edges_of : String → List Edge → List Edge
unfolding connects
edges_of node_id edges = filter (λ e. connects e node_id) edges

-- A dictionary from ids to lists: `{node.id: [] for node in nodes}`, one entry for each id.
abbrev pub no_neighbours : List String → List (String × List String)
no_neighbours ids = map (λ i. (i, [])) (dedup ids)

-- `adjacency[key].append(item)` for a key that is there.
abbrev pub append_at : String → String → List (String × List String) → List (String × List String)
append_at key item [] = []
append_at key item ((k, xs) ∷ rest) =
    if k == key then (k, xs ++ item ∷ []) ∷ rest else (k, xs) ∷ append_at key item rest

abbrev pub has_key : String → List (String × List String) → Bool
has_key key m = is_some (lookup key m)

-- One round of the loop over the edges.
abbrev pub link : Edge → List (String × List String) → List (String × List String)
link e m =
    let a = e.source.node_id in
    let b = e.target.node_id in
    if has_key a m && (has_key b m && not (a == b)) then append_at b a (append_at a b m) else m

abbrev pub link_all : List Edge → List (String × List String) → List (String × List String)
link_all [] m = m
link_all (e ∷ rest) m = link_all rest (link e m)

unfoldable pub adjacency : Topology → List (String × List String)
adjacency t = link_all t.edges (no_neighbours (map (λ n. n.id) t.nodes))

unfoldable pub degree : String → Topology → ℕ
unfolding edges_of
degree node_id t = length (edges_of node_id t.edges)

unfoldable pub isolated_node_ids : Topology → List String
unfolding degree
isolated_node_ids t = map (λ n. n.id) (filter (λ n. degree n.id t == 0) t.nodes)

pub pair_agrees : (x y : String × String) → ((x.0 == y.0 && x.1 == y.1) ≡ true) ↔ (x ≡ y)
pair_agrees x y = (
  λ h.
      let first : x.0 ≡ y.0 = ground (arith, eq_iff x.0 y.0) in
      let second : x.1 ≡ y.1 = ground (arith, eq_iff x.1 y.1) in λ i. (first i, second i),
  λ h.
      let first : x.0 ≡ y.0 = ap (λ p. p.0) h in
      let second : x.1 ≡ y.1 = ap (λ p. p.1) h in ground (arith, eq_iff x.0 y.0, eq_iff x.1 y.1),
)

instance abbrev pub Pair-Eq : Eq (String × String)
Pair-Eq = record { same_as = λ x y. x.0 == y.0 && x.1 == y.1; agrees = pair_agrees }

-- `counts[key] += 1` of a dictionary with the default 0.
abbrev pub count_key : String × String → List ((String × String) × ℕ) → List ((String × String) × ℕ)
count_key k [] = (k, 1) ∷ []
count_key k ((j, n) ∷ m) = if j == k then (j, n + 1) ∷ m else (j, n) ∷ count_key k m

abbrev pub count_edges : List Edge → List ((String × String) × ℕ) → List ((String × String) × ℕ)
count_edges [] m = m
count_edges (e ∷ es) m = count_edges es (count_key (unordered_key e) m)

unfoldable pub duplicate_edge_keys : Topology → List ((String × String) × ℕ)
duplicate_edge_keys t = filter (λ entry. ltb 1 entry.1) (count_edges t.edges [])
