-- ===== src/Architecture/Links.antt =====
-- The document as a topology (`as_topology` of src/domain/architecture/models.py): its check at
-- construction is what keeps the adjacency lists from leaving a link out.
use topo_forge_ai.Architecture.Integrity.{referential_integrity_iff}
use topo_forge_ai.Topology.Adjacency.{joins, neighbours, contains-adjacency, adjacency_comm}
use topo_forge_ai.Architecture.{
  as_topology, NetworkArchitecture, referential_integrity, ids_of_nodes,
}
use topo_forge_ai.Topology.{Edge, adjacency}
use topo_forge_ai.Prelude.{
  [], true, ok, ◌∷◌, Bool, List, ◌≡◌, All, any, contains, arith, All-map, not, ◌==◌, eq_iff,
  String-Eq,
}

any-All :
    (p : Edge → Edge → Bool) (es : List Edge)
    → ((e : Edge) → p e e ≡ true)
    → All (λ e. any (p e) es ≡ true) es
any-All p [] self = tt
any-All p (x ∷ xs) self = (
  ground (arith, self x),
  All-map (λ e. any (p e) xs ≡ true) (λ e. any (p e) (x ∷ xs) ≡ true) (λ e h. ground arith) xs
      (any-All p xs self),
)

both : (P Q : Edge → Type 0) (es : List Edge) → All P es → All Q es → All (λ e. P e × Q e) es
both P Q [] h k = tt
both P Q (x ∷ xs) h k = ((h.0, k.0), both P Q xs h.1 k.1)

abbrev joins_same : Edge → Edge → Bool
joins_same e = joins e.source.node_id e.target.node_id

-- In a document that the validator accepts, each edge makes its two ends neighbours of each other in
-- the document's topology, unless it leads from a node to itself.
pub adjacency-IsWellFormed :
    (d : NetworkArchitecture)
    → referential_integrity d ≡ ok d
    → All
        (λ e.
          (contains (neighbours e.source.node_id (adjacency (as_topology d))) e.target.node_id
            ≡ not (e.source.node_id == e.target.node_id))
          × (contains (neighbours e.target.node_id (adjacency (as_topology d))) e.source.node_id
              ≡ not (e.source.node_id == e.target.node_id)))
        d.edges
unfolding as_topology
adjacency-IsWellFormed d accepted =
    let w = (referential_integrity_iff d).0 accepted in
    All-map _ _
      (λ e h.
        let there = contains-adjacency (as_topology d) e.source.node_id e.target.node_id in
        let back = adjacency_comm (as_topology d) e.source.node_id e.target.node_id in
        let source : contains (ids_of_nodes d.nodes) e.source.node_id ≡ true = h.0.0.0 in
        let target : contains (ids_of_nodes d.nodes) e.target.node_id ≡ true = h.0.1.0 in
        (ground (arith, there, h.1), ground (arith, there, back, h.1)))
      d.edges
      (both _ _ d.edges w.ends (
        any-All joins_same d.edges (λ e. ground (
          arith,
          eq_iff e.source.node_id e.source.node_id,
          eq_iff e.target.node_id e.target.node_id,
        ))))
