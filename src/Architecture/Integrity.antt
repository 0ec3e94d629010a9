-- ===== src/Architecture/Integrity.antt =====
-- What the model validator of the document (`_referential_integrity` of
-- src/domain/architecture/models.py) accepts.
use topo_forge_ai.Network.{Interface}
use topo_forge_ai.Topology.{LinkEndpoint, Edge}
use topo_forge_ai.Architecture.{
  NetworkArchitecture, check_interface, check_endpoint, referential_integrity, has_duplicates,
  check_edge, ids_of_nodes, ids_of_interfaces, duplicate_node_ids, duplicate_interface_ids,
}
use topo_forge_ai.Prelude.{
  refl, some, true, inl, inr, ok, String, List, distinct, ◌≡◌, for_each, In, ◌↔◌, String-Eq, arith,
  All, Option-cases, for_each_iff, >>-eq-ok_iff, require, not, ◌>>◌, All-map, has_duplicates_iff,
}

-- The node of an end is there, and so is its interface, if it names one.
abbrev pub IsKnownEnd : List String → List String → LinkEndpoint → Type 0
IsKnownEnd nodes interfaces end =
    In end.node_id nodes × ((i : String) → end.interface_id ≡ some i → In i interfaces)

-- No id occurs twice, and what a part of the document refers to is there.
pub record IsWellFormed (d : NetworkArchitecture) : Type 0 where
  pub nodes : distinct (ids_of_nodes d.nodes) ≡ true
  pub interfaces : distinct (ids_of_interfaces d.interfaces) ≡ true
  pub owners : All (λ i. In i.node_id (ids_of_nodes d.nodes)) d.interfaces
  pub ends :
      All
        (λ e.
          IsKnownEnd (ids_of_nodes d.nodes) (ids_of_interfaces d.interfaces) e.source
          × IsKnownEnd (ids_of_nodes d.nodes) (ids_of_interfaces d.interfaces) e.target)
        d.edges

check_interface_iff :
    (nodes : List String) (i : Interface) → (check_interface nodes i ≡ ok tt) ↔ In i.node_id nodes
unfolding check_interface
check_interface_iff nodes i = ground arith

check_endpoint_iff :
    (nodes interfaces : List String) (edge_id : String) (end : LinkEndpoint)
    → (check_endpoint nodes interfaces edge_id end ≡ ok tt) ↔ IsKnownEnd nodes interfaces end
unfolding check_endpoint
check_endpoint_iff nodes interfaces edge_id end = elim (Option-cases end.interface_id) [
  | inl unnamed ↦ rw unnamed (ground arith)
  | inr (i, named) ↦
      rw named
        (λ h. (ground arith, λ j same. ground arith), λ w. let inside = w.1 i refl in ground arith)
]

check_edge_iff :
    (nodes interfaces : List String) (e : Edge)
    → (check_edge nodes interfaces e ≡ ok tt)
      ↔ (IsKnownEnd nodes interfaces e.source × IsKnownEnd nodes interfaces e.target)
unfolding check_edge
check_edge_iff nodes interfaces e =
    let parts =
      >>-eq-ok_iff (check_endpoint nodes interfaces e.id e.source)
        (check_endpoint nodes interfaces e.id e.target) {y = tt} in
    let source = check_endpoint_iff nodes interfaces e.id e.source in
    let target = check_endpoint_iff nodes interfaces e.id e.target in
    (
      λ h. (source.0 (parts.0 h).0, target.0 (parts.0 h).1),
      λ h. parts.1 (source.1 h.0, target.1 h.1),
    )

-- The validator accepts a document, as it is, exactly when it is well formed.
pub referential_integrity_iff :
    (d : NetworkArchitecture) → (referential_integrity d ≡ ok d) ↔ IsWellFormed d
unfolding referential_integrity
referential_integrity_iff d =
    let nodes = ids_of_nodes d.nodes in
    let interfaces = ids_of_interfaces d.interfaces in
    let each_owner = for_each_iff (check_interface nodes) d.interfaces in
    let each_end = for_each_iff (check_edge nodes interfaces) d.edges in
    let first =
      >>-eq-ok_iff (require (not (has_duplicates nodes)) duplicate_node_ids)
        (require (not (has_duplicates interfaces)) duplicate_interface_ids
          >> (for_each (check_interface nodes) d.interfaces
              >> (for_each (check_edge nodes interfaces) d.edges >> ok d)))
        {y = d} in
    let second =
      >>-eq-ok_iff (require (not (has_duplicates interfaces)) duplicate_interface_ids)
        (for_each (check_interface nodes) d.interfaces
          >> (for_each (check_edge nodes interfaces) d.edges >> ok d))
        {y = d} in
    let third =
      >>-eq-ok_iff (for_each (check_interface nodes) d.interfaces)
        (for_each (check_edge nodes interfaces) d.edges >> ok d) {y = d} in
    let fourth = >>-eq-ok_iff (for_each (check_edge nodes interfaces) d.edges) (ok d) {y = d} in
    (
      λ h.
          let (a, h₁) = first.0 h in
          let (b, h₂) = second.0 h₁ in
          let (c, h₃) = third.0 h₂ in
          let (e, _) = fourth.0 h₃ in
          record {
            nodes = (has_duplicates_iff nodes).0 (ground arith);
            interfaces = (has_duplicates_iff interfaces).0 (ground arith);
            owners =
                All-map _ _ (λ i. (check_interface_iff nodes i).0) d.interfaces (each_owner.0 c);
            ends = All-map _ _ (λ x. (check_edge_iff nodes interfaces x).0) d.edges (each_end.0 e);
          },
      λ w.
          let no_nodes = (has_duplicates_iff nodes).1 w.nodes in
          let no_interfaces = (has_duplicates_iff interfaces).1 w.interfaces in
          first.1 (
            ground arith,
            second.1 (
              ground arith,
              third.1 (
                each_owner.1
                    (All-map _ _ (λ i. (check_interface_iff nodes i).1) d.interfaces w.owners),
                fourth.1 (
                  each_end.1
                      (All-map _ _ (λ x. (check_edge_iff nodes interfaces x).1) d.edges w.ends),
                  refl,
                ),
              ),
            ),
          ),
    )
