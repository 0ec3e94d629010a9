-- ===== src/Workflow/Spec/Neighbours.antt =====
-- `GraphSpec.successors`, `predecessors` and `reaches`
-- (src/infrastructure/orchestration/langgraph/spec.py) against one another and against the edges.
use topo_forge_ai.Prelude.{
  eq_iff, ◌≡◌, refl, ◌⊎◌, inl, inr, ◌↔◌, String, Bool, true, false, List, [], ◌∷◌, ◌++◌, map, ◌==◌,
  String-Eq, contains, In, distinct, contains-append, contains-dedup, arith, Bool-cases,
}
use topo_forge_ai.Workflow.Spec.{
  GraphSpec, Branches, branches_of, targets_from, sources_to, destinations, branching_to,
  successors, predecessors, origins, reaches,
}
use topo_forge_ai.Workflow.Spec.Search.{answer}
use topo_forge_ai.Workflow.Spec.Reachability.{Reach, search_decides}

edges-dual :
    (a b : String) (es : List (String × String))
    → contains (targets_from a es) b ≡ contains (sources_to b es) a
edges-dual a b [] = refl
edges-dual a b ((source, target) ∷ es) =
    ground (arith, eq_iff source a, eq_iff target b, edges-dual a b es)

not-branching_to :
    (a b : String) (table : List (String × Branches))
    → contains (map (λ entry. entry.0) table) a ≡ false
    → contains (branching_to b table) a ≡ false
not-branching_to a b [] h = refl
not-branching_to a b ((source, bs) ∷ table) h = ground (arith, not-branching_to a b table)

branches-dual :
    (a b : String) (table : List (String × Branches))
    → distinct (map (λ entry. entry.0) table) ≡ true
    → contains (destinations (branches_of a table)) b ≡ contains (branching_to b table) a
branches-dual a b [] h = refl
branches-dual a b ((source, bs) ∷ table) h = elim (Bool-cases (source == a)) [
  | inl same ↦ ground (arith, (eq_iff source a).0 same, same, not-branching_to a b table)
  | inr other ↦ ground (arith, other, branches-dual a b table)
]

-- In a graph whose table of branches names no source twice, as a dictionary cannot, a node `b` is
-- among the successors of `a` exactly when `a` is among the predecessors of `b`.
pub successors-predecessors :
    (g : GraphSpec) (a b : String)
    → distinct (map (λ entry. entry.0) g.conditional_edges) ≡ true
    → contains (successors g a) b ≡ contains (predecessors g b) a
unfolding successors predecessors
successors-predecessors g a b h = ground (
  arith,
  contains-dedup (targets_from a g.edges ++ destinations (branches_of a g.conditional_edges)) b,
  contains-dedup (sources_to b g.edges ++ branching_to b g.conditional_edges) a,
  contains-append (targets_from a g.edges) (destinations (branches_of a g.conditional_edges)) b,
  contains-append (sources_to b g.edges) (branching_to b g.conditional_edges) a,
  edges-dual a b g.edges,
  branches-dual a b g.conditional_edges h,
)

targets_from-covered :
    (n : String) (es : List (String × String))
    → (In n (map (λ edge. edge.0) es)) ⊎ (targets_from n es ≡ [])
targets_from-covered n [] = inr refl
targets_from-covered n ((source, target) ∷ es) = ground (arith, targets_from-covered n es)

branches-covered :
    (n : String) (table : List (String × Branches))
    → (In n (map (λ entry. entry.0) table)) ⊎ (destinations (branches_of n table) ≡ [])
branches-covered n [] = inr refl
branches-covered n ((source, bs) ∷ table) = ground (arith, branches-covered n table)

successors-covered : (g : GraphSpec) (n : String) → (In n (origins g)) ⊎ (successors g n ≡ [])
unfolding successors origins
successors-covered g n = ground (
  arith,
  targets_from-covered n g.edges,
  branches-covered n g.conditional_edges,
  contains-append (map (λ (edge : String × String). edge.0) g.edges)
      (map (λ (entry : String × Branches). entry.0) g.conditional_edges) n,
)

-- `reaches` returns on every graph, cyclic ones too, and answers true exactly when a walk along
-- successors leads from `source` to `target`.
pub reaches_decides :
    (g : GraphSpec) (source target : String)
    → (b : Bool) × (reaches g source target ≡ answer b)
      × ((b ≡ true) ↔ Reach (successors g) source target)
unfolding reaches
reaches_decides g source target =
    search_decides (successors g) (origins g) (successors-covered g) source target
