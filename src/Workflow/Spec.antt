-- ===== src/Workflow/Spec.antt =====
-- src/infrastructure/orchestration/langgraph/spec.py: a workflow graph declared as data, and the
-- questions that are asked of it. The dictionary `conditional_edges` is an association list; node
-- names are the source's strings.
pub mod Search
pub mod Reachability
pub mod Neighbours
pub mod Pipeline
use topo_forge_ai.Prelude.{
  ℕ, zero, suc, ◌+◌, String, Bool, true, false, ◌||◌, Option, none, some, List, [], ◌∷◌, ◌++◌, map,
  ◌==◌, String-Eq, contains, dedup, lookup, filter, find, if◌then◌else◌, length,
}
use topo_forge_ai.Workflow.Spec.Search.{Outcome, search, potential}

pub record NodeSpec : Type 0 where
  pub name : String
  pub description : String
  pub subgraph : String
  pub interrupt_before : Bool

pub record SubgraphSpec : Type 0 where
  pub name : String
  pub description : String

-- Branch label and destination.
abbrev pub Branches : Type 0
Branches = List (String × String)

pub record GraphSpec : Type 0 where
  pub nodes : List NodeSpec
  pub edges : List (String × String)
  pub conditional_edges : List (String × Branches)
  pub subgraphs : List SubgraphSpec
  pub entry_point : String

-- `self.conditional_edges.get(name, {})`
abbrev pub branches_of : String → List (String × Branches) → Branches
branches_of n table = elim (lookup n table) [ none ↦ [] | some bs ↦ bs ]

abbrev pub targets_from : String → List (String × String) → List String
targets_from n [] = []
targets_from n ((source, target) ∷ es) =
    if source == n then target ∷ targets_from n es else targets_from n es

abbrev pub sources_to : String → List (String × String) → List String
sources_to n [] = []
sources_to n ((source, target) ∷ es) =
    if target == n then source ∷ sources_to n es else sources_to n es

abbrev pub destinations : Branches → List String
destinations [] = []
destinations ((label, target) ∷ bs) = target ∷ destinations bs

abbrev pub branching_to : String → List (String × Branches) → List String
branching_to n [] = []
branching_to n ((source, bs) ∷ table) =
    if contains (destinations bs) n then source ∷ branching_to n table else branching_to n table

module _ (g : GraphSpec) where
  unfoldable pub node : String → Option NodeSpec
  node n = find (λ spec. spec.name == n) g.nodes

  unfoldable pub node_names : List String
  node_names = map (λ spec. spec.name) g.nodes

  unfoldable pub interrupt_nodes : List String
  interrupt_nodes = map (λ spec. spec.name) (filter (λ spec. spec.interrupt_before) g.nodes)

  unfoldable pub successors : String → List String
  successors n = dedup (targets_from n g.edges ++ destinations (branches_of n g.conditional_edges))

  unfoldable pub predecessors : String → List String
  predecessors n = dedup (sources_to n g.edges ++ branching_to n g.conditional_edges)

  -- Every node that has a successor.
  unfoldable pub origins : List String
  origins = map (λ edge. edge.0) g.edges ++ map (λ entry. entry.0) g.conditional_edges

  -- The loop pushes the successors of a node once, so this many rounds are enough.
  unfoldable pub reaches : String → String → Outcome
  unfolding search
  reaches source target =
      search successors target (suc (potential successors [] origins)) [] (source ∷ [])
