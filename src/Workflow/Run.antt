-- ===== src/Workflow/Run.antt =====
-- Runs of the workflow: which nodes a graph of src/infrastructure/orchestration/langgraph/spec.py
-- can be driven to. What a node does to the state is unknown here, so a routing function may meet
-- any state. Which routing function serves which node is the builder's choice, which is not in the
-- repository: the parameter `route`.
pub mod Gate
pub mod Gates
pub mod Labels
use topo_forge_ai.Prelude.{
  ◌≡◌, ◌⊎◌, Bool, true, false, String, Option, some, List, [], ◌∷◌, String-Eq, contains, In, lookup,
  Result, ok,
}
use topo_forge_ai.Value.{PyError}
use topo_forge_ai.Workflow.State.{State}
use topo_forge_ai.Workflow.Spec.{GraphSpec, branches_of, targets_from}

-- The routing function of each branching node.
abbrev pub Router : Type 0
Router = String → State → Result PyError String

-- A run that has come to the given node.
pub data Run (g : GraphSpec) (route : Router) : String → Type 0 where
  begin : {n : String} → n ≡ g.entry_point → Run g route n
  follow : {n m : String} → Run g route n → In m (targets_from n g.edges) → Run g route m
  branch :
      {n m : String} (r : Run g route n) (s : State) (label : String)
      → route n s ≡ ok label
      → lookup label (branches_of n g.conditional_edges) ≡ some m
      → Run g route m

-- The run left the node `gate` by the branch `label`, in a state with `P`.
module _ {g : GraphSpec} {route : Router} (gate label : String) (P : State → Type 0) where
  abbrev pub Passed : {n : String} → Run g route n → Type 0
  Passed (begin e) = ⊥
  Passed (follow r e) = Passed r
  Passed (branch {n} r s taken routed target) = ((n ≡ gate) × (taken ≡ label) × P s) ⊎ Passed r
