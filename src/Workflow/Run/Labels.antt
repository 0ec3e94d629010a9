-- ===== src/Workflow/Run/Labels.antt =====
-- The routing functions of src/infrastructure/orchestration/langgraph/routing.py answer only
-- labels that the graph of spec.py declares at the node that they serve.
use topo_forge_ai.Workflow.Routing.Words.{
  Answers, input_mode_words, completeness_words, network_words, cloud_words, configuration_words,
  generation_words, approval_words, apply_words,
}
use topo_forge_ai.Workflow.Spec.Pipeline.{graph_spec}
use topo_forge_ai.Workflow.Spec.{branches_of}
use topo_forge_ai.Value.{PyError}
use topo_forge_ai.Workflow.Routing.{
  route_after_input_mode, route_after_completeness, route_after_network_validation,
  route_after_cloud_validation, route_configuration_stage, route_after_generation,
  route_after_approval, route_after_apply,
}
use topo_forge_ai.Workflow.State.{State}
use topo_forge_ai.Prelude.{
  ◌≡◌, refl, some, none, [], true, false, inl, inr, ok, ◌∷◌, String, Bool, List, Result, lookup,
  all, contains, In, map, Bool-cases, ◌==◌, String-Eq, eq_iff, and_parts, arith,
}

-- The label leads from the node to a node of the graph.
abbrev pub leads : String → String → Bool
leads n label = elim (lookup label (branches_of n graph_spec.conditional_edges)) [
  | none ↦ false
  | some target ↦ contains (map (λ spec. spec.name) graph_spec.nodes) target
]

leads-all :
    (n : String) (words : List String) (r : Result PyError String) {label : String}
    → all (leads n) words ≡ true
    → Answers words r
    → r ≡ ok label
    → leads n label ≡ true
leads-all n words r {label} h answers e = go words h (answers label e)
  where
    go : (ws : List String) → all (leads n) ws ≡ true → In label ws → leads n label ≡ true
    go [] p i = cc
    go (w ∷ ws) p i = elim (Bool-cases (w == label)) [
      | inl same ↦ rw (← (eq_iff w label).0 same) (and_parts (leads n w) (all (leads n) ws) p).0
      | inr other ↦ go ws (and_parts (leads n w) (all (leads n) ws) p).1 (ground arith)
    ]

-- What the router answers at the node is a declared branch to a node of the graph.
abbrev pub ServesBranches : (State → Result PyError String) → String → Type 0
ServesBranches router n = (s : State) (label : String) → router s ≡ ok label → leads n label ≡ true

serves :
    (router : State → Result PyError String) (n : String) (words : List String)
    → all (leads n) words ≡ true
    → ((s : State) → Answers words (router s))
    → ServesBranches router n
serves router n words h answers s label e = leads-all n words (router s) h (answers s) e

-- Each of the eight routing functions answers, in every state in which it does not raise, a label
-- that the pipeline declares at the node that it serves, with a destination that is a node of the
-- pipeline.
pub routers_serve_branches :
    ServesBranches route_after_input_mode "detect_input_mode"
    × ServesBranches route_after_completeness "analyze_completeness"
    × ServesBranches route_after_network_validation "validate_network"
    × ServesBranches route_after_cloud_validation "validate_cloud_architecture"
    × ServesBranches route_configuration_stage "validate_terraform"
    × ServesBranches route_after_generation "validate_ansible"
    × ServesBranches route_after_approval "await_approval"
    × ServesBranches route_after_apply "collect_outputs"
routers_serve_branches = (
  serves route_after_input_mode "detect_input_mode" ("image" ∷ "prompt" ∷ "fail" ∷ []) refl
      input_mode_words,
  serves route_after_completeness "analyze_completeness" ("clarify" ∷ "enrich" ∷ "fail" ∷ []) refl
      completeness_words,
  serves route_after_network_validation "validate_network"
      ("translate" ∷ "clarify" ∷ "invalid" ∷ []) refl network_words,
  serves route_after_cloud_validation "validate_cloud_architecture" ("generate" ∷ "invalid" ∷ [])
      refl cloud_words,
  serves route_configuration_stage "validate_terraform" ("ansible" ∷ "skip" ∷ []) refl
      configuration_words,
  serves route_after_generation "validate_ansible" ("review" ∷ "invalid" ∷ []) refl
      generation_words,
  serves route_after_approval "await_approval" ("apply" ∷ "reject" ∷ []) refl approval_words,
  serves route_after_apply "collect_outputs" ("configure" ∷ "complete" ∷ "fail" ∷ []) refl
      apply_words,
)
