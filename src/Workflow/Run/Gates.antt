-- ===== src/Workflow/Run/Gates.antt =====
-- The three gates of the pipeline: into the translation, into the generators, into the apply stage
-- (src/infrastructure/orchestration/langgraph/routing.py and spec.py).
use topo_forge_ai.Prelude.{◌≡◌, refl, subst, String, List, [], ◌∷◌, String-Eq, In, ok}
use topo_forge_ai.Workflow.Routing.{
  route_after_approval, route_after_network_validation, route_after_cloud_validation,
}
use topo_forge_ai.Workflow.Routing.Decisions.{
  IsApproved, route_after_approval_iff, IsTranslatable, translate-IsTranslatable,
}
use topo_forge_ai.Workflow.Routing.Generation.{IsGeneratable, generate-IsGeneratable}
use topo_forge_ai.Workflow.Spec.Pipeline.{graph_spec}
use topo_forge_ai.Workflow.Run.{Router, Run, Passed}
use topo_forge_ai.Workflow.Run.Gate.{guarded-Passed}

-- The nodes that mutate infrastructure or follow such a node.
abbrev pub applied_nodes : List String
applied_nodes =
    "terraform_apply" ∷ "collect_outputs" ∷ "generate_inventory" ∷ "run_configuration" ∷ "complete"
    ∷ []

-- The generators and what follows them.
abbrev pub generated_nodes : List String
generated_nodes =
    "generate_terraform" ∷ "validate_terraform" ∷ "generate_ansible" ∷ "validate_ansible"
    ∷ "deployment_review" ∷ "terraform_plan" ∷ "await_approval" ∷ "rejected" ∷ applied_nodes

-- The translation and what follows it.
abbrev pub translated_nodes : List String
translated_nodes =
    "finalise_network_architecture" ∷ "rag_translate" ∷ "validate_cloud_architecture"
    ∷ generated_nodes

module _ (route : Router) where
  -- If `await_approval` is served by `route_after_approval`, every run that has come to a node
  -- that applies, configures or completes has left `await_approval` by "apply" in an approved
  -- state, whatever the nodes did to the state.
  pub apply_needs_approval :
      route "await_approval" ≡ route_after_approval
      → {n : String} (r : Run graph_spec route n) → In n applied_nodes
      → Passed "await_approval" "apply" IsApproved r
  apply_needs_approval served r i =
      guarded-Passed applied_nodes "await_approval" "apply" IsApproved graph_spec route refl
        (λ s h. (route_after_approval_iff s).0 (subst (λ f. f s ≡ ok "apply") served h)) r i

  -- If `validate_network` is served by `route_after_network_validation`, every run that has come
  -- to the translation or to a node behind it has left `validate_network` by "translate" in a
  -- state without validation errors and without a gap that must be filled.
  pub translation_needs_validation :
      route "validate_network" ≡ route_after_network_validation
      → {n : String} (r : Run graph_spec route n) → In n translated_nodes
      → Passed "validate_network" "translate" IsTranslatable r
  translation_needs_validation served r i =
      guarded-Passed translated_nodes "validate_network" "translate" IsTranslatable graph_spec route
        refl (λ s h. translate-IsTranslatable s (subst (λ f. f s ≡ ok "translate") served h)) r i

  -- If `validate_cloud_architecture` is served by `route_after_cloud_validation`, every run that
  -- has come to a generator or to a node behind it has left `validate_cloud_architecture` by
  -- "generate" in a state without validation errors and with something to provision.
  pub generation_needs_cloud :
      route "validate_cloud_architecture" ≡ route_after_cloud_validation
      → {n : String} (r : Run graph_spec route n) → In n generated_nodes
      → Passed "validate_cloud_architecture" "generate" IsGeneratable r
  generation_needs_cloud served r i =
      guarded-Passed generated_nodes "validate_cloud_architecture" "generate" IsGeneratable
        graph_spec route refl
        (λ s h. generate-IsGeneratable s (subst (λ f. f s ≡ ok "generate") served h)) r i
