-- ===== src/Tests/Pipeline.antt =====
-- A run of the pipeline up to the apply stage.
use topo_forge_ai.Workflow.Spec.Reachability.{Reach}
use topo_forge_ai.Workflow.Spec.Neighbours.{successors-predecessors, reaches_decides}
use topo_forge_ai.Workflow.Routing.Start.{missing_input, initial_state-routes}
use topo_forge_ai.Workflow.Spec.Search.{answer, potential}
use topo_forge_ai.Workflow.Run.Gates.{
  apply_needs_approval, translation_needs_validation, generation_needs_cloud,
}
use topo_forge_ai.Workflow.Routing.Clarification.{IsAsked, still_open, completeness-still_open}
use topo_forge_ai.Workflow.Routing.Generation.{IsGeneratable}
use topo_forge_ai.Workflow.Routing.Decisions.{IsApproved, IsTranslatable}
use topo_forge_ai.Workflow.Spec.Pipeline.{graph_spec}
use topo_forge_ai.Value.{field, text, dict, list, cons, end, nil, bool}
use topo_forge_ai.Workflow.Spec.{reaches, successors, origins, predecessors, branches_of}
use topo_forge_ai.Workflow.Routing.{
  route_after_input_mode, route_after_completeness, route_after_network_validation,
  route_after_cloud_validation, route_configuration_stage, route_after_approval, reports_errors,
  route_after_generation, route_after_apply,
}
use topo_forge_ai.Workflow.State.{State, StartArgs, prompt, initial_state}
use topo_forge_ai.Workflow.Run.{Router, Run, Passed, branch, follow, begin}
use topo_forge_ai.Prelude.{
  ◌≡◌, refl, some, none, true, false, ok, raise, Bool, contains, if◌then◌else◌, lookup, ◌==◌,
  nonempty, ◌↔◌, String-Eq, arith, eq_iff, String,
}

-- The pairing of routing functions with nodes that their names and labels suggest.
abbrev pairing : Router
pairing n =
    if n == "detect_input_mode"
    then route_after_input_mode
    else if n == "analyze_completeness"
    then route_after_completeness
    else if n == "validate_network"
    then route_after_network_validation
    else if n == "validate_cloud_architecture"
    then route_after_cloud_validation
    else if n == "validate_terraform"
    then route_configuration_stage
    else if n == "validate_ansible"
    then route_after_generation
    else if n == "await_approval"
    then route_after_approval
    else route_after_apply

-- A prompt, one answered question, one network to provision, no hosts, and an approval.
abbrev sample : State
sample = field "input_mode" (text "prompt") (
    field "clarification_questions" (list (cons (dict (field "id" (text "q1") end)) nil)) (
      field "clarification_answers" (list (cons (dict (field "question_id" (text "q1") end)) nil)) (
        field "network_architecture"
          (dict (
            field "missing_information"
              (list (cons (dict (field "need" (text "OPTIONAL") end)) nil)) end))
          (field "cloud_architecture"
            (dict (
              field "infrastructure" (dict (field "networks" (list (cons (text "vpc") nil)) end))
                end))
            (field "deployment_approved" (bool true)
              (field "approval" (dict (field "decision" (text "approved") end)) end))))))

at_prompt : Run graph_spec pairing "prompt_llm"
unfolding route_after_input_mode
at_prompt = branch (begin refl) sample "prompt" refl refl

at_topology : Run graph_spec pairing "build_topology_from_prompt"
at_topology = follow at_prompt refl

at_completeness : Run graph_spec pairing "analyze_completeness"
at_completeness = follow at_topology refl

at_enrich : Run graph_spec pairing "enrich_network"
unfolding route_after_completeness
at_enrich = branch at_completeness sample "enrich" refl refl

at_validate : Run graph_spec pairing "validate_network"
at_validate = follow at_enrich refl

at_finalise : Run graph_spec pairing "finalise_network_architecture"
unfolding route_after_network_validation
at_finalise = branch at_validate sample "translate" refl refl

at_translate : Run graph_spec pairing "rag_translate"
at_translate = follow at_finalise refl

at_cloud : Run graph_spec pairing "validate_cloud_architecture"
at_cloud = follow at_translate refl

at_terraform : Run graph_spec pairing "generate_terraform"
unfolding route_after_cloud_validation
at_terraform = branch at_cloud sample "generate" refl refl

at_terraform_checked : Run graph_spec pairing "validate_terraform"
at_terraform_checked = follow at_terraform refl

at_review : Run graph_spec pairing "deployment_review"
unfolding route_configuration_stage
at_review = branch at_terraform_checked sample "skip" refl refl

at_plan : Run graph_spec pairing "terraform_plan"
at_plan = follow at_review refl

at_approval : Run graph_spec pairing "await_approval"
at_approval = follow at_plan refl

at_apply : Run graph_spec pairing "terraform_apply"
unfolding route_after_approval
at_apply = branch at_approval sample "apply" refl refl

apply_needs_approval_example : Passed "await_approval" "apply" IsApproved at_apply
apply_needs_approval_example = apply_needs_approval pairing refl at_apply refl

translation_needs_validation_example : Passed "validate_network" "translate" IsTranslatable at_apply
translation_needs_validation_example = translation_needs_validation pairing refl at_apply refl

generation_needs_cloud_example :
    Passed "validate_cloud_architecture" "generate" IsGeneratable at_review
generation_needs_cloud_example = generation_needs_cloud pairing refl at_review refl

reaches_decides_example :
    (b : Bool) × (reaches graph_spec "prompt_llm" "terraform_apply" ≡ answer b)
    × ((b ≡ true) ↔ Reach (successors graph_spec) "prompt_llm" "terraform_apply")
reaches_decides_example = reaches_decides graph_spec "prompt_llm" "terraform_apply"

reaches_test :
    (reaches graph_spec "prompt_llm" "terraform_apply" ≡ answer true)
    × (reaches graph_spec "complete" "terraform_apply" ≡ answer false)
    × (reaches graph_spec "await_clarification" "await_clarification" ≡ answer true)
unfolding reaches successors origins potential
reaches_test = (refl, refl, refl)

successors-predecessors_example :
    contains (successors graph_spec "validate_network") "await_clarification"
    ≡ contains (predecessors graph_spec "await_clarification") "validate_network"
successors-predecessors_example =
    successors-predecessors graph_spec "validate_network" "await_clarification" refl

completeness-still_open_example :
    (a : IsAsked sample) × (◌≡◌ {A = String} "enrich"
      (if nonempty (still_open a) then "clarify" else "enrich"))
unfolding route_after_completeness
completeness-still_open_example =
    completeness-still_open sample "enrich" refl (ground (arith, eq_iff "enrich" "fail"))

abbrev prompted : StartArgs
prompted = record {
  project_id = "p";
  architecture_id = "a";
  workflow_id = "w";
  input_mode = prompt;
  image_uri = none;
  user_prompt = some "two routers";
  actor = none;
}

initial_state-routes_example :
    (true ≡ true
      → (s : State) × (initial_state prompted ≡ ok s)
        × (route_after_input_mode s ≡ ok "prompt")
        × (route_after_approval s ≡ ok "reject"))
    × (true ≡ false → initial_state prompted ≡ raise (missing_input prompt))
initial_state-routes_example = initial_state-routes prompted

-- Terraform errors, and no host to configure.
abbrev broken : State
broken =
    field "terraform_validation" (dict (field "errors" (list (cons (text "invalid") nil)) end)) end

-- The branch that skips Ansible leads on in spite of the errors.
skip_of_broken :
    (route_configuration_stage broken ≡ ok "skip")
    × (lookup "skip" (branches_of "validate_terraform" graph_spec.conditional_edges)
        ≡ some "deployment_review")
    × (route_after_generation broken ≡ ok "invalid")
unfolding route_configuration_stage route_after_generation reports_errors
skip_of_broken = (refl, refl, refl)
