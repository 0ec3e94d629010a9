-- ===== src/Workflow/Routing/Words.antt =====
-- The words that each routing function of src/infrastructure/orchestration/langgraph/routing.py can
-- answer.
use topo_forge_ai.Workflow.Routing.Decisions.{held}
use topo_forge_ai.Value.{PyError, Value, get, or_empty, truthy}
use topo_forge_ai.Workflow.State.{State}
use topo_forge_ai.Workflow.Routing.{
  route_after_input_mode, route_after_completeness, State, PyError, route_after_network_validation,
  route_after_cloud_validation, route_configuration_stage, route_after_generation,
  route_after_approval, route_after_apply, has_infrastructure,
}
use topo_forge_ai.Prelude.{
  ◌≡◌, [], ok, ◌∷◌, List, String, Result, In, arith, String-Eq, eq_iff, Bool, ◌>>=◌, if◌then◌else◌,
}

-- The answer, if there is one, is among the words.
abbrev pub Answers : List String → Result PyError String → Type 0
Answers words r = (label : String) → r ≡ ok label → In label words

pub input_mode_words :
    (s : State) → Answers ("image" ∷ "prompt" ∷ "fail" ∷ []) (route_after_input_mode s)
unfolding route_after_input_mode
input_mode_words s label e =
    ground (arith, eq_iff "image" label, eq_iff "prompt" label, eq_iff "fail" label)

pub completeness_words :
    (s : State) → Answers ("clarify" ∷ "enrich" ∷ "fail" ∷ []) (route_after_completeness s)
unfolding route_after_completeness
completeness_words s label e =
    ground (arith, eq_iff "clarify" label, eq_iff "enrich" label, eq_iff "fail" label)

pub network_words :
    (s : State)
    → Answers ("translate" ∷ "clarify" ∷ "invalid" ∷ []) (route_after_network_validation s)
unfolding route_after_network_validation
network_words s label e =
    ground (arith, eq_iff "translate" label, eq_iff "clarify" label, eq_iff "invalid" label)

cloud_answer :
    (errors : Result PyError Value) (present : Result PyError Bool)
    → Answers ("generate" ∷ "invalid" ∷ []) (
        errors >>= λ e.
        if truthy e
        then ok "invalid"
        else (present >>= λ b. let word : String = if b then "generate" else "invalid" in ok word))
cloud_answer errors present label e =
    ground (arith, eq_iff "generate" label, eq_iff "invalid" label)

pub cloud_words :
    (s : State) → Answers ("generate" ∷ "invalid" ∷ []) (route_after_cloud_validation s)
unfolding route_after_cloud_validation
cloud_words s =
    cloud_answer (get (or_empty (held s "cloud_validation")) "errors")
      (has_infrastructure (or_empty (held s "cloud_architecture")))

pub configuration_words :
    (s : State) → Answers ("ansible" ∷ "skip" ∷ []) (route_configuration_stage s)
unfolding route_configuration_stage
configuration_words s label e = ground (arith, eq_iff "ansible" label, eq_iff "skip" label)

pub generation_words : (s : State) → Answers ("review" ∷ "invalid" ∷ []) (route_after_generation s)
unfolding route_after_generation
generation_words s label e = ground (arith, eq_iff "review" label, eq_iff "invalid" label)

pub approval_words : (s : State) → Answers ("apply" ∷ "reject" ∷ []) (route_after_approval s)
unfolding route_after_approval
approval_words s label e = ground (arith, eq_iff "apply" label, eq_iff "reject" label)

pub apply_words :
    (s : State) → Answers ("configure" ∷ "complete" ∷ "fail" ∷ []) (route_after_apply s)
unfolding route_after_apply
apply_words s label e =
    ground (arith, eq_iff "configure" label, eq_iff "complete" label, eq_iff "fail" label)
