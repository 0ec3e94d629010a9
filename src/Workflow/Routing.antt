-- ===== src/Workflow/Routing.antt =====
-- src/infrastructure/orchestration/langgraph/routing.py: the functions that decide each branch of
-- the workflow. A lookup on a value of the wrong shape raises, as in the source.
pub mod Decisions
pub mod Generation
pub mod Words
pub mod Start
pub mod Clarification
use topo_forge_ai.Prelude.{
  String, Bool, true, false, not, List, [], ◌∷◌, Result, ok, raise, ◌>>=◌, if◌then◌else◌, nonempty,
}
use topo_forge_ai.Value.{
  Value, bool, text, list, nil, PyError, type_error, get_or, get, truthy, or_empty, is_dict,
  iterate, scalar_eq, in_set, hashable,
}
use topo_forge_ai.Workflow.State.{State, read, read_or}

-- The test against the set is made only when the mode is not "image".
unfoldable pub route_after_input_mode : State → Result PyError String
route_after_input_mode s = do
  mode ← read s "input_mode"
  let in_modes = in_set mode (text "prompt" ∷ text "revision" ∷ [])
  if scalar_eq mode (text "image")
      then ok "image"
      else (in_modes >>= λ known. ok (if known then "prompt" else "fail"))

-- The set of the answers' ids: what is no dictionary is skipped, and an id that cannot stand in a
-- set raises.
unfoldable pub answered_ids : List Value → Result PyError (List Value)
answered_ids [] = ok []
answered_ids (a ∷ rest) =
    let later = answered_ids rest in
    if is_dict a
    then (get a "question_id" >>= λ id.
        if hashable id then (later >>= λ ids. ok (id ∷ ids)) else raise type_error)
    else later

-- Whether a question is required and unanswered.
unfoldable pub is_outstanding : List Value → Value → Result PyError Bool
is_outstanding answered q = do
  required ← get_or q "required" (bool true)
  id ← get q "id"
  if truthy required then (in_set id answered >>= λ known. ok (not known)) else ok false

unfoldable pub outstanding : List Value → List Value → Result PyError (List Value)
unfolding is_outstanding
outstanding answered [] = ok []
outstanding answered (q ∷ rest) =
    let later = outstanding answered rest in
    if is_dict q
    then (is_outstanding answered q >>= λ open_now.
        later >>= λ others. ok (if open_now then q ∷ others else others))
    else later

unfoldable pub route_after_completeness : State → Result PyError String
unfolding answered_ids outstanding
route_after_completeness s = do
  errors ← read s "errors"
  let decided = do
    answers ← read_or s "clarification_answers" (list nil)
    entries ← iterate answers
    answered ← answered_ids entries
    questions ← read_or s "clarification_questions" (list nil)
    asked ← iterate questions
    open_questions ← outstanding answered asked
    ok (if nonempty open_questions then "clarify" else "enrich")
  if truthy errors then ok "fail" else decided

-- `item.get("need") in {"REQUIRED", "ERROR"}` for some dictionary of the list; `any` stops at the
-- first.
unfoldable pub any_blocking : List Value → Result PyError Bool
any_blocking [] = ok false
any_blocking (m ∷ rest) =
    let later = any_blocking rest in
    if is_dict m
    then (get m "need" >>= λ need. in_set need (text "REQUIRED" ∷ text "ERROR" ∷ []) >>= λ blocks.
        if blocks then ok true else later)
    else later

unfoldable pub route_after_network_validation : State → Result PyError String
unfolding any_blocking
route_after_network_validation s = do
  validation ← read s "network_validation"
  errors ← get (or_empty validation) "errors"
  let decided = do
    architecture ← read s "network_architecture"
    missing ← get_or (or_empty architecture) "missing_information" (list nil)
    items ← iterate missing
    blocked ← any_blocking items
    ok (if blocked then "clarify" else "translate")
  if truthy errors then ok "invalid" else decided

-- `any(infrastructure.get(key) for key in keys)`
unfoldable pub any_key : Value → List String → Result PyError Bool
any_key v [] = ok false
any_key v (k ∷ ks) =
    let later = any_key v ks in get v k >>= λ x. if truthy x then ok true else later

abbrev pub infrastructure_keys : List String
infrastructure_keys =
    "networks" ∷ "subnets" ∷ "compute" ∷ "databases" ∷ "load_balancers" ∷ "gateways"
    ∷ "route_tables" ∷ "security_groups" ∷ []

unfoldable pub has_infrastructure : Value → Result PyError Bool
unfolding any_key
has_infrastructure cloud = do
  infrastructure ← get cloud "infrastructure"
  any_key (or_empty infrastructure) infrastructure_keys

unfoldable pub route_after_cloud_validation : State → Result PyError String
unfolding has_infrastructure
route_after_cloud_validation s = do
  validation ← read s "cloud_validation"
  errors ← get (or_empty validation) "errors"
  let decided = do
    cloud ← read s "cloud_architecture"
    present ← has_infrastructure (or_empty cloud)
    ok (if present then "generate" else "invalid")
  if truthy errors then ok "invalid" else decided

unfoldable pub route_configuration_stage : State → Result PyError String
route_configuration_stage s = do
  cloud ← read s "cloud_architecture"
  configuration ← get (or_empty cloud) "configuration"
  hosts ← get (or_empty configuration) "hosts"
  let roles = get (or_empty configuration) "roles"
  has_work ← if truthy hosts then (roles >>= λ r. ok (truthy r)) else ok false
  ok (if has_work then "ansible" else "skip")

-- `result and result.get("errors")`
unfoldable pub reports_errors : Value → Result PyError Bool
reports_errors result =
    let errors = get result "errors" in
    if truthy result then (errors >>= λ e. ok (truthy e)) else ok false

unfoldable pub route_after_generation : State → Result PyError String
unfolding reports_errors
route_after_generation s = do
  terraform ← read s "terraform_validation"
  terraform_failed ← reports_errors terraform
  let decided = do
    ansible ← read s "ansible_validation"
    ansible_failed ← reports_errors ansible
    uri ← read s "terraform_project_uri"
    ok (if ansible_failed then "invalid" else if truthy uri then "review" else "invalid")
  if terraform_failed then ok "invalid" else decided

-- `v is True`
abbrev pub is_true : Value → Bool
is_true (bool true) = true
is_true _ = false

unfoldable pub route_after_approval : State → Result PyError String
route_after_approval s = do
  approved ← read s "deployment_approved"
  let decided = do
    approval ← read s "approval"
    decision ← get (or_empty approval) "decision"
    ok (if scalar_eq decision (text "approved") then "apply" else "reject")
  if is_true approved then decided else ok "reject"

unfoldable pub route_after_apply : State → Result PyError String
unfolding route_configuration_stage
route_after_apply s = do
  errors ← read s "errors"
  let decided = do
    stage ← route_configuration_stage s
    ok (if scalar_eq (text stage) (text "ansible") then "configure" else "complete")
  if truthy errors then ok "fail" else decided
