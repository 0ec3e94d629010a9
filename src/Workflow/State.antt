-- ===== src/Workflow/State.antt =====
-- src/infrastructure/orchestration/langgraph/state.py: the state that is threaded through the
-- workflow, as the dictionary that it is, and its starting value.
use topo_forge_ai.Prelude.{
  String, Bool, true, false, ◌&&◌, not, Option, none, some, Result, ok, raise, if◌then◌else◌,
}
use topo_forge_ai.Value.{
  Value, bool, text, list, dict, nil, Fields, end, field, PyError, get_or, get, truthy,
}
use Prim.Native.String.{◌++◌ as append}

pub data InputMode : Type 0 where
  image prompt revision : InputMode

abbrev pub mode_value : InputMode → String
mode_value image = "image"
mode_value prompt = "prompt"
mode_value revision = "revision"

-- The keys that were written, in order.
abbrev pub State : Type 0
State = Fields

-- `state.get(key)`, `state.get(key, default)`
abbrev pub read : State → String → Result PyError Value
read s k = get (dict s) k

abbrev pub read_or : State → String → Value → Result PyError Value
read_or s k d = get_or (dict s) k d

pub data StartError : Type 0 where
  image_mode_requires_image prompt_mode_requires_prompt : StartError

abbrev pub is_image : InputMode → Bool
is_image image = true
is_image _ = false

abbrev pub is_prompt : InputMode → Bool
is_prompt prompt = true
is_prompt _ = false

-- `bool(s)` for `s: str | None`
abbrev pub given : Option String → Bool
given none = false
given (some s) = truthy (text s)

-- `if v: state[key] = v`, at the end of the dictionary.
abbrev optional : String → Option String → Fields → Fields
optional k none rest = rest
optional k (some s) rest = if truthy (text s) then field k (text s) rest else rest

pub record StartArgs : Type 0 where
  pub project_id : String
  pub architecture_id : String
  pub workflow_id : String
  pub input_mode : InputMode
  pub image_uri : Option String
  pub user_prompt : Option String
  pub actor : Option String

unfoldable pub started : StartArgs → State
started a = field "project_id" (text a.project_id) (
    field "architecture_id" (text a.architecture_id) (
      field "workflow_id" (text a.workflow_id) (
        field "thread_id" (text (append a.project_id (append ":" a.architecture_id))) (
          field "input_mode" (text (mode_value a.input_mode)) (
            field "current_stage" (text "started") (
              field "messages" (list nil) (
                field "errors" (list nil) (
                  field "timings" (dict end) (
                    field "deployment_approved" (bool false) (
                      optional "image_uri" a.image_uri (
                        optional "user_prompt" a.user_prompt
                          (optional "actor" a.actor end))))))))))))

unfoldable pub initial_state : StartArgs → Result StartError State
unfolding started
initial_state a =
    if is_image a.input_mode && not (given a.image_uri)
    then raise image_mode_requires_image
    else if is_prompt a.input_mode && not (given a.user_prompt)
    then raise prompt_mode_requires_prompt
    else ok (started a)
