-- ===== src/Workflow/Routing/Start.antt =====
-- From `initial_state` (src/infrastructure/orchestration/langgraph/state.py) into the first branch.
use topo_forge_ai.Workflow.Routing.{route_after_input_mode, route_after_approval, State}
use topo_forge_ai.Workflow.State.{
  InputMode, StartArgs, initial_state, given, image, State, prompt, StartError, revision,
  image_mode_requires_image, started, prompt_mode_requires_prompt,
}
use topo_forge_ai.Prelude.{◌≡◌, true, false, ok, raise, String, Bool, refl, arith}

-- The label for each input mode.
abbrev pub first_label : InputMode → String
first_label image = "image"
first_label prompt = "prompt"
first_label revision = "prompt"

-- The input that the mode cannot do without.
abbrev pub has_input : StartArgs → InputMode → Bool
has_input a image = given a.image_uri
has_input a prompt = given a.user_prompt
has_input a revision = true

-- What is raised where the mode lacks its input.
abbrev pub missing_input : InputMode → StartError
missing_input image = image_mode_requires_image
missing_input _ = prompt_mode_requires_prompt

routed :
    (a : StartArgs) (m : InputMode)
    → a.input_mode ≡ m
    → route_after_input_mode (started a) ≡ ok (first_label m)
unfolding started route_after_input_mode
routed a image e = rw e refl
routed a prompt e = rw e refl
routed a revision e = rw e refl

-- `initial_state` succeeds when the mode's input is given and not empty, for a revision always, whatever
-- other inputs are given; and then its state is routed to the branch of its mode and would be rejected
-- at the approval; otherwise it raises the error of its mode.
pub initial_state-routes :
    (a : StartArgs)
    → (has_input a a.input_mode ≡ true
        → (s : State) × (initial_state a ≡ ok s)
          × (route_after_input_mode s ≡ ok (first_label a.input_mode))
          × (route_after_approval s ≡ ok "reject"))
      × (has_input a a.input_mode ≡ false → initial_state a ≡ raise (missing_input a.input_mode))
unfolding initial_state route_after_approval
initial_state-routes a =
    (λ h. (started a, ground arith, routed a a.input_mode refl, refl), λ h. ground arith)
