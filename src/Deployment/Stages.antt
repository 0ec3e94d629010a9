-- ===== src/Deployment/Stages.antt =====
-- The stages of a deployment and its state (src/domain/deployment/models.py).
use topo_forge_ai.Value.{Value}
use topo_forge_ai.Prelude.{
  ℕ, [], ◌∷◌, some, none, true, false, ok, raise, suc, List, String, nat_eq, Eq, Result,
  if◌then◌else◌, ◌≡◌, Option, Bool, ◌==◌, ◌&&◌, ◌↔◌, dedup, ltb, arith, ◌||◌, ◌++◌, contains,
  String-Eq, ℕ-Eq,
}
use topo_forge_ai.Deployment.{DeploymentTarget, DeploymentPlan, ApprovalRecord, authorises}

pub data DeploymentStage : Type 0 where
  cloud_architecture terraform_generated terraform_validated ansible_generated ansible_validated
        plan_ready awaiting_approval infrastructure_applied inventory_generated
        configuration_applied complete :
      DeploymentStage

abbrev pub stage_order : List DeploymentStage
stage_order =
    cloud_architecture ∷ terraform_generated ∷ terraform_validated ∷ ansible_generated
    ∷ ansible_validated ∷ plan_ready ∷ awaiting_approval ∷ infrastructure_applied
    ∷ inventory_generated ∷ configuration_applied ∷ complete ∷ []

-- `stage.value`
abbrev pub stage_value : DeploymentStage → String
stage_value cloud_architecture = "cloud_architecture"
stage_value terraform_generated = "terraform_generated"
stage_value terraform_validated = "terraform_validated"
stage_value ansible_generated = "ansible_generated"
stage_value ansible_validated = "ansible_validated"
stage_value plan_ready = "plan_ready"
stage_value awaiting_approval = "awaiting_approval"
stage_value infrastructure_applied = "infrastructure_applied"
stage_value inventory_generated = "inventory_generated"
stage_value configuration_applied = "configuration_applied"
stage_value complete = "complete"

-- Where the stage stands in the enumeration, by which stages are compared.
abbrev pub number : DeploymentStage → ℕ
number cloud_architecture = 0
number terraform_generated = 1
number terraform_validated = 2
number ansible_generated = 3
number ansible_validated = 4
number plan_ready = 5
number awaiting_approval = 6
number infrastructure_applied = 7
number inventory_generated = 8
number configuration_applied = 9
number complete = 10

pub number_iff : (a b : DeploymentStage) → (nat_eq (number a) (number b) ≡ true) ↔ (a ≡ b)
number_iff a b = ground arith

instance abbrev pub DeploymentStage-Eq : Eq DeploymentStage
DeploymentStage-Eq = record { same_as = λ a b. nat_eq (number a) (number b); agrees = number_iff }

pub record DeploymentState : Type 0 where
  pub id : String
  pub project_id : Option String
  pub cloud_architecture_id : Option String
  pub network_architecture_id : Option String
  pub target : DeploymentTarget
  pub stage : DeploymentStage
  pub completed_stages : List DeploymentStage
  pub plan : Option DeploymentPlan
  pub approval : Option ApprovalRecord
  pub terraform_project_uri : Option String
  pub ansible_project_uri : Option String
  pub inventory_uri : Option String
  pub failed : Bool
  pub error : Option Value

pub data DeploymentError : Type 0 where
  approval_references_different_plan : DeploymentError

-- The model validator: what a constructed state is checked for.
unfoldable pub approval_matches_plan : DeploymentState → Result DeploymentError DeploymentState
approval_matches_plan s = elim s.approval [
  | none ↦ ok s
  | some a ↦ elim s.plan [
    | none ↦ ok s
    | some p ↦ if a.plan_id == p.id then ok s else raise approval_references_different_plan
  ]
]

unfoldable pub may_apply : (List ℕ → String) → DeploymentState → Bool
may_apply sha256 s = elim s.plan [
  | none ↦ false
  | some p ↦ elim s.approval [ none ↦ false | some a ↦ authorises sha256 a p ]
]

unfoldable pub advanced_to : DeploymentStage → DeploymentState → DeploymentState
advanced_to stage s = record s {
  stage = stage;
  completed_stages =
      if s.stage == stage then s.completed_stages else dedup (s.completed_stages ++ s.stage ∷ []);
}

-- `DEPLOYMENT_STAGE_ORDER.index(stage)`, for a stage that is there.
abbrev pub index_of : DeploymentStage → List DeploymentStage → ℕ
index_of stage [] = 0
index_of stage (x ∷ xs) = if x == stage then 0 else suc (index_of stage xs)

pub data Status : Type 0 where
  failed_status complete_status active pending : Status

-- The row of one stage at its index.
unfoldable pub status_of : DeploymentState → ℕ → DeploymentStage → Status
status_of s index stage =
    let current = index_of s.stage stage_order in
    if s.failed && index == current
    then failed_status
    else if ltb index current || contains s.completed_stages stage
    then complete_status
    else if index == current
    then active
    else pending

unfoldable pub rows_from : DeploymentState → ℕ → List DeploymentStage → List (String × Status)
unfolding status_of
rows_from s index [] = []
rows_from s index (stage ∷ rest) =
    (stage_value stage, status_of s index stage) ∷ rows_from s (suc index) rest

unfoldable pub progress : DeploymentState → List (String × Status)
unfolding rows_from
progress s = rows_from s 0 stage_order
