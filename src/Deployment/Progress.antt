-- ===== src/Deployment/Progress.antt =====
-- Counting the changes of a plan, and the progress of a deployment (src/domain/deployment/models.py).
use topo_forge_ai.Deployment.Stages.{
  terraform_generated, terraform_validated, ansible_generated, ansible_validated, plan_ready,
  awaiting_approval, infrastructure_applied, inventory_generated, configuration_applied, complete,
  DeploymentState, advanced_to, cloud_architecture, DeploymentStage, number, DeploymentStage-Eq,
  number_iff, index_of, Status, status_of, progress, stage_order, stage_value, complete_status,
  failed_status, active, pending, rows_from,
}
use topo_forge_ai.Deployment.{
  ResourceChangeAction, counts, DeploymentPlan, action_value, PlannedChange, count_up,
  count_changes, actions, create, update, replace, delete, no_op, read,
}
use topo_forge_ai.Prelude.{
  some, [], inl, inr, suc, ◌∷◌, String, List, ℕ, lookup, filter, ◌≡◌, ◌==◌, length, if◌then◌else◌,
  String-Eq, arith, map, ◌+◌, eq_iff, Bool-cases, ◌∙◌, refl, true, ap, contains, ◌<◌,
  contains-dedup, ◌++◌, contains-append, ltb, subst,
}
use mathlib.Core.Option
use mathlib.Core.Path.{ap₂}

-- The changes of a plan with the given action.
abbrev pub changes_with : ResourceChangeAction → List PlannedChange → List PlannedChange
changes_with a = filter (λ c. action_value c.action == action_value a)

lookup-count_up :
    (j k : String) (m : List (String × ℕ))
    → lookup k (count_up j m) ≡ (if j == k then Option.map suc (lookup k m) else lookup k m)
lookup-count_up j k [] = ground arith
lookup-count_up j k ((i, n) ∷ m) =
    ground (arith, eq_iff i j, eq_iff j k, eq_iff i k, lookup-count_up j k m)

lookup-count_changes :
    (a : ResourceChangeAction) (cs : List PlannedChange) (m : List (String × ℕ)) (n : ℕ)
    → lookup (action_value a) m ≡ some n
    → lookup (action_value a) (count_changes cs m) ≡ some (n + length (changes_with a cs))
lookup-count_changes a [] m n h = ground arith
lookup-count_changes a (c ∷ cs) m n h =
    elim (Bool-cases (action_value c.action == action_value a)) [
      | inl same ↦ ground (
        arith,
        lookup-count_up (action_value c.action) (action_value a) m,
        lookup-count_changes a cs (count_up (action_value c.action) m) (suc n),
      )
      | inr other ↦ ground (
        arith,
        lookup-count_up (action_value c.action) (action_value a) m,
        lookup-count_changes a cs (count_up (action_value c.action) m) n,
      )
    ]

abbrev no_counts : List (String × ℕ)
no_counts = map (λ b. (action_value b, 0)) actions

no_count : (a : ResourceChangeAction) → lookup (action_value a) no_counts ≡ some 0
no_count create = refl
no_count update = refl
no_count replace = refl
no_count delete = refl
no_count no_op = refl
no_count read = refl

-- `counts` has an entry for each of the six actions, which is how many changes have that action.
counts_lem :
    (p : DeploymentPlan) (a : ResourceChangeAction)
    → lookup (action_value a) (counts p) ≡ some (length (changes_with a p.changes))
unfolding counts
counts_lem p a =
    lookup-count_changes a p.changes (map (λ b. (action_value b, 0)) actions) 0 (no_count a)
    ∙ ap some (omega arith)

-- A deployment that began at the first stage and went forward, while its other fields changed in any
-- way.
pub data Forward : DeploymentState → Type 0 where
  start : (s : DeploymentState) → s.stage ≡ cloud_architecture → s.completed_stages ≡ [] → Forward s
  advance :
      (s : DeploymentState) (stage : DeploymentStage)
      → Forward s
      → number s.stage < number stage
      → Forward (advanced_to stage s)
  change :
      (s s' : DeploymentState)
      → Forward s
      → s'.stage ≡ s.stage
      → s'.completed_stages ≡ s.completed_stages
      → Forward s'

-- Every completed stage comes before the current one.
abbrev IsBehind : DeploymentState → Type 0
IsBehind s =
    (x : DeploymentStage) → contains s.completed_stages x ≡ true → number x < number s.stage

advanced_to-IsBehind :
    (s : DeploymentState) (stage : DeploymentStage)
    → IsBehind s
    → number s.stage < number stage
    → IsBehind (advanced_to stage s)
unfolding advanced_to
advanced_to-IsBehind s stage h lt x m = ground (
  arith,
  h x,
  contains-dedup (s.completed_stages ++ s.stage ∷ []) x,
  contains-append s.completed_stages (s.stage ∷ []) x,
  number_iff s.stage x,
)

Forward-IsBehind : {s : DeploymentState} → Forward s → IsBehind s
Forward-IsBehind (start s first none_done) x m = ground arith
Forward-IsBehind (advance s stage f lt) x m =
    advanced_to-IsBehind s stage (Forward-IsBehind f) lt x m
Forward-IsBehind (change s s' f same_stage same_done) x m =
    ground (arith, Forward-IsBehind f x, same_done)

index_of-number : (stage : DeploymentStage) → index_of stage stage_order ≡ number stage
index_of-number cloud_architecture = refl
index_of-number terraform_generated = refl
index_of-number terraform_validated = refl
index_of-number ansible_generated = refl
index_of-number ansible_validated = refl
index_of-number plan_ready = refl
index_of-number awaiting_approval = refl
index_of-number infrastructure_applied = refl
index_of-number inventory_generated = refl
index_of-number configuration_applied = refl
index_of-number complete = refl

-- What the row of a stage should say, by the order of the stages alone.
abbrev pub expected_status : DeploymentState → DeploymentStage → Status
expected_status s stage =
    if ltb (number stage) (number s.stage)
    then complete_status
    else if stage == s.stage
    then (if s.failed then failed_status else active)
    else pending

status_of_lem :
    (s : DeploymentState) (stage : DeploymentStage)
    → IsBehind s
    → status_of s (number stage) stage ≡ expected_status s stage
unfolding status_of
status_of_lem s stage h = ground (arith, h stage, index_of-number s.stage)

-- The stages are numbered from `n` on.
abbrev IsNumbered : ℕ → List DeploymentStage → Type 0
IsNumbered n [] = Unit
IsNumbered n (x ∷ xs) = (number x ≡ n) × IsNumbered (suc n) xs

rows_from-expected :
    (s : DeploymentState) (n : ℕ) (stages : List DeploymentStage)
    → IsBehind s
    → IsNumbered n stages
    → rows_from s n stages ≡ map (λ stage. (stage_value stage, expected_status s stage)) stages
unfolding rows_from
rows_from-expected s n [] h k = refl
rows_from-expected s n (x ∷ xs) h k =
    let row : status_of s n x ≡ expected_status s x =
      subst (λ m. status_of s m x ≡ expected_status s x) k.0 (status_of_lem s x h) in
    ap₂ (λ status rest. (stage_value x, status) ∷ rest) row (rows_from-expected s (suc n) xs h k.1)

-- In a deployment that went forward from the first stage, the progress view has one row for each
-- stage, in order: the stages before the current one are complete, the current one is failed or
-- active, those behind it are pending.
pub progress_lem :
    {s : DeploymentState}
    → Forward s
    → progress s ≡ map (λ stage. (stage_value stage, expected_status s stage)) stage_order
unfolding progress
progress_lem {s} f = rows_from-expected s 0 stage_order (Forward-IsBehind f) (omega arith)
