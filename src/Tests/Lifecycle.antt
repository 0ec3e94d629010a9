-- ===== src/Tests/Lifecycle.antt =====
-- Concrete claims, reports, plans and deployments for the lemmas about them.
use mathlib.Core.List.{Perm}
use mathlib.Core.List.Perm
use topo_forge_ai.Provenance.Merge.{trail, trail-merge_evidence, merge_evidence-wins}
use topo_forge_ai.Deployment.Progress.{Forward, advance, start, expected_status, progress_lem}
use topo_forge_ai.Deployment.Stages.{
  DeploymentState, progress, cloud_architecture, advanced_to, terraform_generated, stage_value,
  stage_order,
}
use topo_forge_ai.Deployment.Checksum.{IsPlain, checksum-reorder, effects, authorises_seen}
use topo_forge_ai.Deployment.{
  DeploymentTarget, DeploymentPlan, ApprovalRecord, authorises, checksum, ResourceChangeAction,
  PlannedChange, create, delete, approved, fingerprint_text,
}
use topo_forge_ai.Issues.Report.{IsSorted, merged_with_lem, from_issues-IsSorted}
use topo_forge_ai.Issues.{
  ValidationReport, IssueSeverity, ValidationIssue, from_issues, merged_with, error, warning,
  recommendation, info,
}
use topo_forge_ai.Provenance.{
  Sourced, merge_evidence, from_user, default_value, derived_from, below, priority,
}
use topo_forge_ai.Prelude.{
  refl, some, none, [], true, false, ◌∷◌, String, List, ◌≡◌, ℕ, ℕ-Eq, arith, ◌++◌, if◌then◌else◌,
  map, ◌⊎◌, ◌&&◌, ◌==◌, distinct, contains, ◌||◌, String-Eq,
}

abbrev guess : Sourced String
guess = record { value = "router"; evidence = default_value "no label"; superseded = [] }

abbrev reading : Sourced String
reading = record { value = "firewall"; evidence = derived_from "ports" 800; superseded = [] }

abbrev answer_given : Sourced String
answer_given = record { value = "switch"; evidence = from_user none none; superseded = [] }

trail-merge_evidence_example :
    let once = merge_evidence (some guess) reading in
    let again = merge_evidence (some once) reading in
    Perm (trail once) (trail guess ++ trail reading)
    × ((again.value ≡ once.value) × (again.evidence ≡ once.evidence))
    × Perm (trail again) ((trail guess ++ trail reading) ++ trail reading)
trail-merge_evidence_example = trail-merge_evidence guess reading

merge_evidence-wins_example :
    let merged = merge_evidence (some guess) reading in
    (below (priority merged.evidence) (priority guess.evidence) ≡ false)
    × (below (priority merged.evidence) (priority reading.evidence) ≡ false)
    × ((merged.value ≡ guess.value) × (merged.evidence ≡ guess.evidence)
        ⊎ (merged.value ≡ reading.value)
          × (merged.evidence ≡ reading.evidence)
          × (below (priority guess.evidence) (priority reading.evidence) ≡ true))
merge_evidence-wins_example = merge_evidence-wins guess reading

abbrev finding : String → IssueSeverity → ValidationIssue
finding code severity = record {
  code = code;
  severity = severity;
  message = code;
  path = none;
  subject_ids = [];
  validator = none;
  remediation = none;
}

abbrev findings : List ValidationIssue
findings = finding "w" warning ∷ finding "e" error ∷ finding "i" info ∷ []

abbrev network_report : ValidationReport
network_report = from_issues findings ("network" ∷ [])

abbrev security_report : ValidationReport
security_report = from_issues (finding "r" recommendation ∷ []) ("security" ∷ "network" ∷ [])

merged_with_lem_example :
    IsSorted (merged_with network_report security_report)
    × ((merged_with network_report security_report).errors
        ≡ network_report.errors ++ security_report.errors)
    × ((merged_with network_report security_report).valid
        ≡ (network_report.valid && security_report.valid))
    × (distinct (merged_with network_report security_report).validators_run ≡ true)
    × ((v : String)
        → contains (merged_with network_report security_report).validators_run v
          ≡ (contains network_report.validators_run v || contains security_report.validators_run v))
merged_with_lem_example =
    merged_with_lem network_report security_report (from_issues-IsSorted findings ("network" ∷ []))
      (from_issues-IsSorted (finding "r" recommendation ∷ []) ("security" ∷ "network" ∷ []))

abbrev change_at : String → ResourceChangeAction → PlannedChange
change_at address action = record {
  address = address;
  action = action;
  resource_type = none;
  resource_name = none;
  cloud_resource_id = none;
}

abbrev aws : DeploymentTarget
aws = record {
  provider = "aws";
  region = "eu-west-1";
  account_alias = none;
  role_arn = none;
  environment = "dev";
}

abbrev plan_of : List PlannedChange → DeploymentPlan
plan_of changes = record {
  id = "plan";
  deployment_id = none;
  target = aws;
  changes = changes;
  summary_text = none;
  plan_artifact_uri = none;
  project_fingerprint = some "f";
  warnings = [];
}

abbrev two_changes : DeploymentPlan
two_changes = plan_of (change_at "b" create ∷ change_at "a" delete ∷ [])

-- The same changes in the other order, and another summary.
abbrev reordered : DeploymentPlan
reordered = record two_changes {
  changes = change_at "a" delete ∷ change_at "b" create ∷ [];
  summary_text = some "one to destroy";
}

-- A digest that keeps where the separators stand.
abbrev shape_digest : List ℕ → String
shape_digest [] = ""
shape_digest (c ∷ cs) = String.◌∷◌ (if c == 0 then "|" else ".") (shape_digest cs)

abbrev approval_of_plan : ApprovalRecord
approval_of_plan = record {
  id = "approval";
  deployment_id = "deployment";
  plan_id = "plan";
  plan_checksum = ".|.|......|.|......";
  decision = approved;
  actor = "reviewer";
  comment = none;
  source_ip = none;
  user_agent = none;
}

two_changes-IsPlain : IsPlain two_changes
two_changes-IsPlain = record { fingerprint = omega arith; addresses = omega arith }

reordered-IsPlain : IsPlain reordered
reordered-IsPlain = record { fingerprint = omega arith; addresses = omega arith }

authorises_seen_example :
    (approval_of_plan.decision ≡ approved)
    × (two_changes.id ≡ reordered.id)
    × (fingerprint_text two_changes.project_fingerprint
        ≡ fingerprint_text reordered.project_fingerprint)
    × (effects two_changes ≡ effects reordered)
unfolding authorises
authorises_seen_example =
    authorises_seen shape_digest approval_of_plan two_changes reordered (λ h. refl)
      two_changes-IsPlain reordered-IsPlain refl refl refl

checksum-reorder_example :
    checksum shape_digest
      (record two_changes { changes = change_at "a" delete ∷ change_at "b" create ∷ [] })
    ≡ checksum shape_digest two_changes
checksum-reorder_example =
    checksum-reorder shape_digest two_changes (change_at "a" delete ∷ change_at "b" create ∷ [])
      refl (Perm.swap (change_at "a" delete) (change_at "b" create) [])

abbrev started : DeploymentState
started = record {
  id = "deployment";
  project_id = none;
  cloud_architecture_id = none;
  network_architecture_id = none;
  target = aws;
  stage = cloud_architecture;
  completed_stages = [];
  plan = none;
  approval = none;
  terraform_project_uri = none;
  ansible_project_uri = none;
  inventory_uri = none;
  failed = false;
  error = none;
}

abbrev generated : DeploymentState
generated = advanced_to terraform_generated started

generated-Forward : Forward generated
generated-Forward = advance started terraform_generated (start started refl refl) (omega arith)

progress_lem_example :
    progress generated
    ≡ map (λ stage. (stage_value stage, expected_status generated stage)) stage_order
progress_lem_example = progress_lem generated-Forward
