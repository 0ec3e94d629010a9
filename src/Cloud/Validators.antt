-- ===== src/Cloud/Validators.antt =====
-- src/domain/cloud/validators.py: the checks between the translation and the generators, one module
-- for each validator, and the suite that runs them. An issue's message, a sentence with the names
-- and numbers at hand, is not modelled: the code of the issue stands in its place.
pub mod Subnets
pub mod Placement
pub mod Routes
pub mod Exposure
pub mod Coherence
pub mod Suite
use topo_forge_ai.Issues.{IssueSeverity, ValidationIssue}
use topo_forge_ai.Prelude.{some, none, [], ◌∷◌, String, Bool, List, Option, if◌then◌else◌}

abbrev pub issue : String → String → IssueSeverity → List String → Option String → ValidationIssue
issue validator code severity subject_ids remediation = record {
  code = code;
  severity = severity;
  message = code;
  path = none;
  subject_ids = subject_ids;
  validator = some validator;
  remediation = remediation;
}

-- `if test: issues.append(i)`
abbrev pub report_if : Bool → ValidationIssue → List ValidationIssue
report_if test i = if test then i ∷ [] else []
