-- ===== src/Issues.antt =====
-- src/domain/architecture/issues.py: the findings of validators, the report that sorts them, and
-- the gaps that the completeness analyser finds. The free-form `context` dictionaries are left out.
pub mod Report
use topo_forge_ai.Prelude.{
  ℕ, String, Bool, true, false, not, ◌||◌, Option, List, ◌++◌, filter, [], nonempty, dedup,
  String-Eq,
}

pub data IssueSeverity : Type 0 where
  error warning recommendation info : IssueSeverity

abbrev pub is_error : IssueSeverity → Bool
is_error error = true
is_error _ = false

abbrev pub is_warning : IssueSeverity → Bool
is_warning warning = true
is_warning _ = false

abbrev pub is_advice : IssueSeverity → Bool
is_advice recommendation = true
is_advice info = true
is_advice _ = false

pub record ValidationIssue : Type 0 where
  pub code : String
  pub severity : IssueSeverity
  pub message : String
  pub path : Option String
  pub subject_ids : List String
  pub validator : Option String
  pub remediation : Option String

abbrev pub is_blocking : ValidationIssue → Bool
is_blocking i = is_error i.severity

pub record ValidationReport : Type 0 where
  pub valid : Bool
  pub errors : List ValidationIssue
  pub warnings : List ValidationIssue
  pub recommendations : List ValidationIssue
  pub validators_run : List String

unfoldable pub from_issues : List ValidationIssue → List String → ValidationReport
from_issues issues validators_run =
    let errors = filter (λ i. is_error i.severity) issues in
    record {
      valid = not (nonempty errors);
      errors = errors;
      warnings = filter (λ i. is_warning i.severity) issues;
      recommendations = filter (λ i. is_advice i.severity) issues;
      validators_run = validators_run;
    }

unfoldable pub all_issues : ValidationReport → List ValidationIssue
all_issues r = r.errors ++ (r.warnings ++ r.recommendations)

unfoldable pub blocks_rag : ValidationReport → Bool
blocks_rag r = nonempty r.errors

unfoldable pub merged_with : ValidationReport → ValidationReport → ValidationReport
unfolding from_issues all_issues
merged_with r other =
    from_issues (all_issues r ++ all_issues other)
      (dedup (r.validators_run ++ other.validators_run))

-- A report before any validator has run.
abbrev pub empty_report : ValidationReport
empty_report = record {
  valid = true;
  errors = [];
  warnings = [];
  recommendations = [];
  validators_run = [];
}

pub data NeedClass : Type 0 where
  required recommended optional derivable need_error : NeedClass

pub record MissingInformation : Type 0 where
  pub id : String
  pub need : NeedClass
  pub code : String
  pub summary : String
  pub detail : Option String
  pub subject_ids : List String
  pub path : Option String
  pub derivable_value : Option String
  pub derivation_explanation : Option String
  pub priority : ℕ

unfoldable pub blocks_progress : MissingInformation → Bool
blocks_progress m = elim m.need [ required ↦ true | need_error ↦ true | _ ↦ false ]
