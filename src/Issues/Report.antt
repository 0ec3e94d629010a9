-- ===== src/Issues/Report.antt =====
-- A validation report (src/domain/architecture/issues.py) holds every finding once, and its `valid`
-- flag says that no finding is an error.
use topo_forge_ai.Issues.{
  all_issues, ValidationReport, from_issues, ValidationIssue, merged_with, is_warning, is_advice,
  is_error, IssueSeverity, error, warning, recommendation, info,
}
use topo_forge_ai.Prelude.{
  refl, [], true, false, ◌∷◌, Bool, ◌≡◌, List, filter, ◌⊎◌, String, not, All, ◌++◌, nonempty,
  Bool-cases, ap, arith, filter-append, ◌&&◌, inl, inr, distinct, contains, ◌||◌, String-Eq, dedup,
  dedup_from-distinct, contains-dedup, ◌∙◌, contains-append, nonempty-append,
}
use mathlib.Core.List.{Perm, perm_middle, append-nil}
use mathlib.Core.List.Perm
use mathlib.Core.Path.{ap₂}

module _ {A : Type 0} where
  -- Three tests of which one holds of each item split a list.
  split3-perm :
      (p q r : A → Bool)
      → ((x : A)
          → ((p x ≡ true) × (q x ≡ false) × (r x ≡ false))
            ⊎ (((p x ≡ false) × (q x ≡ true) × (r x ≡ false))
                ⊎ ((p x ≡ false) × (q x ≡ false) × (r x ≡ true))))
      → (xs : List A) → Perm (filter p xs ++ (filter q xs ++ filter r xs)) xs
  split3-perm p q r one [] = Perm.nil
  split3-perm p q r one (x ∷ xs) =
      let ih = split3-perm p q r one xs in
      elim (one x) [
        | inl (a, b, c) ↦ rw (a, b, c) (Perm.cons x ih)
        | inr (inl (a, b, c)) ↦
            rw (a, b, c)
              (Perm.trans (perm_middle (filter p xs) (filter q xs ++ filter r xs)) (Perm.cons x ih))
        | inr (inr (a, b, c)) ↦
            rw (a, b, c)
              (Perm.trans (Perm.append_left (filter p xs) (perm_middle (filter q xs) (filter r xs)))
                (Perm.trans (perm_middle (filter p xs) (filter q xs ++ filter r xs))
                  (Perm.cons x ih)))
      ]

-- Every finding that goes into a report comes out of `all_issues`, as often, and no other.
pub all_issues-from_issues :
    (issues : List ValidationIssue) (run : List String)
    → Perm (all_issues (from_issues issues run)) issues
unfolding all_issues from_issues
all_issues-from_issues issues run =
    split3-perm (λ i. is_error i.severity) (λ i. is_warning i.severity) (λ i. is_advice i.severity)
      (λ i. severity_cases i.severity) issues
  where
    severity_cases :
        (s : IssueSeverity)
        → ((is_error s ≡ true) × (is_warning s ≡ false) × (is_advice s ≡ false))
          ⊎ (((is_error s ≡ false) × (is_warning s ≡ true) × (is_advice s ≡ false))
              ⊎ ((is_error s ≡ false) × (is_warning s ≡ false) × (is_advice s ≡ true)))
    severity_cases error = inl (refl, refl, refl)
    severity_cases warning = inr (inl (refl, refl, refl))
    severity_cases recommendation = inr (inr (refl, refl, refl))
    severity_cases info = inr (inr (refl, refl, refl))

-- What holds of every report that the program makes.
pub record IsSorted (r : ValidationReport) : Type 0 where
  pub flag : r.valid ≡ not (nonempty r.errors)
  pub errors : All (λ i. is_error i.severity ≡ true) r.errors
  pub warnings : All (λ i. is_warning i.severity ≡ true) r.warnings
  pub advice : All (λ i. is_advice i.severity ≡ true) r.recommendations

filter-All : {A : Type 0} (p : A → Bool) (xs : List A) → All (λ x. p x ≡ true) (filter p xs)
filter-All p [] = tt
filter-All p (x ∷ xs) = elim (Bool-cases (p x)) [
  | inl t ↦ rw t (t, filter-All p xs)
  | inr f ↦ rw f (filter-All p xs)
]

pub from_issues-IsSorted :
    (issues : List ValidationIssue) (run : List String) → IsSorted (from_issues issues run)
unfolding from_issues
from_issues-IsSorted issues run = record {
  flag = refl;
  errors = filter-All (λ i. is_error i.severity) issues;
  warnings = filter-All (λ i. is_warning i.severity) issues;
  advice = filter-All (λ i. is_advice i.severity) issues;
}

filter_kept :
    {A : Type 0} (p : A → Bool) (xs : List A) → All (λ x. p x ≡ true) xs → filter p xs ≡ xs
filter_kept p [] h = refl
filter_kept p (x ∷ xs) h = rw h.0 (ap (◌∷◌ x) (filter_kept p xs h.1))

filter_dropped :
    {A : Type 0} (p q : A → Bool) (xs : List A)
    → ((x : A) → q x ≡ true → p x ≡ false)
    → All (λ x. q x ≡ true) xs
    → filter p xs ≡ []
filter_dropped p q [] d h = refl
filter_dropped p q (x ∷ xs) d h = rw (d x h.0) (filter_dropped p q xs d h.1)

warning-not-error :
    (i : ValidationIssue) → is_warning i.severity ≡ true → is_error i.severity ≡ false
warning-not-error i h = ground arith

advice-not-error : (i : ValidationIssue) → is_advice i.severity ≡ true → is_error i.severity ≡ false
advice-not-error i h = ground arith

errors-all_issues :
    (r : ValidationReport)
    → IsSorted r
    → filter (λ i. is_error i.severity) (all_issues r) ≡ r.errors
unfolding all_issues
errors-all_issues r h = simp (
  filter-append,
  filter_kept (λ i. is_error i.severity) r.errors h.errors,
  filter_dropped (λ i. is_error i.severity) (λ i. is_warning i.severity) r.warnings
      warning-not-error h.warnings,
  filter_dropped (λ i. is_error i.severity) (λ i. is_advice i.severity) r.recommendations
      advice-not-error h.advice,
  append-nil,
)

errors-append :
    (r other : ValidationReport)
    → IsSorted r
    → IsSorted other
    → filter (λ i. is_error i.severity) (all_issues r ++ all_issues other)
      ≡ r.errors ++ other.errors
errors-append r other h k =
    filter-append (λ i. is_error i.severity) (all_issues r) (all_issues other)
    ∙ ap₂ ◌++◌ (errors-all_issues r h) (errors-all_issues other k)

-- Two sorted reports merge into a sorted one, whose errors are those of the first and then those of
-- the second, which is valid exactly when both are, and which names the validators of both, each
-- once.
pub merged_with_lem :
    (r other : ValidationReport)
    → IsSorted r
    → IsSorted other
    → IsSorted (merged_with r other)
      × ((merged_with r other).errors ≡ r.errors ++ other.errors)
      × ((merged_with r other).valid ≡ (r.valid && other.valid))
      × (distinct (merged_with r other).validators_run ≡ true)
      × ((v : String)
          → contains (merged_with r other).validators_run v
            ≡ (contains r.validators_run v || contains other.validators_run v))
unfolding merged_with
merged_with_lem r other h k =
    let errors = errors-append r other h k in
    (
      from_issues-IsSorted (all_issues r ++ all_issues other)
          (dedup (r.validators_run ++ other.validators_run)),
      errors,
      rw errors (ground (arith, nonempty-append r.errors other.errors)),
      dedup_from-distinct [] (r.validators_run ++ other.validators_run),
      λ v.
          contains-dedup (r.validators_run ++ other.validators_run) v
          ∙ contains-append r.validators_run other.validators_run v,
    )
