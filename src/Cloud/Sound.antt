-- ===== src/Cloud/Sound.antt =====
-- When the validators of src/domain/cloud/validators.py report no error.
pub mod Subnets
pub mod Dictionary
pub mod Addresses
pub mod Placement
pub mod Routes
pub mod Coherence
pub mod Suite
use topo_forge_ai.Issues.{from_issues, ValidationIssue, is_error}
use topo_forge_ai.Prelude.{
  refl, none, [], true, ◌∷◌, List, Bool, ◌++◌, concat_map, ◌≡◌, String, all, ◌&&◌, ◌↔◌, arith, not,
  all-append, All, all-concat_map, all_iff,
}

-- No finding of the list is an error.
abbrev pub no_errors : List ValidationIssue → Bool
no_errors = all (λ i. not (is_error i.severity))

pub no_errors-append :
    (xs ys : List ValidationIssue) → no_errors (xs ++ ys) ≡ (no_errors xs && no_errors ys)
no_errors-append = all-append (λ i. not (is_error i.severity))

-- A loop reports no error exactly when no round does.
pub no_errors-concat_map_iff :
    {A : Type 0} (f : A → List ValidationIssue) (xs : List A)
    → (no_errors (concat_map f xs) ≡ true) ↔ All (λ x. no_errors (f x) ≡ true) xs
no_errors-concat_map_iff f xs =
    rw (all-concat_map (λ i. not (is_error i.severity)) f xs) (all_iff (λ x. no_errors (f x)) xs)

-- A loop whose rounds report no error reports none.
pub no_errors-concat_map :
    {A : Type 0} (f : A → List ValidationIssue) (xs : List A)
    → ((x : A) → no_errors (f x) ≡ true)
    → no_errors (concat_map f xs) ≡ true
no_errors-concat_map f [] h = refl
no_errors-concat_map f (x ∷ xs) h =
    ground (arith, h x, no_errors-append (f x) (concat_map f xs), no_errors-concat_map f xs h)

pub valid-from_issues :
    (issues : List ValidationIssue) (run : List String)
    → (from_issues issues run).valid ≡ no_errors issues
unfolding from_issues
valid-from_issues [] run = refl
valid-from_issues (i ∷ issues) run = ground (arith, valid-from_issues issues run)
