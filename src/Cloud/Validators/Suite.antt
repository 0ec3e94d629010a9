-- ===== src/Cloud/Validators/Suite.antt =====
-- `CloudArchitectureValidatorSuite` of src/domain/cloud/validators.py. A validator is its name with
-- its function.
use topo_forge_ai.Cloud.Validators.Coherence.{validate_coherence}
use topo_forge_ai.Cloud.Validators.Exposure.{validate_exposure}
use topo_forge_ai.Cloud.Validators.Routes.{validate_routes}
use topo_forge_ai.Issues.{ValidationReport, ValidationIssue, from_issues}
use topo_forge_ai.Cloud.Validators.Subnets.{validate_subnets}
use topo_forge_ai.Cloud.{CloudArchitecture}
use topo_forge_ai.Cloud.Validators.Placement.{Parser, validate_placement}
use topo_forge_ai.Prelude.{[], ◌∷◌, String, List, concat_map, map}

abbrev pub CloudValidator : Type 0
CloudValidator = String × (CloudArchitecture → List ValidationIssue)

abbrev pub default_cloud_validators : Parser → List CloudValidator
default_cloud_validators ip_address =
    ("SubnetValidator", validate_subnets)
    ∷ ("ComputePlacementValidator", validate_placement ip_address)
    ∷ ("RouteTableValidator", validate_routes)
    ∷ ("PublicExposureValidator", validate_exposure)
    ∷ ("ConfigurationCoherenceValidator", validate_coherence)
    ∷ []

unfoldable pub run_suite : List CloudValidator → CloudArchitecture → ValidationReport
run_suite validators a =
    from_issues (concat_map (λ v. v.1 a) validators) (map (λ v. v.0) validators)
