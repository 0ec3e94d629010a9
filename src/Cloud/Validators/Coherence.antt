-- ===== src/Cloud/Validators/Coherence.antt =====
-- `ConfigurationCoherenceValidator` of src/domain/cloud/validators.py.
use topo_forge_ai.Issues.{error}
use topo_forge_ai.Cloud.Validators.{issue, report_if}
use topo_forge_ai.Issues.{ValidationIssue, warning, recommendation}
use topo_forge_ai.Cloud.Hosts.{ConfigurationHost, unresolved_role_names}
use topo_forge_ai.Cloud.{CloudArchitecture}
use topo_forge_ai.Cloud.Resources.{Infrastructure, ComputeInstance}
use topo_forge_ai.Prelude.{
  some, none, [], ◌∷◌, String, List, find_last, concat_map, ◌==◌, nonempty, ◌++◌, ◌&&◌, not, any,
  String-Eq,
}

abbrev pub undefined_role : String → List ValidationIssue
undefined_role name =
    issue "ConfigurationCoherenceValidator" "undefined_role" error []
      (some "define the role or remove the reference")
    ∷ []

unfoldable pub check_bastion : Infrastructure → ConfigurationHost → List ValidationIssue
check_bastion i h = elim (find_last (λ c. c.resource.id == h.compute_id) i.compute) [
  | none ↦ []
  | some c ↦ report_if (h.requires_bastion && not (any (λ c. c.is_bastion) i.compute)) (
      issue "ConfigurationCoherenceValidator" "bastion_required_but_absent" warning (h.id ∷ [])
        none)
]

unfoldable pub check_roles : List ConfigurationHost → ComputeInstance → List ValidationIssue
check_roles hosts c =
    report_if (nonempty c.roles && not (any (λ h. h.compute_id == c.resource.id) hosts)) (
      issue "ConfigurationCoherenceValidator" "compute_role_without_configuration" recommendation
        (c.resource.id ∷ []) none)

unfoldable pub validate_coherence : CloudArchitecture → List ValidationIssue
unfolding check_bastion check_roles
validate_coherence a =
    concat_map undefined_role (unresolved_role_names a.configuration)
    ++ (concat_map (check_bastion a.infrastructure) a.configuration.hosts
        ++ concat_map (check_roles a.configuration.hosts) a.infrastructure.compute)
