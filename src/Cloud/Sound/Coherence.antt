-- ===== src/Cloud/Sound/Coherence.antt =====
-- When `ConfigurationCoherenceValidator` reports no error.
use topo_forge_ai.Cloud.{CloudArchitecture}
use topo_forge_ai.Cloud.Resources.{Infrastructure, ComputeInstance}
use topo_forge_ai.Cloud.Sound.{no_errors, no_errors-append, no_errors-concat_map}
use topo_forge_ai.Cloud.Validators.Coherence.{
  check_bastion, check_roles, validate_coherence, undefined_role,
}
use topo_forge_ai.Cloud.Hosts.{
  Configuration, unresolved_role_names, ConfigurationHost, append_new, defined_names, SystemRole,
}
use topo_forge_ai.Prelude.{
  refl, [], true, false, ◌∷◌, List, String, All, nonempty, concat_map, contains, ◌≡◌, filter, arith,
  ◌↔◌, ◌||◌, not, String-Eq, ◌∙◌, ◌++◌, All-append, All-concat_map_iff,
}

append_new-nonempty :
    (xs seen : List String) → nonempty (append_new xs seen) ≡ (nonempty xs || nonempty seen)
append_new-nonempty [] seen = ground arith
append_new-nonempty (x ∷ xs) [] = append_new-nonempty xs (x ∷ []) ∙ ground arith
append_new-nonempty (x ∷ xs) (y ∷ ys) =
    ground (arith, append_new-nonempty xs (y ∷ ys), append_new-nonempty xs ((y ∷ ys) ++ x ∷ []))

no_errors-undefined_role :
    (names : List String) → no_errors (concat_map undefined_role names) ≡ not (nonempty names)
no_errors-undefined_role [] = refl
no_errors-undefined_role (n ∷ names) = refl

-- Every role that a host uses or a role requires is defined.
pub record IsDefined (c : Configuration) : Type 0 where
  pub hosts : All (λ h. All (λ n. contains (defined_names c) n ≡ true) h.roles) c.hosts
  pub roles : All (λ r. All (λ n. contains (defined_names c) n ≡ true) r.requires) c.roles

none_missing :
    (defined xs : List String)
    → (nonempty (filter (λ n. not (contains defined n)) xs) ≡ false)
      ↔ All (λ n. contains defined n ≡ true) xs
none_missing defined [] = (λ _. tt, λ _. refl)
none_missing defined (x ∷ xs) = ground (arith, none_missing defined xs)

unresolved_iff :
    (c : Configuration)
    → (no_errors (concat_map undefined_role (unresolved_role_names c)) ≡ true) ↔ IsDefined c
unfolding unresolved_role_names
unresolved_iff c =
    let defined = defined_names c in
    let used = concat_map (λ (h : ConfigurationHost). h.roles) c.hosts in
    let required = concat_map (λ (r : SystemRole). r.requires) c.roles in
    let missing = filter (λ n. not (contains defined n)) (used ++ required) in
    let errors = no_errors-undefined_role (append_new missing []) in
    let some_missing = append_new-nonempty missing [] in
    let all_known = none_missing defined (used ++ required) in
    let split = All-append (λ n. contains defined n ≡ true) used required in
    let hosts =
      All-concat_map_iff (λ n. contains defined n ≡ true) (λ (h : ConfigurationHost). h.roles)
        c.hosts in
    let roles =
      All-concat_map_iff (λ n. contains defined n ≡ true) (λ (r : SystemRole). r.requires)
        c.roles in
    (
      λ h.
          let known = all_known.0 (ground (arith, errors, some_missing)) in
          record { hosts = hosts.0 (split.0 known).0; roles = roles.0 (split.0 known).1 },
      λ w.
          let known = all_known.1 (split.1 (hosts.1 w.hosts, roles.1 w.roles)) in
          ground (arith, errors, some_missing),
    )

bastion_no_errors :
    (i : Infrastructure) (h : ConfigurationHost) → no_errors (check_bastion i h) ≡ true
unfolding check_bastion
bastion_no_errors i h = ground arith

roles_no_errors :
    (hosts : List ConfigurationHost) (c : ComputeInstance) → no_errors (check_roles hosts c) ≡ true
unfolding check_roles
roles_no_errors hosts c = ground arith

pub validate_coherence_iff :
    (a : CloudArchitecture) → (no_errors (validate_coherence a) ≡ true) ↔ IsDefined a.configuration
unfolding validate_coherence
validate_coherence_iff a =
    let names = concat_map undefined_role (unresolved_role_names a.configuration) in
    let bastions = concat_map (check_bastion a.infrastructure) a.configuration.hosts in
    let roles = concat_map (check_roles a.configuration.hosts) a.infrastructure.compute in
    let outer = no_errors-append names (bastions ++ roles) in
    let inner = no_errors-append bastions roles in
    let quiet_bastions =
      no_errors-concat_map (check_bastion a.infrastructure) a.configuration.hosts
        (bastion_no_errors a.infrastructure) in
    let quiet_roles =
      no_errors-concat_map (check_roles a.configuration.hosts) a.infrastructure.compute
        (roles_no_errors a.configuration.hosts) in
    let core = unresolved_iff a.configuration in
    (
      λ h. core.0 (ground (arith, outer, inner)),
      λ w. let first = core.1 w in ground (arith, outer, inner, quiet_bastions, quiet_roles),
    )
