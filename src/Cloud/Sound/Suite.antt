-- ===== src/Cloud/Sound/Suite.antt =====
-- When the suite of validators finds a cloud architecture valid.
use topo_forge_ai.Issues.{is_error}
use topo_forge_ai.Cloud.Validators.Coherence.{validate_coherence}
use topo_forge_ai.Cloud.Validators.Exposure.{validate_exposure}
use topo_forge_ai.Cloud.Validators.Routes.{validate_routes}
use topo_forge_ai.Cloud.Sound.Coherence.{IsDefined, validate_coherence_iff}
use topo_forge_ai.Cloud.Validators.Subnets.{validate_subnets}
use topo_forge_ai.Cloud.Sound.{no_errors, valid-from_issues}
use topo_forge_ai.Cloud.Sound.Routes.{
  IsConnected, IsRestricted, validate_routes_iff, validate_exposure_iff,
}
use topo_forge_ai.Cloud.Sound.Placement.{ArePlaced, validate_placement_iff}
use topo_forge_ai.Cloud.Sound.Subnets.{IsSubnetted, validate_subnets_iff}
use topo_forge_ai.Cloud.{CloudArchitecture}
use topo_forge_ai.Issues.{from_issues}
use topo_forge_ai.Cloud.Validators.Suite.{run_suite, default_cloud_validators}
use topo_forge_ai.Cloud.Validators.Placement.{Parser, validate_placement}
use topo_forge_ai.Prelude.{
  refl, [], true, ◌∷◌, ◌≡◌, ◌↔◌, All, ◌&&◌, arith, all-concat_map, not, concat_map, map,
}

-- What the validators ask of a cloud architecture.
pub record IsSound (ip_address : Parser) (a : CloudArchitecture) : Type 0 where
  pub subnets : IsSubnetted a.infrastructure
  pub compute : ArePlaced ip_address a.infrastructure
  pub routes : IsConnected a.infrastructure
  pub exposure : All (λ g. All IsRestricted g.rules) a.infrastructure.security_groups
  pub configuration : IsDefined a.configuration

suite_issues :
    (ip_address : Parser) (a : CloudArchitecture)
    → (run_suite (default_cloud_validators ip_address) a).valid ≡ (
        no_errors (validate_subnets a)
        && (no_errors (validate_placement ip_address a)
            && (no_errors (validate_routes a)
                && (no_errors (validate_exposure a) && no_errors (validate_coherence a)))))
unfolding run_suite
suite_issues ip_address a =
    let suite = default_cloud_validators ip_address in
    let each = all-concat_map (λ i. not (is_error i.severity)) (λ v. v.1 a) suite in
    let whole = valid-from_issues (concat_map (λ v. v.1 a) suite) (map (λ v. v.0) suite) in
    rw (whole, each) (ground arith)

-- The report of the suite is valid exactly when the architecture is sound, which says no more than
-- this. A subnet whose network is known lies in one of its ranges, and two subnets of a network share
-- no address. An instance names a subnet or has interfaces; an interface whose subnet and address are
-- known has a usable address of that subnet that is not reserved; no text of such an address stands at
-- two instances of different ids; an instance that forwards checks no source and destination. Routes
-- lead to resources, each of a table to another destination. A NAT gateway names a subnet, known or
-- not, and a peering lists two ids. A rule that lets the internet in is for named ports, and every role
-- in use is defined. The report names the five validators.
pub run_suite_iff :
    (ip_address : Parser) (a : CloudArchitecture)
    → let report = run_suite (default_cloud_validators ip_address) a in
      ((report.valid ≡ true) ↔ IsSound ip_address a)
      × (report.validators_run
          ≡ "SubnetValidator" ∷ "ComputePlacementValidator" ∷ "RouteTableValidator"
            ∷ "PublicExposureValidator" ∷ "ConfigurationCoherenceValidator" ∷ [])
unfolding run_suite from_issues
run_suite_iff ip_address a =
    let issues = suite_issues ip_address a in
    let subnets = validate_subnets_iff a in
    let compute = validate_placement_iff ip_address a in
    let routes = validate_routes_iff a in
    let exposure = validate_exposure_iff a in
    let coherence = validate_coherence_iff a in
    (
      (
        λ h. record {
          subnets = subnets.0 (ground (arith, issues));
          compute = compute.0 (ground (arith, issues));
          routes = routes.0 (ground (arith, issues));
          exposure = exposure.0 (ground (arith, issues));
          configuration = coherence.0 (ground (arith, issues));
        },
        λ w.
            let a₁ = subnets.1 w.subnets in
            let a₂ = compute.1 w.compute in
            let a₃ = routes.1 w.routes in
            let a₄ = exposure.1 w.exposure in
            let a₅ = coherence.1 w.configuration in ground (arith, issues),
      ),
      refl,
    )
