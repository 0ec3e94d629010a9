-- ===== src/Terraform/Generator/Accepts.antt =====
-- src/infrastructure/generators/terraform/generator.py: when `generate` answers a project.
use topo_forge_ai.Network.{SubnetSpec}
use topo_forge_ai.Prelude.{
  true, ok, String, ◌≡◌, ℕ, nonempty, Bool, ◌↔◌, arith, refl, >>-eq-ok_iff, require, require_iff,
}
use topo_forge_ai.Terraform.Generator.{
  generate, GeneratorSettings, project, is_aws, reject_unsupported, nothing_mapped,
}
use topo_forge_ai.Generation.{GeneratedFile, TerraformProject}
use topo_forge_ai.Cloud.{CloudArchitecture, can_generate}
use topo_forge_ai.Terraform.Addresses.{emit_architecture}

-- What a generator of AWS code asks of an architecture.
abbrev pub IsAccepted :
    (String → String) → (String → String) → (SubnetSpec → String) → CloudArchitecture → Type 0
IsAccepted strip lower cidr_text a =
    (is_aws a.metadata.provider ≡ true)
    × (can_generate a ≡ true)
    × (nonempty (emit_architecture strip lower cidr_text a.infrastructure).blocks ≡ true)

module _ (strip lower : String → String) (cidr_text : SubnetSpec → String)
    (is_alpha is_alnum : ℕ → Bool) (s : GeneratorSettings) (a : CloudArchitecture)
    (readme : GeneratedFile) where
  reject_unsupported_iff :
      (reject_unsupported a ≡ ok tt)
      ↔ ((is_aws a.metadata.provider ≡ true) × (can_generate a ≡ true))
  unfolding reject_unsupported can_generate
  reject_unsupported_iff = ground arith

  -- The generator answers a project for a valid architecture of AWS that has infrastructure, where at
  -- least one resource could be mapped, and raises for every other.
  pub generate_iff :
      ((p : TerraformProject) × (generate strip lower cidr_text is_alpha is_alnum s a readme
          ≡ ok p))
      ↔ IsAccepted strip lower cidr_text a
  unfolding generate
  generate_iff =
      let e = emit_architecture strip lower cidr_text a.infrastructure in
      (
        λ (p, h).
            let parts = (>>-eq-ok_iff (reject_unsupported a) _).0 h in
            let accepted = reject_unsupported_iff.0 parts.0 in
            let mapped = (>>-eq-ok_iff (require (nonempty e.blocks) nothing_mapped) _).0 parts.1 in
            (accepted.0, accepted.1, (require_iff _ _).0 mapped.0),
        λ (provider, valid, mapped). (
          project strip lower cidr_text is_alpha is_alnum s a readme e,
          (>>-eq-ok_iff (reject_unsupported a) _).1 (
            reject_unsupported_iff.1 (provider, valid),
            (>>-eq-ok_iff (require (nonempty e.blocks) nothing_mapped) _).1
                ((require_iff _ _).1 mapped, refl),
          ),
        ),
      )
