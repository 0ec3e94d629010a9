-- ===== src/Terraform/Generator.antt =====
-- src/infrastructure/generators/terraform/generator.py: `AWSTerraformGenerator`. Python's `str.strip`,
-- `str.lower`, `str.isalpha` and `str.isalnum`, and the text of an address range, are parameters.
pub mod Accepts
pub mod Secrets
use topo_forge_ai.Network.{SubnetSpec}
use topo_forge_ai.Identifiers.{is_empty_text}
use topo_forge_ai.Prelude.{
  ◌<>◌, [], true, false, ◌∷◌, Bool, List, String, Result, if◌then◌else◌, ◌||◌, ◌==◌, ◌>>◌, require,
  String-Eq, not, map, some, ok, sorted, ℕ, str_le, codes, ◌++◌, nonempty, dedup, length,
}
use topo_forge_ai.Terraform.Mapping.{Emission}
use topo_forge_ai.Terraform.Addresses.{emit_architecture}
use topo_forge_ai.Terraform.Hcl.{
  Block, set_all, raw, quoted, flag, new_block, HclValue, add, assign, listed, mapping, item, entry,
  no_items, no_entries,
}
use topo_forge_ai.Terraform.Hcl.Render.{render_document, join_codes}
use topo_forge_ai.Generation.{GeneratedFile, TerraformProject, GeneratorWarning, medium}
use topo_forge_ai.Cloud.{CloudArchitecture, cloud_is_valid}
use topo_forge_ai.Cloud.Resources.{CloudProvider, aws, is_empty}

pub data GenerationError : Type 0 where
  unsupported_provider failed_validation no_infrastructure nothing_mapped : GenerationError

abbrev pub is_aws : CloudProvider → Bool
is_aws aws = true
is_aws _ = false

-- `_reject_unsupported`
unfoldable pub reject_unsupported : CloudArchitecture → Result GenerationError (Unit {0})
unfolding cloud_is_valid
reject_unsupported a = do
  require (is_aws a.metadata.provider) unsupported_provider
  require (cloud_is_valid a) failed_validation
  require (not (is_empty a.infrastructure)) no_infrastructure

abbrev header_lines : List String
header_lines =
    "Generated by TopoForge-AI. Do not edit by hand."
    ∷ "Regenerate from cloud_architecture.json instead: edits here are overwritten." ∷ []

-- `variable.endswith(suffix)`
abbrev pub ends_with : String → String → Bool
ends_with suffix String.[] = is_empty_text suffix
ends_with suffix (String.◌∷◌ c s) = String.◌∷◌ c s == suffix || ends_with suffix s

-- `variable.removesuffix(suffix)` where the variable ends with it.
abbrev remove_suffix : String → String → String
remove_suffix suffix String.[] = String.[]
remove_suffix suffix (String.◌∷◌ c s) =
    let rest = String.◌∷◌ c (remove_suffix suffix s) in
    if String.◌∷◌ c s == suffix then String.[] else rest

-- `_variable_description`
abbrev variable_description : String → String
variable_description variable =
    if variable == "ssh_key_name"
    then "Name of an existing EC2 key pair used for instance access"
    else (if ends_with "_username" variable
        then "Master username for " <> remove_suffix "_username" variable
        else (if ends_with "_password" variable
            then "Master password for " <> remove_suffix "_password" variable
            else "Value for " <> variable))

abbrev pub is_secret : String → Bool
is_secret variable = ends_with "_password" variable || ends_with "_secret" variable

unfoldable pub variable_block : String → Block
variable_block variable =
    set_all
      (("type", raw "string")
        ∷ ("description", quoted (variable_description variable))
        ∷ (if is_secret variable then ("sensitive", flag true) ∷ [] else []))
      (new_block "variable" (variable ∷ []) [])

-- `sorted(ctx.required_variables)`, of a set.
abbrev pub sorted_names : List String → List String
sorted_names names = sorted str_le (dedup names)

unfoldable pub variables_blocks : String → List String → List Block
unfolding variable_block
variables_blocks region variables =
    set_all
      (("type", raw "string")
        ∷ ("description", quoted "AWS region to deploy into")
        ∷ ("default", quoted region)
        ∷ [])
      (new_block "variable" ("aws_region" ∷ []) [])
    ∷ map variable_block (sorted_names variables)

-- The outputs as a dictionary: a later one replaces an earlier one of the same name.
abbrev pub collect_outputs :
    List (String × (HclValue × String))
    → List (String × (HclValue × String))
    → List (String × (HclValue × String))
collect_outputs d [] = d
collect_outputs d ((name, output) ∷ rest) = collect_outputs (assign name output d) rest

abbrev pub sorted_outputs :
    List (String × (HclValue × String)) → List (String × (HclValue × String))
sorted_outputs outputs = sorted (λ a b. str_le a.0 b.0) (collect_outputs [] outputs)

unfoldable pub output_block : String × (HclValue × String) → Block
output_block (name, (value, description)) =
    set_all (("value", value) ∷ ("description", quoted description) ∷ [])
      (new_block "output" (name ∷ []) [])

abbrev data_blocks : List Block
data_blocks =
    set_all (("state", quoted "available") ∷ [])
      (new_block "data" ("aws_availability_zones" ∷ "available" ∷ []) [])
    ∷ add
        (set_all
          (("name", quoted "name")
            ∷ ("values", listed (item (quoted "al2023-ami-*-x86_64") no_items))
            ∷ [])
          (new_block "filter" [] []))
        (set_all
          (("most_recent", flag true) ∷ ("owners", listed (item (quoted "amazon") no_items)) ∷ [])
          (new_block "data" ("aws_ami" ∷ "amazon_linux" ∷ [])
            ("Default image for instances whose image was not specified." ∷ [])))
    ∷ []

-- `terraform_version` and `aws_provider_version`, as the generator was constructed.
pub record GeneratorSettings : Type 0 where
  pub terraform_version : String
  pub aws_provider_version : String

abbrev pub default_settings : GeneratorSettings
default_settings = record { terraform_version = ">= 1.6"; aws_provider_version = "~> 5.0" }

abbrev provider_blocks : GeneratorSettings → CloudArchitecture → List Block
provider_blocks s a =
    add
      (set_all
        ((
          "aws",
          mapping (
              entry "source" (quoted "hashicorp/aws")
                (entry "version" (quoted s.aws_provider_version) no_entries)),
        )
          ∷ [])
        (new_block "required_providers" [] []))
      (set_all (("required_version", quoted s.terraform_version) ∷ [])
        (new_block "terraform" [] []))
    ∷ add
        (set_all
          ((
            "tags",
            mapping (
                entry "ManagedBy" (quoted "topoforge") (
                  entry "TopoForgeCloudArchitecture" (quoted a.metadata.cloud_architecture_id)
                    no_entries)),
          )
            ∷ [])
          (new_block "default_tags" [] []))
        (set_all (("region", raw "var.aws_region") ∷ []) (new_block "provider" ("aws" ∷ []) []))
    ∷ []

abbrev lines_of : List String → List ℕ
lines_of lines = join_codes (10 ∷ []) (map codes lines) ++ 10 ∷ []

abbrev placeholder : String → String
placeholder variable =
    if ends_with "_password" variable then "CHANGE_ME_USE_A_SECRET" else "CHANGE_ME"

-- `_tfvars_example`
unfoldable pub tfvars_lines : String → List String → List String
tfvars_lines region variables =
    "# Copy to terraform.tfvars and fill in. Never commit real secrets."
    ∷ ""
    ∷ ("aws_region = \"" <> (region <> "\""))
    ∷ map (λ v. v <> (" = \"" <> (placeholder v <> "\""))) (sorted_names variables)

abbrev coverage_warnings : List String → List GeneratorWarning
coverage_warnings [] = []
coverage_warnings (u ∷ us) =
    record { code = "unmapped_network_concepts"; severity = medium; subject_ids = [] } ∷ []

abbrev file_of : String → String → List ℕ → GeneratedFile
file_of path language content = record { path = path; content = content; language = some language }

module _ (strip lower : String → String) (cidr_text : SubnetSpec → String)
    (is_alpha is_alnum : ℕ → Bool) where
  abbrev document : List Block → List ℕ
  document blocks =
      render_document is_alpha is_alnum (record { header = header_lines; blocks = blocks })

  abbrev outputs_content : List (String × (HclValue × String)) → List ℕ
  outputs_content [] =
      codes "# No outputs: this architecture declares no addressable resources." ++ 10 ∷ []
  outputs_content (o ∷ os) = document (map output_block (sorted_outputs (o ∷ os)))

  -- The files other than README.md.
  abbrev terraform_files : GeneratorSettings → CloudArchitecture → Emission → List GeneratedFile
  terraform_files s a e =
      file_of "providers.tf" "hcl" (document (provider_blocks s a))
      ∷ file_of "data.tf" "hcl" (document data_blocks)
      ∷ file_of "main.tf" "hcl" (document e.blocks)
      ∷ file_of "variables.tf" "hcl" (document (variables_blocks a.metadata.region e.variables))
      ∷ file_of "outputs.tf" "hcl" (outputs_content e.outputs)
      ∷ file_of "terraform.tfvars.example" "hcl"
          (lines_of (tfvars_lines a.metadata.region e.variables))
      ∷ []

  abbrev project :
      GeneratorSettings → CloudArchitecture → GeneratedFile → Emission → TerraformProject
  project s a readme e = record {
    files = terraform_files s a e ++ readme ∷ [];
    warnings = e.warnings ++ coverage_warnings a.unmapped;
    cloud_architecture_id = some a.metadata.cloud_architecture_id;
    cloud_architecture_revision = some a.metadata.revision;
    required_providers = ("aws", s.aws_provider_version) ∷ [];
    required_variables = sorted_names e.variables;
    declared_outputs = map (λ o. o.0) (sorted_outputs e.outputs);
    region = a.metadata.region;
    resource_count = length e.blocks;
  }

  -- The text of README.md, whose title is the architecture's name, is an argument.
  unfoldable pub generate :
      GeneratorSettings
      → CloudArchitecture
      → GeneratedFile
      → Result GenerationError TerraformProject
  unfolding emit_architecture render_document variables_blocks tfvars_lines output_block
  generate s a readme = do
    reject_unsupported a
    let e = emit_architecture strip lower cidr_text a.infrastructure
    require (nonempty e.blocks) nothing_mapped
    ok (project s a readme e)
