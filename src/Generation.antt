-- ===== src/Generation.antt =====
-- src/domain/generation/models.py: what generators answer. Left out are the texts of warnings, file
-- modes, time stamps and the storage prefix.
use topo_forge_ai.Prelude.{String, List, ℕ, Option}

pub data WarningSeverity : Type 0 where
  low medium high : WarningSeverity

pub record GeneratorWarning : Type 0 where
  pub code : String
  pub severity : WarningSeverity
  pub subject_ids : List String

pub record GeneratedFile : Type 0 where
  pub path : String
  pub content : List ℕ
  pub language : Option String

-- `TerraformProject`, with the metadata that the generator writes.
pub record TerraformProject : Type 0 where
  pub files : List GeneratedFile
  pub warnings : List GeneratorWarning
  pub cloud_architecture_id : Option String
  pub cloud_architecture_revision : Option ℕ
  pub required_providers : List (String × String)
  pub required_variables : List String
  pub declared_outputs : List String
  pub region : String
  pub resource_count : ℕ
