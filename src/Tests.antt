-- ===== src/Tests.antt =====
-- Tests on concrete inputs, and the theorems at inputs that meet their hypotheses.
mod Pipeline
mod Lifecycle
mod Documents
mod Cloud
mod Assembler
mod Names
mod Terraform
mod Yaml
