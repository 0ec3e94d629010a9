-- ===== src/Terraform.antt =====
-- src/infrastructure/generators/terraform: Terraform code from a cloud architecture.
pub mod Hcl
pub mod Mapping
pub mod Addresses
pub mod Closure
pub mod Generator
