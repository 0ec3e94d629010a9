-- ===== src/Terraform/Mapping/Data.antt =====
-- src/infrastructure/generators/terraform/mappings/aws.py: databases and load balancers.
use topo_forge_ai.Generation.{high}
use topo_forge_ai.Terraform.Hcl.{
  HclValue, nothing, listed, quoted, Block, items_of, set_all, int, flag, new_block, add, raw,
  set_if,
}
use topo_forge_ai.Prelude.{
  ◌<>◌, some, none, [], true, false, zero, suc, ◌∷◌, String, Option, Bool, ℕ, List, if◌then◌else◌,
  ◌++◌,
}
use topo_forge_ai.Value.{pos}
use topo_forge_ai.Terraform.Mapping.{
  MappingContext, Emission, references, terraform_identifier, no_emission, emit_warning, own,
  reference, number_text, tags_value, emit_blocks, base_tags, text_if, ◌then_emit◌, provenance,
  reference_if,
}
use topo_forge_ai.Terraform.Mapping.Compute.{group_attribute}
use topo_forge_ai.Cloud.Resources.{
  Database, DatabaseEngine, LoadBalancer, LoadBalancerType, application_balancer,
  LoadBalancerScheme, internet_facing, internal, Listener, postgres, mysql, mariadb, sqlserver,
  oracle, unspecified,
}

abbrev engine_text : DatabaseEngine → String
engine_text postgres = "postgres"
engine_text mysql = "mysql"
engine_text mariadb = "mariadb"
engine_text sqlserver = "sqlserver"
engine_text oracle = "oracle"
engine_text unspecified = "unspecified"

abbrev pub text_value : Option String → HclValue
text_value none = nothing
text_value (some t) = quoted t

-- `a or b` for a port.
abbrev port_or : Option ℕ → ℕ → ℕ
port_or none p = p
port_or (some zero) p = p
port_or (some (suc q)) p = suc q

abbrev protocol_or : Option String → String → String
protocol_or none p = p
protocol_or (some q) p = q

abbrev is_internal : LoadBalancerScheme → Bool
is_internal internal = true
is_internal internet_facing = false

abbrev pub is_application : LoadBalancerType → Bool
is_application application_balancer = true
is_application _ = false

abbrev pub balancer_groups : Bool → List HclValue → List (String × HclValue)
balancer_groups true (g ∷ gs) = ("security_groups", listed (items_of (g ∷ gs))) ∷ []
balancer_groups application groups = []

abbrev pub certificate : Option String → List (String × HclValue)
certificate none = []
certificate (some c) = ("certificate_arn", quoted c) ∷ []

module _ (strip lower : String → String) where
  abbrev pub database_blocks : Database → MappingContext → List HclValue → List Block
  database_blocks d ctx subnets =
      let name = terraform_identifier strip lower d.resource.id in
      set_all
        (("name", quoted (d.resource.logical_name <> "-subnets"))
          ∷ ("subnet_ids", listed (items_of subnets))
          ∷ tags_value (base_tags d.resource)
          ∷ [])
        (new_block "resource" ("aws_db_subnet_group" ∷ name ∷ []) (provenance d.resource))
      ∷ set_all
          (("instance_class", quoted d.instance_class)
              ∷ ("allocated_storage", int (pos d.allocated_storage_gb))
              ∷ ("multi_az", flag d.multi_az)
              ∷ ("db_subnet_group_name", own "aws_db_subnet_group" name "name")
              ∷ group_attribute (references ctx d.security_group_ids)
            ++ ("publicly_accessible", flag d.publicly_accessible)
              ∷ ("skip_final_snapshot", flag true)
              ∷ ("username", raw ("var." <> (name <> "_username")))
              ∷ ("password", raw ("var." <> (name <> "_password")))
              ∷ tags_value (base_tags d.resource)
              ∷ [])
          (set_if "engine_version" (text_value d.engine_version) (
            set_all
              (("identifier", quoted d.resource.logical_name)
                ∷ ("engine", quoted (engine_text d.engine))
                ∷ [])
              (new_block "resource" ("aws_db_instance" ∷ name ∷ []) [])))
      ∷ []

  -- `if len(subnet_refs) < 2`
  abbrev pub map_database_in : Database → MappingContext → List HclValue → Emission
  map_database_in d ctx (a ∷ b ∷ more) =
      let name = terraform_identifier strip lower d.resource.id in
      record {
        blocks = database_blocks d ctx (a ∷ b ∷ more);
        warnings = [];
        variables = (name <> "_username") ∷ (name <> "_password") ∷ [];
        outputs =
            (
              name <> "_endpoint",
              (own "aws_db_instance" name "endpoint", "Endpoint of " <> d.resource.logical_name),
            )
            ∷ [];
      }
  map_database_in d ctx few = emit_warning high "db_subnet_group_needs_two_subnets" d.resource.id

  unfoldable pub map_database : Database → MappingContext → Emission
  map_database d ctx = map_database_in d ctx (references ctx d.subnet_ids)

  abbrev pub attach_target : String → Listener → String → Option HclValue → List Block → List Block
  attach_target group_name l id none rest = rest
  attach_target group_name l id (some target) rest =
      set_all
        (("target_group_arn", own "aws_lb_target_group" group_name "arn")
          ∷ ("target_id", target)
          ∷ ("port", int (pos (port_or l.target_port l.port)))
          ∷ [])
        (new_block "resource"
          ("aws_lb_target_group_attachment"
            ∷ (group_name <> ("_" <> terraform_identifier strip lower id))
            ∷ [])
          [])
      ∷ rest

  -- The targets of one listener.
  abbrev pub target_attachments : String → Listener → MappingContext → List String → List Block
  target_attachments group_name l ctx [] = []
  target_attachments group_name l ctx (id ∷ ids) =
      attach_target group_name l id (reference ctx id) (target_attachments group_name l ctx ids)

  abbrev pub listener_blocks : LoadBalancer → MappingContext → HclValue → ℕ → Listener → List Block
  listener_blocks b ctx network index l =
      let name = terraform_identifier strip lower b.resource.id in
      let group_name = name <> ("_tg_" <> number_text index) in
      set_all
        (("name", quoted (b.resource.logical_name <> ("-tg-" <> number_text index)))
          ∷ ("port", int (pos (port_or l.target_port l.port)))
          ∷ ("protocol", quoted (protocol_or (text_if l.target_protocol) l.protocol))
          ∷ ("vpc_id", network)
          ∷ tags_value (base_tags b.resource)
          ∷ [])
        (new_block "resource" ("aws_lb_target_group" ∷ group_name ∷ []) [])
      ∷ add
          (set_all
            (("type", quoted "forward")
              ∷ ("target_group_arn", own "aws_lb_target_group" group_name "arn")
              ∷ [])
            (new_block "default_action" [] []))
          (set_all
            (("load_balancer_arn", own "aws_lb" name "arn")
              ∷ ("port", int (pos l.port))
              ∷ ("protocol", quoted l.protocol)
              ∷ certificate (text_if l.certificate_ref))
            (new_block "resource"
              ("aws_lb_listener" ∷ (name <> ("_listener_" <> number_text index)) ∷ []) []))
      ∷ target_attachments group_name l ctx b.target_compute_ids

  -- The loop over the listeners ends at the first where the network is not known.
  unfoldable pub map_listeners :
      LoadBalancer → MappingContext → Option HclValue → ℕ → List Listener → Emission
  map_listeners b ctx network index [] = no_emission
  map_listeners b ctx none index (l ∷ ls) =
      emit_warning high "listener_without_network" b.resource.id
  map_listeners b ctx (some network) index (l ∷ ls) =
      emit_blocks (listener_blocks b ctx network index l)
      then_emit map_listeners b ctx (some network) (suc index) ls

  abbrev pub balancer_block : LoadBalancer → MappingContext → List HclValue → Block
  balancer_block b ctx subnets =
      let name = terraform_identifier strip lower b.resource.id in
      set_all
        (("name", quoted b.resource.logical_name)
            ∷ ("internal", flag (is_internal b.scheme))
            ∷ (
              "load_balancer_type",
              quoted (if is_application b.type then "application" else "network"),
            )
            ∷ ("subnets", listed (items_of subnets))
            ∷ balancer_groups (is_application b.type) (references ctx b.security_group_ids)
          ++ tags_value (base_tags b.resource) ∷ [])
        (new_block "resource" ("aws_lb" ∷ name ∷ []) (provenance b.resource))

  abbrev pub map_balancer_in : LoadBalancer → MappingContext → List HclValue → Emission
  map_balancer_in b ctx [] = emit_warning high "load_balancer_without_subnets" b.resource.id
  map_balancer_in b ctx (s ∷ subnets) =
      let name = terraform_identifier strip lower b.resource.id in
      record {
        blocks = balancer_block b ctx (s ∷ subnets) ∷ [];
        warnings = [];
        variables = [];
        outputs =
            (
              name <> "_dns_name",
              (own "aws_lb" name "dns_name", "DNS name of " <> b.resource.logical_name),
            )
            ∷ [];
      }
      then_emit map_listeners b ctx (reference_if ctx b.network_id) 0 b.listeners

  unfoldable pub map_load_balancer : LoadBalancer → MappingContext → Emission
  map_load_balancer b ctx = map_balancer_in b ctx (references ctx b.subnet_ids)
