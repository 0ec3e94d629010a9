-- ===== src/Tests/Cloud.antt =====
-- A small cloud architecture for the theorems on its validators.
use topo_forge_ai.Cloud.Validators.Coherence.{validate_coherence}
use topo_forge_ai.Cloud.Validators.Exposure.{validate_exposure}
use topo_forge_ai.Cloud.Validators.Routes.{validate_routes}
use topo_forge_ai.Cloud.Integrity.{cloud_integrity_iff}
use topo_forge_ai.Cloud.Integrity.{IsWellFormed}
use topo_forge_ai.Cloud.Sound.Suite.{IsSound, run_suite_iff}
use topo_forge_ai.Cloud.Validators.Subnets.{validate_subnets}
use topo_forge_ai.Value.{pos}
use topo_forge_ai.Issues.{from_issues, empty_report}
use topo_forge_ai.Cloud.Validators.Suite.{run_suite, default_cloud_validators}
use topo_forge_ai.Cloud.{CloudArchitecture, cloud_integrity, configured_by}
use topo_forge_ai.Cloud.Hosts.{ConfigurationHost, SystemRole, ssh}
use topo_forge_ai.Cloud.Resources.{
  VirtualNetwork, Subnet, RouteTable, Gateway, SecurityRule, SecurityGroup, ResourceKind,
  virtual_network, subnet_kind, route_table_kind, gateway_kind, NetworkInterfaceSpec,
  ComputeInstance, ingress, security_group_kind, CloudResource, lan_purpose, internet, compute_kind,
  aws, virtual_machine,
}
use topo_forge_ai.Network.{SubnetSpec, canonical, v4}
use topo_forge_ai.Cloud.Validators.Placement.{Parser, validate_placement}
use topo_forge_ai.Prelude.{
  refl, some, none, [], true, false, ok, ◌∷◌, String, List, if◌then◌else◌, ◌≡◌, ◌==◌, ◌↔◌,
  String-Eq, map,
}
use topo_forge_ai.Cloud.{check_subnet, check_compute, check_nic, check_host, check_relationship}
use topo_forge_ai.Network.{is_subnet_of, usable_host_count, contains_address}
use topo_forge_ai.Cloud.Resources.{all_resources}
use topo_forge_ai.Cloud.Hosts.{unresolved_role_names}

abbrev pub address_of : Parser
address_of text = if text == "10.0.0.9" then some (v4, 167772169) else none

abbrev pub block : SubnetSpec
block = canonical v4 167772160 24

abbrev pub resource_named : String → ResourceKind → CloudResource
resource_named id kind = record {
  id = id;
  kind = kind;
  logical_name = id;
  provider_type = none;
  source_node_ids = [];
  tags = [];
}

abbrev pub vpc : VirtualNetwork
vpc = record {
  resource = resource_named "vpc" virtual_network;
  cidr = canonical v4 167772160 16;
  secondary_cidrs = [];
  enable_dns_support = true;
  enable_dns_hostnames = true;
  region = none;
}

abbrev pub lan : Subnet
lan = record {
  resource = resource_named "lan" subnet_kind;
  network_id = "vpc";
  cidr = block;
  availability_zone = none;
  public = false;
  purpose = lan_purpose;
  source_vlan_id = none;
}

abbrev pub main_table : RouteTable
main_table = record {
  resource = resource_named "rt" route_table_kind;
  network_id = "vpc";
  routes =
      record {
        destination = canonical v4 0 0;
        target_ref = "igw";
        target_kind = "internet";
        description = none;
      }
      ∷ [];
  associated_subnet_ids = "lan" ∷ [];
  is_main = true;
}

abbrev pub uplink : Gateway
uplink = record {
  resource = resource_named "igw" gateway_kind;
  type = internet;
  network_id = some "vpc";
  subnet_id = none;
  peer_network_ids = [];
  allocate_public_ip = false;
}

abbrev pub card : String → NetworkInterfaceSpec
card id = record {
  id = id;
  subnet_id = "lan";
  private_ip = some "10.0.0.9";
  source_dest_check = true;
  primary = true;
  security_group_ids = [];
  source_interface_id = none;
}

abbrev pub server : String → ComputeInstance
server id = record {
  resource = resource_named id compute_kind;
  platform = virtual_machine;
  instance_type = "t3.micro";
  image = none;
  subnet_id = some "lan";
  interfaces = card id ∷ [];
  security_group_ids = [];
  assign_public_ip = false;
  key_name = none;
  roles = "web" ∷ [];
  is_bastion = false;
  root_volume_gb = none;
  is_forwarder = false;
}

abbrev pub web_rule : SecurityRule
web_rule = record {
  direction = ingress;
  protocol = "tcp";
  from_port = some (pos 22);
  to_port = some (pos 22);
  cidr_blocks = "0.0.0.0/0" ∷ [];
  source_security_group_id = none;
  description = none;
}

abbrev pub web_group : SecurityGroup
web_group = record {
  resource = resource_named "sg" security_group_kind;
  network_id = "vpc";
  rules = web_rule ∷ [];
  source_firewall_node_id = none;
}

abbrev pub host : ConfigurationHost
host = record {
  id = "host";
  name = "web-1";
  compute_id = "server";
  groups = "web" ∷ [];
  roles = "web" ∷ [];
  connection = ssh;
  remote_user = none;
  requires_bastion = false;
  bastion_host_id = none;
  address_output_ref = none;
}

abbrev pub web_role : SystemRole
web_role = record {
  id = "role-web";
  name = "web";
  description = none;
  packages = [];
  services = [];
  files = [];
  requires = [];
  kind = none;
}

abbrev pub with_compute : List ComputeInstance → CloudArchitecture
with_compute compute = record {
  schema_version = "1.0";
  metadata = record {
    cloud_architecture_id = "cloud";
    provider = aws;
    region = "eu-west-1";
    network_architecture_id = none;
    network_architecture_revision = none;
    project_id = none;
    revision = 1;
    deployment_pattern = none;
    confidence = none;
  };
  infrastructure = record {
    networks = vpc ∷ [];
    subnets = lan ∷ [];
    route_tables = main_table ∷ [];
    gateways = uplink ∷ [];
    compute = compute;
    databases = [];
    load_balancers = [];
    security_groups = web_group ∷ [];
  };
  configuration = record { hosts = host ∷ []; roles = web_role ∷ [] };
  relationships =
      record {
        id = "r1";
        type = configured_by;
        source_id = "server";
        target_id = "lan";
        description = none;
      }
      ∷ [];
  unmapped = [];
  validation = empty_report;
}

abbrev pub small_cloud : CloudArchitecture
small_cloud = with_compute (server "server" ∷ [])

-- The same address at two instances.
abbrev crowded_cloud : CloudArchitecture
crowded_cloud = with_compute (server "server" ∷ server "twin" ∷ [])

run_suite_iff_example :
    (((run_suite (default_cloud_validators address_of) small_cloud).valid ≡ true)
      ↔ IsSound address_of small_cloud)
    × ((run_suite (default_cloud_validators address_of) small_cloud).validators_run
        ≡ "SubnetValidator" ∷ "ComputePlacementValidator" ∷ "RouteTableValidator"
          ∷ "PublicExposureValidator" ∷ "ConfigurationCoherenceValidator" ∷ [])
run_suite_iff_example = run_suite_iff address_of small_cloud

cloud_integrity_iff_example :
    (cloud_integrity small_cloud ≡ ok small_cloud) ↔ IsWellFormed small_cloud
cloud_integrity_iff_example = cloud_integrity_iff small_cloud

suite_on_small_cloud :
    map (λ i. i.code) (run_suite (default_cloud_validators address_of) small_cloud).warnings
    ≡ "sensitive_port_open_to_world" ∷ []
unfolding run_suite from_issues validate_subnets validate_placement validate_routes
    validate_exposure validate_coherence is_subnet_of canonical usable_host_count contains_address
    all_resources unresolved_role_names
suite_on_small_cloud = refl

suite_on_crowded_cloud :
    map (λ i. i.code) (run_suite (default_cloud_validators address_of) crowded_cloud).errors
    ≡ "duplicate_address" ∷ []
unfolding run_suite from_issues validate_subnets validate_placement validate_routes
    validate_exposure validate_coherence is_subnet_of canonical usable_host_count contains_address
    all_resources unresolved_role_names
suite_on_crowded_cloud = refl

integrity_of_small_cloud : cloud_integrity small_cloud ≡ ok small_cloud
unfolding cloud_integrity all_resources check_subnet check_compute check_nic check_host
    check_relationship
integrity_of_small_cloud = refl
