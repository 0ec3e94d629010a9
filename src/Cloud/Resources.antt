-- ===== src/Cloud/Resources.antt =====
-- src/domain/cloud/resources.py: what Terraform provisions. A resource class of the source that
-- inherits from `CloudResource` is a record with that part in its field `resource`. Left out are the
-- evidence and the free-form attributes of a resource. Numbers that a field allows to be -1 are
-- integers.
use topo_forge_ai.Value.{ℤ}
use topo_forge_ai.Network.{SubnetSpec}
use topo_forge_ai.Prelude.{
  some, none, [], false, ◌∷◌, String, Option, List, Bool, ℕ, map, find, filter, not, ◌++◌, ◌==◌,
  nonempty, length, ◌||◌, String-Eq, any,
}

pub data CloudProvider : Type 0 where
  aws azure gcp : CloudProvider

pub data ResourceKind : Type 0 where
  virtual_network subnet_kind route_table_kind gateway_kind compute_kind database_kind
        load_balancer_kind security_group_kind network_firewall iam_kind :
      ResourceKind

pub record CloudResource : Type 0 where
  pub id : String
  pub kind : ResourceKind
  pub logical_name : String
  pub provider_type : Option String
  pub source_node_ids : List String
  pub tags : List (String × String)

pub record VirtualNetwork : Type 0 where
  pub resource : CloudResource
  pub cidr : SubnetSpec
  pub secondary_cidrs : List SubnetSpec
  pub enable_dns_support : Bool
  pub enable_dns_hostnames : Bool
  pub region : Option String

pub data SubnetPurpose : Type 0 where
  lan_purpose transit_purpose management_purpose database_purpose public_edge : SubnetPurpose

pub record Subnet : Type 0 where
  pub resource : CloudResource
  pub network_id : String
  pub cidr : SubnetSpec
  pub availability_zone : Option String
  pub public : Bool
  pub purpose : SubnetPurpose
  pub source_vlan_id : Option ℕ

pub record Route : Type 0 where
  pub destination : SubnetSpec
  pub target_ref : String
  pub target_kind : String
  pub description : Option String

pub record RouteTable : Type 0 where
  pub resource : CloudResource
  pub network_id : String
  pub routes : List Route
  pub associated_subnet_ids : List String
  pub is_main : Bool

pub data GatewayType : Type 0 where
  internet nat transit_gateway vpn peering virtual_private : GatewayType

pub record Gateway : Type 0 where
  pub resource : CloudResource
  pub type : GatewayType
  pub network_id : Option String
  pub subnet_id : Option String
  pub peer_network_ids : List String
  pub allocate_public_ip : Bool

pub data ComputePlatform : Type 0 where
  virtual_machine container serverless : ComputePlatform

pub record NetworkInterfaceSpec : Type 0 where
  pub id : String
  pub subnet_id : String
  pub private_ip : Option String
  pub source_dest_check : Bool
  pub primary : Bool
  pub security_group_ids : List String
  pub source_interface_id : Option String

pub record ComputeInstance : Type 0 where
  pub resource : CloudResource
  pub platform : ComputePlatform
  pub instance_type : String
  pub image : Option String
  pub subnet_id : Option String
  pub interfaces : List NetworkInterfaceSpec
  pub security_group_ids : List String
  pub assign_public_ip : Bool
  pub key_name : Option String
  pub roles : List String
  pub is_bastion : Bool
  pub root_volume_gb : Option ℕ
  pub is_forwarder : Bool

pub data DatabaseEngine : Type 0 where
  postgres mysql mariadb sqlserver oracle unspecified : DatabaseEngine

pub record Database : Type 0 where
  pub resource : CloudResource
  pub engine : DatabaseEngine
  pub engine_version : Option String
  pub instance_class : String
  pub allocated_storage_gb : ℕ
  pub multi_az : Bool
  pub subnet_ids : List String
  pub security_group_ids : List String
  pub publicly_accessible : Bool
  pub credentials_secret_ref : Option String

pub data LoadBalancerType : Type 0 where
  application_balancer network_balancer gateway_balancer : LoadBalancerType

pub data LoadBalancerScheme : Type 0 where
  internet_facing internal : LoadBalancerScheme

pub record Listener : Type 0 where
  pub protocol : String
  pub port : ℕ
  pub target_port : Option ℕ
  pub target_protocol : Option String
  pub certificate_ref : Option String

pub record LoadBalancer : Type 0 where
  pub resource : CloudResource
  pub type : LoadBalancerType
  pub scheme : LoadBalancerScheme
  pub network_id : Option String
  pub subnet_ids : List String
  pub security_group_ids : List String
  pub listeners : List Listener
  pub target_compute_ids : List String

pub data SecurityRuleDirection : Type 0 where
  ingress egress : SecurityRuleDirection

pub record SecurityRule : Type 0 where
  pub direction : SecurityRuleDirection
  pub protocol : String
  pub from_port : Option ℤ
  pub to_port : Option ℤ
  pub cidr_blocks : List String
  pub source_security_group_id : Option String
  pub description : Option String

pub record SecurityGroup : Type 0 where
  pub resource : CloudResource
  pub network_id : String
  pub rules : List SecurityRule
  pub source_firewall_node_id : Option String

pub record Infrastructure : Type 0 where
  pub networks : List VirtualNetwork
  pub subnets : List Subnet
  pub route_tables : List RouteTable
  pub gateways : List Gateway
  pub compute : List ComputeInstance
  pub databases : List Database
  pub load_balancers : List LoadBalancer
  pub security_groups : List SecurityGroup

unfoldable pub all_resources : Infrastructure → List CloudResource
all_resources i =
    map (λ r. r.resource) i.networks
    ++ (map (λ r. r.resource) i.subnets
        ++ (map (λ r. r.resource) i.route_tables
            ++ (map (λ r. r.resource) i.gateways
                ++ (map (λ r. r.resource) i.compute
                    ++ (map (λ r. r.resource) i.databases
                        ++ (map (λ r. r.resource) i.load_balancers
                            ++ map (λ r. r.resource) i.security_groups))))))

unfoldable pub resource_of : String → Infrastructure → Option CloudResource
unfolding all_resources
resource_of resource_id i = find (λ r. r.id == resource_id) (all_resources i)

unfoldable pub subnets_of : String → Infrastructure → List Subnet
subnets_of network_id i = filter (λ s. s.network_id == network_id) i.subnets

unfoldable pub compute_in_subnet : String → Infrastructure → List ComputeInstance
compute_in_subnet subnet_id i =
    filter
      (λ c.
        elim c.subnet_id [ none ↦ false | some s ↦ s == subnet_id ]
        || any (λ n. n.subnet_id == subnet_id) c.interfaces)
      i.compute

unfoldable pub is_empty : Infrastructure → Bool
unfolding all_resources
is_empty i = not (nonempty (all_resources i))

unfoldable pub counts : Infrastructure → List (String × ℕ)
counts i =
    ("networks", length i.networks)
    ∷ ("subnets", length i.subnets)
    ∷ ("route_tables", length i.route_tables)
    ∷ ("gateways", length i.gateways)
    ∷ ("compute", length i.compute)
    ∷ ("databases", length i.databases)
    ∷ ("load_balancers", length i.load_balancers)
    ∷ ("security_groups", length i.security_groups)
    ∷ []
