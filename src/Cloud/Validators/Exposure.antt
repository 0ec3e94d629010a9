-- ===== src/Cloud/Validators/Exposure.antt =====
-- `PublicExposureValidator` of src/domain/cloud/validators.py.
use topo_forge_ai.Issues.{error}
use topo_forge_ai.Cloud.Validators.{report_if, issue}
use topo_forge_ai.Issues.{ValidationIssue, warning}
use topo_forge_ai.Cloud.{CloudArchitecture}
use topo_forge_ai.Value.{ℤ, pos, negsuc}
use topo_forge_ai.Cloud.Resources.{
  SecurityRuleDirection, SecurityGroup, SecurityRule, Database, ingress, egress,
}
use topo_forge_ai.Prelude.{
  some, none, [], true, false, zero, suc, ◌∷◌, List, Option, ℕ, String, Bool, range, contains,
  concat_map, ◌&&◌, ◌-◌, is_some, any, ◌||◌, ◌++◌, lookup, not, String-Eq, if◌then◌else◌, ℕ-Eq,
}

-- `_SENSITIVE_PORTS`
abbrev pub sensitive_ports : List (ℕ × String)
sensitive_ports =
    (22, "SSH")
    ∷ (3389, "RDP")
    ∷ (3306, "MySQL")
    ∷ (5432, "PostgreSQL")
    ∷ (6379, "Redis")
    ∷ (27017, "MongoDB")
    ∷ (9200, "Elasticsearch")
    ∷ (1433, "SQL Server")
    ∷ []

-- `_WORLD`
abbrev pub world : List String
world = "0.0.0.0/0" ∷ "::/0" ∷ []

abbrev pub is_ingress : SecurityRuleDirection → Bool
is_ingress ingress = true
is_ingress egress = false

-- `rule.to_port or rule.from_port`: the port 0 counts as none.
abbrev pub last_port : Option ℤ → ℤ → ℤ
last_port none from = from
last_port (some (pos zero)) from = from
last_port (some to) from = to

-- The ports from `range(from, to + 1)` that are not negative; the table has no other.
abbrev pub ports_between : ℤ → ℤ → List ℕ
ports_between (pos m) (pos n) = range m (suc n - m)
ports_between (negsuc m) (pos n) = range 0 (suc n)
ports_between _ (negsuc n) = []

abbrev pub port_issue : SecurityGroup → ℕ → List ValidationIssue
port_issue g port = report_if (is_some (lookup port sensitive_ports)) (
    issue "PublicExposureValidator" "sensitive_port_open_to_world" warning (g.resource.id ∷ [])
      (some "restrict the source to an administrative CIDR, or reach the host through a bastion"))

abbrev pub is_world_rule : SecurityRule → Bool
is_world_rule r = is_ingress r.direction && any (contains world) r.cidr_blocks

abbrev pub has_all_ports : SecurityRule → Bool
has_all_ports r = contains ("-1" ∷ "all" ∷ []) r.protocol || not (is_some r.from_port)

abbrev pub world_ports : SecurityRule → List ℕ
world_ports r = elim r.from_port [
  | none ↦ []
  | some from ↦ ports_between from (last_port r.to_port from)
]

unfoldable pub check_rule : SecurityGroup → SecurityRule → List ValidationIssue
check_rule g r =
    let ports = concat_map (port_issue g) (world_ports r) in
    let every_port =
      issue "PublicExposureValidator" "world_open_all_ports" error (g.resource.id ∷ [])
        (some "restrict the port range and the source CIDR")
      ∷ [] in
    if is_world_rule r then (if has_all_ports r then every_port else ports) else []

abbrev pub database_issue : Database → List ValidationIssue
database_issue d = report_if d.publicly_accessible (
    issue "PublicExposureValidator" "publicly_accessible_database" warning (d.resource.id ∷ [])
      none)

unfoldable pub validate_exposure : CloudArchitecture → List ValidationIssue
unfolding check_rule
validate_exposure a =
    concat_map (λ g. concat_map (check_rule g) g.rules) a.infrastructure.security_groups
    ++ concat_map database_issue a.infrastructure.databases
