-- ===== src/Cloud/Hosts.antt =====
-- src/domain/cloud/configuration.py: what Ansible configures. Left out are the variables, which are
-- free-form, and evidence.
use topo_forge_ai.Prelude.{
  [], ◌∷◌, String, List, Bool, Option, not, filter, if◌then◌else◌, concat_map, map, ℕ, nonempty,
  find, contains, ◌++◌, length, ◌||◌, ◌==◌, String-Eq,
}

pub data ConnectionMethod : Type 0 where
  ssh ssm winrm local : ConnectionMethod

pub record ConfigurationHost : Type 0 where
  pub id : String
  pub name : String
  pub compute_id : String
  pub groups : List String
  pub roles : List String
  pub connection : ConnectionMethod
  pub remote_user : Option String
  pub requires_bastion : Bool
  pub bastion_host_id : Option String
  pub address_output_ref : Option String

pub data ServiceState : Type 0 where
  started stopped restarted reloaded : ServiceState

pub record PackageRequirement : Type 0 where
  pub name : String
  pub version : Option String
  pub state : String

pub record ServiceRequirement : Type 0 where
  pub name : String
  pub state : ServiceState
  pub enabled : Bool

pub record ConfigFile : Type 0 where
  pub path : String
  pub content : Option String
  pub template : Option String
  pub owner : Option String
  pub group : Option String
  pub mode : Option String
  pub notifies : List String

pub record SystemRole : Type 0 where
  pub id : String
  pub name : String
  pub description : Option String
  pub packages : List PackageRequirement
  pub services : List ServiceRequirement
  pub files : List ConfigFile
  pub requires : List String
  pub kind : Option String

pub record Configuration : Type 0 where
  pub hosts : List ConfigurationHost
  pub roles : List SystemRole

unfoldable pub has_nothing : Configuration → Bool
has_nothing c = not (nonempty c.hosts || nonempty c.roles)

unfoldable pub role : String → Configuration → Option SystemRole
role name c = find (λ r. r.name == name || r.id == name) c.roles

unfoldable pub hosts_in_group : String → Configuration → List ConfigurationHost
hosts_in_group group c = filter (λ h. contains h.groups group) c.hosts

-- `if x not in seen: seen.append(x)`, for each item.
abbrev pub append_new : List String → List String → List String
append_new [] seen = seen
append_new (x ∷ xs) seen = append_new xs (if contains seen x then seen else seen ++ x ∷ [])

unfoldable pub groups_of : Configuration → List String
groups_of c = append_new (concat_map (λ h. h.groups) c.hosts) []

abbrev pub defined_names : Configuration → List String
defined_names c = map (λ r. r.name) c.roles ++ map (λ r. r.id) c.roles

-- The names that hosts use and then those that roles require; each that no role defines, once.
unfoldable pub unresolved_role_names : Configuration → List String
unresolved_role_names c =
    append_new
      (filter (λ n. not (contains (defined_names c) n))
        (concat_map (λ h. h.roles) c.hosts ++ concat_map (λ r. r.requires) c.roles))
      []

unfoldable pub configuration_counts : Configuration → List (String × ℕ)
unfolding groups_of
configuration_counts c =
    ("hosts", length c.hosts) ∷ ("roles", length c.roles) ∷ ("groups", length (groups_of c)) ∷ []
