-- ===== src/Deployment.antt =====
-- src/domain/deployment/models.py: plans, approvals and the state of a deployment. Time stamps, the
-- free-form `details` of a change and the generated ids are left out; an id is given by the caller.
-- The digest `hashlib.sha256(...).hexdigest()` is the parameter `sha256`, on the code points of what
-- is hashed (UTF-8 gives each code point its own bytes).
pub mod Stages
pub mod Checksum
pub mod Progress
use topo_forge_ai.Prelude.{
  ℕ, some, none, [], true, false, zero, ◌∷◌, String, Bool, List, Option, if◌then◌else◌, map, any,
  all, codes, ◌++◌, str_le, ◌&&◌, ◌==◌, sorted, ◌+◌, String-Eq,
}

pub record DeploymentTarget : Type 0 where
  pub provider : String
  pub region : String
  pub account_alias : Option String
  pub role_arn : Option String
  pub environment : String

pub data ResourceChangeAction : Type 0 where
  create update replace delete no_op read : ResourceChangeAction

abbrev pub action_value : ResourceChangeAction → String
action_value create = "create"
action_value update = "update"
action_value replace = "replace"
action_value delete = "delete"
action_value no_op = "no_op"
action_value read = "read"

abbrev pub is_destructive : ResourceChangeAction → Bool
is_destructive delete = true
is_destructive replace = true
is_destructive _ = false

abbrev pub is_no_op : ResourceChangeAction → Bool
is_no_op no_op = true
is_no_op _ = false

pub record PlannedChange : Type 0 where
  pub address : String
  pub action : ResourceChangeAction
  pub resource_type : Option String
  pub resource_name : Option String
  pub cloud_resource_id : Option String

pub record DeploymentPlan : Type 0 where
  pub id : String
  pub deployment_id : Option String
  pub target : DeploymentTarget
  pub changes : List PlannedChange
  pub summary_text : Option String
  pub plan_artifact_uri : Option String
  pub project_fingerprint : Option String
  pub warnings : List String

-- The members of the enumeration, in order.
abbrev pub actions : List ResourceChangeAction
actions = create ∷ update ∷ replace ∷ delete ∷ no_op ∷ read ∷ []

-- `counts[key] += 1`
abbrev count_up : String → List (String × ℕ) → List (String × ℕ)
count_up k [] = []
count_up k ((j, n) ∷ m) = if j == k then (j, n + 1) ∷ m else (j, n) ∷ count_up k m

abbrev count_changes : List PlannedChange → List (String × ℕ) → List (String × ℕ)
count_changes [] m = m
count_changes (c ∷ cs) m = count_changes cs (count_up (action_value c.action) m)

unfoldable pub counts : DeploymentPlan → List (String × ℕ)
counts p = count_changes p.changes (map (λ a. (action_value a, 0)) actions)

unfoldable pub has_destructive_changes : DeploymentPlan → Bool
has_destructive_changes p = any (λ c. is_destructive c.action) p.changes

unfoldable pub is_empty : DeploymentPlan → Bool
is_empty p = all (λ c. is_no_op c.action) p.changes

-- The text of the changes in the digest: each address and each action behind a zero.
abbrev pub changes_text : List PlannedChange → List ℕ
changes_text [] = []
changes_text (c ∷ cs) =
    0 ∷ (codes c.address ++ (0 ∷ (codes (action_value c.action) ++ changes_text cs)))

abbrev pub by_address : PlannedChange → PlannedChange → Bool
by_address c d = str_le c.address d.address

-- `self.project_fingerprint or ""`
abbrev pub fingerprint_text : Option String → List ℕ
fingerprint_text none = []
fingerprint_text (some f) = codes f

-- What is hashed.
unfoldable pub digest_text : DeploymentPlan → List ℕ
digest_text p = fingerprint_text p.project_fingerprint ++ changes_text (sorted by_address p.changes)

pub data ApprovalDecision : Type 0 where
  approved rejected : ApprovalDecision

pub record ApprovalRecord : Type 0 where
  pub id : String
  pub deployment_id : String
  pub plan_id : String
  pub plan_checksum : String
  pub decision : ApprovalDecision
  pub actor : String
  pub comment : Option String
  pub source_ip : Option String
  pub user_agent : Option String

abbrev pub is_approved : ApprovalRecord → Bool
is_approved a = elim a.decision [ approved ↦ true | rejected ↦ false ]

module _ (sha256 : List ℕ → String) where
  unfoldable pub checksum : DeploymentPlan → String
  unfolding digest_text
  checksum p = sha256 (digest_text p)

  unfoldable pub authorises : ApprovalRecord → DeploymentPlan → Bool
  unfolding checksum
  authorises a p = is_approved a && (a.plan_id == p.id && a.plan_checksum == checksum p)
