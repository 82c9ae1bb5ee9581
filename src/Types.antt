-- ===== src/Types.antt =====
-- The records of vault/vault.go, vault/config.go, handlers/policy.go and vault/user.go.
use goldfish.Prelude.{ℕ, ℤ, String, Bool, List}

-- vault/vault.go: the credentials of a session.
pub record AuthInfo : Type 0 where
  pub type : String
  pub id : String
  pub pass : String

-- vault/config.go: the settings that are read from Vault.
pub record Config : Type 0 where
  pub server_transit_key : String
  pub user_transit_key : String
  pub transit_backend : String
  pub default_secret_path : String
  pub bulletin_path : String
  pub slack_webhook : String
  pub slack_channel : String
  pub github_access_token : String
  pub github_repo_owner : String
  pub github_repo : String
  pub github_policies_path : String
  pub github_target_branch : String
  pub last_updated : String
  pub github_current_commit : String

abbrev pub empty_config : Config
empty_config = record {
  server_transit_key = "";
  user_transit_key = "";
  transit_backend = "";
  default_secret_path = "";
  bulletin_path = "";
  slack_webhook = "";
  slack_channel = "";
  github_access_token = "";
  github_repo_owner = "";
  github_repo = "";
  github_policies_path = "";
  github_target_branch = "";
  last_updated = "";
  github_current_commit = "";
}

-- handlers/policy.go: a policy change that waits for its unseal keys.
pub record PolicyRequest : Type 0 where
  pub policy : String
  pub current : String
  pub new : String
  pub requester : String
  pub requester_hash : String
  pub required : ℕ
  pub progress : ℕ

pub record PolicyDiff : Type 0 where
  pub policy : String
  pub current : String
  pub new : String

-- vault/user.go: what a listing shows of a userpass user, and of an approle.
pub record User : Type 0 where
  pub name : String
  pub ttl : ℤ
  pub max_ttl : ℤ
  pub policies : String

pub record Role : Type 0 where
  pub roleid : String
  pub token_ttl : ℤ
  pub token_max_ttl : ℤ
  pub secret_id_ttl : ℤ
  pub secret_id_num_uses : ℤ
  pub policies : List String
  pub period : ℤ
  pub bind_secret_id : Bool
  pub bound_cidr_list : String
