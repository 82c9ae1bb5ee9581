-- ===== src/Handlers/Requests/Diffs.antt =====
-- handlers/policy.go, `compareGithubVault`.
pub mod Differences
pub mod Changed
pub mod Removed
pub mod Compared
pub mod Reads
use goldfish.Prelude.{
  String, Bool, ◌||◌, Option, none, some, List, [], ◌∷◌, ◌++◌, ◌==◌, if◌then◌else◌,
}
use goldfish.Prelude.Text.{split, trim}
use goldfish.Prelude.{nat_eq}
use goldfish.Json.{lookup}
use goldfish.Types.{AuthInfo, PolicyDiff}
use goldfish.World.{World}
use goldfish.Exec.{Exec, pure, gets, on_error, ◌>>=◌}
use goldfish.Vault.Auth.{get_config}
use goldfish.Vault.Policies.{list_policies, get_policy}
use goldfish.Github.{get_hcl_files_from_path}

-- `errtext[len(errtext)-1]`, which a split always has
abbrev pub last_of : List String → String
last_of [] = ""
last_of (t ∷ []) = t
last_of (t ∷ u ∷ ts) = last_of (u ∷ ts)

-- the part behind the last colon, without spaces round it
unfoldable pub without_details : String → String
unfolding split trim
without_details text = trim (λ c. nat_eq c 32) (last_of (split text ":"))

abbrev pub could_not_read : String
could_not_read = "Could not read existing policy"

-- What a policy of the commit adds to the changes.
abbrev pub change : String → String → String → List PolicyDiff
change name current future =
    if current == future then [] else record { policy = name; current = current; new = future } ∷ []

-- `name == "root" || name == "default"`
abbrev pub is_builtin : String → Bool
is_builtin name = name == "root" || name == "default"

abbrev pub is_known : Option String → Bool
is_known none = Bool.false
is_known (some _) = Bool.true

module _ ⦃w : World⦄ where
  unfoldable pub read_existing : AuthInfo → String → Exec String String
  read_existing auth name = on_error (λ _. could_not_read) (get_policy auth name)

  -- for each file of the folder
  unfoldable pub changed_policies :
      AuthInfo → List (String × String) → Exec String (List PolicyDiff)
  changed_policies auth [] = pure []
  changed_policies auth ((name, future) ∷ policies) = do
    current ← read_existing auth name
    rest ← changed_policies auth policies
    pure (change name current future ++ rest)

  -- for each policy of Vault that is not in the folder
  unfoldable pub removed_policies :
      AuthInfo → List (String × String) → List String → Exec String (List PolicyDiff)
  removed_policies auth policies [] = pure []
  removed_policies auth policies (name ∷ names) =
      elim (is_builtin name || is_known (lookup name policies)) [
        | Bool.true ↦ removed_policies auth policies names
        | Bool.false ↦ do
          current ← read_existing auth name
          rest ← removed_policies auth policies names
          pure (record { policy = name; current = current; new = "" } ∷ rest)
      ]

  -- `compareGithubVault`
  unfoldable pub compare_github_vault : AuthInfo → String → Exec String (List PolicyDiff)
  compare_github_vault auth hash = do
    conf ← get_config
    base ← gets (λ s. s.server.github_current_commit)
    policies ← on_error without_details (
        get_hcl_files_from_path
          (record {
            access_token = conf.github_access_token;
            owner = conf.github_repo_owner;
            repo = conf.github_repo;
          })
          conf.github_target_branch conf.github_policies_path base hash)
    current ← on_error (λ _. "Could not list existing policies") (list_policies auth)
    ordered ← gets (λ s. w.map_order s.trace policies)
    changes ← changed_policies auth ordered
    removed ← removed_policies auth policies current
    pure (changes ++ removed)
