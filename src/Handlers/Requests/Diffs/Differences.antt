-- ===== src/Handlers/Requests/Diffs/Differences.antt =====
-- handlers/policy.go, `compareGithubVault`: what a difference of a commit and Vault is.
use goldfish.Prelude.{◌≡◌, sym, ap, ◌⊎◌, String, ◌==◌, ◌||◌, true, false, none, List}
use mathlib.Core.List.{Memᴰ}
use goldfish.Json.{lookup}
use goldfish.Types.{AuthInfo, Config, PolicyDiff}
use goldfish.World.{World, Client, Call, Effect, ok, vault}
use goldfish.Exec.{State, Exec, done}
use goldfish.Exec.Runs.{Returns, from_first, Returns-on_error, Returns-perform}
use goldfish.Vault.Clients.{client, call}
use goldfish.Vault.Clients.Runs.{client-Returns}
use goldfish.Vault.Policies.{get_policy, list_policies}
use goldfish.Github.{get_hcl_files_from_path}
use goldfish.Handlers.Requests.Diffs.{is_builtin, is_known, read_existing}

-- the difference of a policy
abbrev pub diff_of : String → String → String → PolicyDiff
diff_of name current future = record { policy = name; current = current; new = future }

module _ ⦃w : World⦄ where
  -- `range` visits the pairs of a map, each in some place, and nothing else.
  abbrev pub VisitsMap : Type 0
  VisitsMap =
      (t : List Effect) (m : List (String × String)) (x : String × String)
      → (Memᴰ x (w.map_order t m) → Memᴰ x m) × (Memᴰ x m → Memᴰ x (w.map_order t m))

  -- Vault answered this text of the policy to the user's token.
  pub record IsVaultText (auth : AuthInfo) (name text : String) : Type 0 where
    pub before : List Effect
    pub user : Client
    pub same_token : user.token ≡ auth.id
    pub answered : w.answer before (vault user (Call.get_policy name)) ≡ ok text

  -- Vault answered this list of policies to the user's token.
  pub record IsVaultList (auth : AuthInfo) (names : List String) : Type 0 where
    pub before : List Effect
    pub user : Client
    pub same_token : user.token ≡ auth.id
    pub answered : w.answer before (vault user Call.list_policies) ≡ ok names

  -- A policy whose text in the commit is not that in Vault.
  pub record IsChange (auth : AuthInfo) (files : List (String × String)) (d : PolicyDiff)
      : Type 0 where
    pub in_commit : Memᴰ (d.policy, d.new) files
    pub in_vault : IsVaultText auth d.policy d.current
    pub differs : (d.current == d.new) ≡ false

  -- A policy of Vault, not built in, that the commit does not have; it gets the empty text.
  pub record IsRemoval (auth : AuthInfo) (files : List (String × String)) (names : List String)
      (d : PolicyDiff) : Type 0 where
    pub listed : Memᴰ d.policy names
    pub not_builtin : is_builtin d.policy ≡ false
    pub not_in_commit : lookup d.policy files ≡ none
    pub in_vault : IsVaultText auth d.policy d.current
    pub emptied : d.new ≡ ""

  -- a file of the commit is in the differences, or is what Vault has
  abbrev pub IsCompared : AuthInfo → List PolicyDiff → String → String → Type 0
  IsCompared auth diffs name future =
      (current : String) × IsVaultText auth name current
      × (((current == future) ≡ true) ⊎ Memᴰ (diff_of name current future) diffs)

  -- a policy of Vault is in the commit, or built in, or in the differences with the empty text
  abbrev pub IsCovered : AuthInfo → List (String × String) → List PolicyDiff → String → Type 0
  IsCovered auth files diffs name =
      ((is_builtin name || is_known (lookup name files)) ≡ true)
      ⊎ ((current : String) × IsVaultText auth name current × Memᴰ (diff_of name current "") diffs)

  -- the fetch of a commit from the repository of the settings
  abbrev pub fetch_by : Config → String → String → Exec String (List (String × String))
  fetch_by conf base hash =
      get_hcl_files_from_path
        (record {
          access_token = conf.github_access_token;
          owner = conf.github_repo_owner;
          repo = conf.github_repo;
        })
        conf.github_target_branch conf.github_policies_path base hash

  -- The differences of a commit and Vault, and nothing but these.
  pub record IsComparison (auth : AuthInfo) (hash : String) (s : State) (diffs : List PolicyDiff)
      : Type 0 where
    pub files : List (String × String)
    pub fetched : (fetch_by s.server.config s.server.github_current_commit hash s).0 ≡ done files
    pub names : List String
    pub listed : IsVaultList auth names
    pub sound :
        (d : PolicyDiff) → Memᴰ d diffs → IsChange auth files d ⊎ IsRemoval auth files names d
    pub has_changes :
        (name future : String) → Memᴰ (name, future) files → IsCompared auth diffs name future
    pub has_removals : (name : String) → Memᴰ name names → IsCovered auth files diffs name

  pub read_existing-IsVaultText :
      (auth : AuthInfo) (name text : String) (s s' : State)
      → Returns (read_existing auth name) s text s'
      → IsVaultText auth name text
  unfolding read_existing get_policy call
  read_existing-IsVaultText auth name text s s' h =
      from_first (client auth) _ s text s' (Returns-on_error _ (get_policy auth name) s text s' h)
        λ c s1 hc h1. from_first _ _ s1 text s' h1 λ u s2 hr h2. record {
          before = s2.trace;
          user = c;
          same_token = ap (λ (x : Client). x.token) (sym (client-Returns auth s c s1 hc).0);
          answered = (Returns-perform (vault c (Call.get_policy name)) s2 text s' h2).0;
        }

  pub list_policies-IsVaultList :
      (auth : AuthInfo) (names : List String) (s s' : State)
      → Returns (list_policies auth) s names s'
      → IsVaultList auth names
  unfolding list_policies call
  list_policies-IsVaultList auth names s s' h =
      from_first (client auth) _ s names s' h λ c s1 hc h1. record {
        before = s1.trace;
        user = c;
        same_token = ap (λ (x : Client). x.token) (sym (client-Returns auth s c s1 hc).0);
        answered = (Returns-perform (vault c Call.list_policies) s1 names s' h1).0;
      }
