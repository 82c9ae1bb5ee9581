-- ===== src/Handlers/Requests/Diffs/Reads.antt =====
-- handlers/policy.go and github/github.go: an invariant that the single reads keep is kept by the
-- comparison of a commit with Vault.
use goldfish.Prelude.{String, true, false, ◌||◌, List, [], ◌∷◌}
use goldfish.Json.{lookup}
use goldfish.Types.{AuthInfo}
use goldfish.World.{World, File, Repo, compare_commits, get_contents}
use goldfish.Exec.{State, pure, perform, ◌>>=◌}
use goldfish.Exec.Keeps.{Keeps, Keeps-bind, Keeps-pure, Keeps-gets, Keeps-on_error, keeps_rules}
use goldfish.Vault.Auth.{get_config}
use goldfish.Vault.Policies
use goldfish.Github.{
  is_policy_file, insert, fetch_file, collect_files, check_branch, check_commits,
  get_hcl_files_from_path,
}
use goldfish.Handlers.Requests.Diffs.{
  is_builtin, is_known, read_existing, changed_policies, removed_policies, compare_github_vault,
}

module _ ⦃w : World⦄ where
  -- The reads of GitHub, and of Vault's policies for this user, keep the invariant.
  pub record IsReadable (P : State → Type 0) (auth : AuthInfo) : Type 0 where
    pub compare :
        (repo : Repo) (base head : String) → Keeps P (perform (compare_commits repo base head))
    pub fetch : (repo : Repo) (path head : String) → Keeps P (perform (get_contents repo path head))
    pub get_policy : (name : String) → Keeps P (Policies.get_policy auth name)
    pub list_policies : Keeps P (Policies.list_policies auth)

module _ ⦃w : World⦄ {P : State → Type 0} {auth : AuthInfo} (reads : IsReadable P auth) where
  Keeps-fetch_file :
      (repo : Repo) (path head name : String) → Keeps P (fetch_file repo path head name)
  unfolding fetch_file
  Keeps-fetch_file repo path head name = search (keeps_rules, reads.fetch) depth 10

  Keeps-collect_files :
      (repo : Repo) (path head : String) (fs : List File) (m : List (String × String))
      → Keeps P (collect_files repo path head fs m)
  unfolding collect_files
  Keeps-collect_files repo path head [] m = Keeps-pure _
  Keeps-collect_files repo path head (f ∷ fs) m =
      elim (is_policy_file f)
        as (λ b. Keeps P (elim b [
          | false ↦ collect_files repo path head fs m
          | true ↦ fetch_file repo path head f.name >>= λ (name, content).
              collect_files repo path head fs (insert name content m)
        ])) [
          | false ↦ Keeps-collect_files repo path head fs m
          | true ↦
              Keeps-bind _ _ (Keeps-fetch_file repo path head f.name)
                (λ (name, content). Keeps-collect_files repo path head fs (insert name content m))
        ]

  Keeps-get_hcl_files :
      (repo : Repo) (branch path base_commit head : String)
      → Keeps P (get_hcl_files_from_path repo branch path base_commit head)
  unfolding get_hcl_files_from_path check_commits check_branch
  Keeps-get_hcl_files repo branch path base_commit head =
      search (keeps_rules, reads.fetch, reads.compare, Keeps-collect_files) depth 16

  Keeps-read_existing : (name : String) → Keeps P (read_existing auth name)
  unfolding read_existing
  Keeps-read_existing name = search (keeps_rules, reads.get_policy)

  Keeps-changed_policies : (m : List (String × String)) → Keeps P (changed_policies auth m)
  unfolding changed_policies
  Keeps-changed_policies [] = Keeps-pure _
  Keeps-changed_policies ((name, future) ∷ m) =
      Keeps-bind _ _ (Keeps-read_existing name)
        λ _. Keeps-bind _ _ (Keeps-changed_policies m) (λ _. Keeps-pure _)

  Keeps-removed_policies :
      (m : List (String × String)) (names : List String) → Keeps P (removed_policies auth m names)
  unfolding removed_policies
  Keeps-removed_policies m [] = Keeps-pure _
  Keeps-removed_policies m (name ∷ names) =
      elim (is_builtin name || is_known (lookup name m))
        as (λ b. Keeps P (elim b [
          | true ↦ removed_policies auth m names
          | false ↦ read_existing auth name >>= λ current. removed_policies auth m names >>= λ rest.
              pure (record { policy = name; current = current; new = "" } ∷ rest)
        ])) [
          | true ↦ Keeps-removed_policies m names
          | false ↦
              Keeps-bind _ _ (Keeps-read_existing name)
                λ current. Keeps-bind _ _ (Keeps-removed_policies m names) (λ rest. Keeps-pure _)
        ]

  pub Keeps-compare_github_vault : (hash : String) → Keeps P (compare_github_vault auth hash)
  unfolding compare_github_vault get_config
  Keeps-compare_github_vault hash = Keeps-bind _ _ (Keeps-gets _) λ conf.
      Keeps-bind _ _ (Keeps-gets _) λ base.
        Keeps-bind _ _ (Keeps-on_error _ _ (Keeps-get_hcl_files _ _ _ _ _)) λ policies.
          Keeps-bind _ _ (Keeps-on_error _ _ reads.list_policies) λ current.
            Keeps-bind _ _ (Keeps-gets _) λ ordered.
              Keeps-bind _ _ (Keeps-changed_policies ordered) λ changes.
                Keeps-bind _ _ (Keeps-removed_policies policies current) λ removed. Keeps-pure _
