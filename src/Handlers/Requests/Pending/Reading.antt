-- ===== src/Handlers/Requests/Pending/Reading.antt =====
-- handlers/policy.go: the reads of an update by commit leave the cubbyhole as it is.
use goldfish.Prelude.{String, Option, none, some}
use goldfish.Json.{Dict, Value}
use goldfish.Types.{AuthInfo}
use goldfish.World.{World, Repo, Client, Call, compare_commits, get_contents}
use goldfish.Exec.{Server, perform}
use goldfish.Exec.Keeps.{Keeps, Keeps-perform, keeps_rules}
use goldfish.Vault.Clients.{client, call}
use goldfish.Vault.Policies
use goldfish.Handlers.Requests.Diffs.{compare_github_vault}
use goldfish.Handlers.Requests.Diffs.Reads
use goldfish.Handlers.Requests.Commit.{tokens_in}
use goldfish.Handlers.Requests.Memory.{
  HasStored, Keeps-reading, Keeps-new_vault_client, Keeps-get_policy,
}

module _ ⦃w : World⦄ {srv : Server} {name : String} {v : Option Dict} where
  Keeps-compare :
      (repo : Repo) (base head : String)
      → Keeps (HasStored srv name v) (perform (compare_commits repo base head))
  Keeps-compare repo base head =
      Keeps-perform {P = HasStored srv name v} (compare_commits repo base head)
        λ s h. record { same_server = h.same_server; is_stored = h.is_stored }

  Keeps-fetch :
      (repo : Repo) (path head : String)
      → Keeps (HasStored srv name v) (perform (get_contents repo path head))
  Keeps-fetch repo path head =
      Keeps-perform {P = HasStored srv name v} (get_contents repo path head)
        λ s h. record { same_server = h.same_server; is_stored = h.is_stored }

  Keeps-list_policies :
      (auth : AuthInfo) → Keeps (HasStored srv name v) (Policies.list_policies auth)
  unfolding Policies.list_policies client
  Keeps-list_policies auth = search (keeps_rules, Keeps-new_vault_client, looking, listing) depth 12
    where
      looking : (c : Client) → Keeps (HasStored srv name v) (call c Call.lookup_self)
      looking c = Keeps-reading c Call.lookup_self tt

      listing : (c : Client) → Keeps (HasStored srv name v) (call c Call.list_policies)
      listing c = Keeps-reading c Call.list_policies tt

  pub Keeps-compare_github_vault :
      (auth : AuthInfo) (hash : String)
      → Keeps (HasStored srv name v) (compare_github_vault auth hash)
  Keeps-compare_github_vault auth = Reads.Keeps-compare_github_vault (record {
    compare = Keeps-compare;
    fetch = Keeps-fetch;
    get_policy = Keeps-get_policy auth;
    list_policies = Keeps-list_policies auth;
  })

  pub Keeps-tokens_in : (o : Option Value) → Keeps (HasStored srv name v) (tokens_in o)
  unfolding tokens_in
  Keeps-tokens_in none = search (keeps_rules) depth 2
  Keeps-tokens_in (some x) = search (keeps_rules) depth 6
