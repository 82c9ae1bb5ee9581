-- ===== src/Handlers/Requests/Quorum/Compare.antt =====
-- handlers/policy.go and github/github.go: the comparison of a commit with Vault, for the update.
use goldfish.Prelude.{arith, ℕ, String, List}
use goldfish.Types.{AuthInfo}
use goldfish.World.{World, Repo, Client, Call, Effect, compare_commits, get_contents}
use goldfish.Exec.{perform}
use goldfish.Exec.Trace.{effect}
use goldfish.Exec.Keeps.{Keeps, Keeps-perform, keeps_rules}
use goldfish.Vault.Clients.{call}
use goldfish.Vault.Policies
use goldfish.Handlers.Requests.Diffs.Reads
use goldfish.Handlers.Requests.Diffs.{compare_github_vault}
use goldfish.Handlers.Requests.Quorum.Calls.{
  Justification, IsFair, Keeps-plain, Keeps-client, Keeps-get_policy,
}

module _ ⦃w : World⦄ {J : Justification} {base : List Effect} {n : ℕ} where
  Keeps-compare :
      (repo : Repo) (base_commit head : String)
      → Keeps (IsFair J base n) (perform (compare_commits repo base_commit head))
  Keeps-compare repo base_commit head =
      Keeps-perform {P = IsFair J base n} (compare_commits repo base_commit head)
        λ s f. record { justified = effect tt f.justified; counted = omega (arith, f.counted) }

  Keeps-fetch :
      (repo : Repo) (path head : String)
      → Keeps (IsFair J base n) (perform (get_contents repo path head))
  Keeps-fetch repo path head =
      Keeps-perform {P = IsFair J base n} (get_contents repo path head)
        λ s f. record { justified = effect tt f.justified; counted = omega (arith, f.counted) }

  listing : (c : Client) → Keeps (IsFair J base n) (call c Call.list_policies)
  listing c = Keeps-plain c Call.list_policies tt

  Keeps-list_policies : (auth : AuthInfo) → Keeps (IsFair J base n) (Policies.list_policies auth)
  unfolding Policies.list_policies
  Keeps-list_policies auth = search (keeps_rules, Keeps-client, listing) depth 8

  pub Keeps-compare_github_vault :
      (auth : AuthInfo) (hash : String) → Keeps (IsFair J base n) (compare_github_vault auth hash)
  Keeps-compare_github_vault auth = Reads.Keeps-compare_github_vault (record {
    compare = Keeps-compare;
    fetch = Keeps-fetch;
    get_policy = Keeps-get_policy auth;
    list_policies = Keeps-list_policies auth;
  })
