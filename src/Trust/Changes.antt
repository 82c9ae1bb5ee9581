-- ===== src/Trust/Changes.antt =====
-- handlers/policy.go and github/github.go: what is read for the user on the way to a change, and the
-- two updates as wholes.
use goldfish.Prelude.{String, Option, none, some, List, ℕ, zero, suc}
use goldfish.Types.{AuthInfo, PolicyRequest}
use goldfish.World.{World, Request, RootStatus, Repo, compare_commits, get_contents}
use goldfish.Exec.{State, perform}
use goldfish.Exec.Keeps.{
  Keeps, Keeps-bind, Keeps-defer, Keeps-on_error, Keeps-pure, Keeps-leave, keeps_rules,
}
use goldfish.Handlers.Requests.Tokens.{store_tokens}
use goldfish.Handlers.Requests.Verify.{answer_verdict, load_request}
use goldfish.Handlers.Requests.Diffs.Reads
use goldfish.Handlers.Requests.Diffs.{compare_github_vault}
use goldfish.Handlers.Requests.Add.{new_request}
use goldfish.Handlers.Requests.Remove.{remove_request}
use goldfish.Handlers.Requests.Update.{
  earlier_tokens, store_progress, apply_change, attempt_change, with_tokens, update_by_change_id,
}
use goldfish.Handlers.Requests.Commit.{update_by_commit_hash}
use goldfish.Handlers.Requests.View.{view_by_change_id, view_by_commit_hash}
use goldfish.Handlers.Requests.Root.{root_auth}
use goldfish.Trust.Root.{IsRootToken}
use goldfish.Trust.Calls.{IsTrusted, compares, fetches, Keeps-Allowed}
use goldfish.Trust.Methods.{Keeps-get_policy, Keeps-list_policies, Keeps-lookup_self}
use goldfish.Trust.Requests.{
  server_rules, Keeps-send_csrf_token, Keeps-unwrap_all, Keeps-bind_generated, Keeps-revoke_self,
  Keeps-put_policy, Keeps-discard_tokens, Keeps-discard_request, Keeps-tokens_in,
  Keeps-with_commit_tokens,
}

module _ ⦃w : World⦄ {start : State} {user : String} where
  Keeps-compare :
      (repo : Repo) (base head : String)
      → Keeps (IsTrusted start user) (perform (compare_commits repo base head))
  Keeps-compare repo base head =
      Keeps-Allowed (compare_commits repo base head) (compares repo base head)

  Keeps-fetch :
      (repo : Repo) (path head : String)
      → Keeps (IsTrusted start user) (perform (get_contents repo path head))
  Keeps-fetch repo path head = Keeps-Allowed (get_contents repo path head) (fetches repo path head)

module _ ⦃w : World⦄ {start : State} (auth : AuthInfo) where
  Keeps-compare_github_vault :
      (hash : String) → Keeps (IsTrusted start auth.id) (compare_github_vault auth hash)
  Keeps-compare_github_vault = Reads.Keeps-compare_github_vault (record {
    compare = Keeps-compare;
    fetch = Keeps-fetch;
    get_policy = Keeps-get_policy auth;
    list_policies = Keeps-list_policies auth;
  })

  Keeps-verdict : (o : Option String) → Keeps (IsTrusted start auth.id) (answer_verdict o)
  Keeps-verdict none = Keeps-pure _
  Keeps-verdict (some text) = Keeps-leave _

  Keeps-load_request :
      (hash malformed outdated : String)
      → Keeps (IsTrusted start auth.id) (load_request auth hash malformed outdated)
  unfolding load_request
  Keeps-load_request hash malformed outdated =
      search (server_rules, Keeps-get_policy, Keeps-verdict) depth 14

  pub Keeps-view_by_change_id :
      (r : Request) (hash : String)
      → Keeps (IsTrusted start auth.id) (view_by_change_id r auth hash)
  unfolding view_by_change_id
  Keeps-view_by_change_id r hash =
      search (keeps_rules, Keeps-load_request, Keeps-send_csrf_token) depth 8

  pub Keeps-view_by_commit_hash :
      (r : Request) (hash : String)
      → Keeps (IsTrusted start auth.id) (view_by_commit_hash r auth hash)
  unfolding view_by_commit_hash
  Keeps-view_by_commit_hash r hash =
      search (server_rules, Keeps-compare_github_vault, Keeps-tokens_in, Keeps-send_csrf_token)
        depth 12

  pub Keeps-new_request :
      (policy rules : String) → Keeps (IsTrusted start auth.id) (new_request auth policy rules)
  unfolding new_request
  Keeps-new_request policy rules =
      search (server_rules, Keeps-get_policy, Keeps-lookup_self) depth 14

  pub Keeps-remove_request :
      (hash : String) → Keeps (IsTrusted start auth.id) (remove_request auth hash)
  unfolding remove_request
  Keeps-remove_request hash = search (server_rules, Keeps-get_policy) depth 14

  Keeps-earlier_tokens :
      (hash : String) (progress : ℕ)
      → Keeps (IsTrusted start auth.id) (earlier_tokens hash progress)
  unfolding earlier_tokens
  Keeps-earlier_tokens hash zero = Keeps-pure _
  Keeps-earlier_tokens hash (suc n) = search server_rules depth 9

  Keeps-apply_change :
      (r : Request) (hash : String) (request : PolicyRequest) (token : String)
      → IsRootToken token
      → Keeps (IsTrusted start auth.id) (apply_change r auth hash request token)
  unfolding apply_change
  Keeps-apply_change r hash request token t = Keeps-defer _ _ (Keeps-discard_request hash) (
      Keeps-defer _ _ (Keeps-revoke_self (root_auth token) t) (
        Keeps-bind _ _
          (Keeps-on_error _ _ (Keeps-put_policy (root_auth token) request.policy request.new t))
          λ _. search (keeps_rules, Keeps-get_policy, Keeps-send_csrf_token) depth 9))

  pub Keeps-attempt_change :
      (r : Request) (hash : String) (request : PolicyRequest) (tokens : List String)
      → Keeps (IsTrusted start auth.id) (attempt_change r auth hash request tokens)
  unfolding attempt_change
  Keeps-attempt_change r hash request tokens = Keeps-defer _ _ (Keeps-discard_tokens hash) (
      Keeps-bind _ _ (Keeps-unwrap_all tokens)
        λ unseals. Keeps-bind_generated _ unseals _ (Keeps-apply_change r hash request))

  Keeps-with_tokens :
      (r : Request) (hash : String) (request : PolicyRequest) (status : RootStatus)
      (tokens : List String)
      → Keeps (IsTrusted start auth.id) (with_tokens r auth hash request status tokens)
  unfolding with_tokens store_progress store_tokens
  Keeps-with_tokens r hash request status tokens =
      search (server_rules, Keeps-attempt_change) depth 12

  pub Keeps-update_by_change_id :
      (r : Request) (hash key : String)
      → Keeps (IsTrusted start auth.id) (update_by_change_id r auth hash key)
  unfolding update_by_change_id
  Keeps-update_by_change_id r hash key =
      search (server_rules, Keeps-load_request, Keeps-earlier_tokens, Keeps-with_tokens) depth 12

  pub Keeps-update_by_commit_hash :
      (r : Request) (hash key : String)
      → Keeps (IsTrusted start auth.id) (update_by_commit_hash r auth hash key)
  unfolding update_by_commit_hash
  Keeps-update_by_commit_hash r hash key =
      search (server_rules, Keeps-compare_github_vault, Keeps-tokens_in, Keeps-with_commit_tokens)
        depth 14
