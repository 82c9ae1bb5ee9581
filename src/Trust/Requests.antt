-- ===== src/Trust/Requests.antt =====
-- handlers/policy.go: the handlers of requests, with the root tokens that they generate.
use goldfish.Prelude.{sym, String, Option, none, some, List, [], ◌∷◌}
use goldfish.Json.{Value, get, as_string}
use goldfish.Types.{AuthInfo, Config, PolicyRequest, PolicyDiff}
use goldfish.World.{World, Request, Call, RootStatus, http_post}
use goldfish.Exec.{State, Exec, perform, ◌>>=◌}
use goldfish.Exec.Keeps.{
  Keeps, Keeps-bind_Ensures, Keeps-defer, Keeps-require, Keeps-bind, Keeps-pure, Keeps-leave,
  Keeps-expect, Keeps-deref, Keeps-on_error, Keeps-modify, Keeps-try, keeps_rules,
}
use goldfish.Vault.Auth.{revoke_self, get_config}
use goldfish.Vault.Policies.{put_policy}
use goldfish.Slack.{post_message_webhook}
use goldfish.Handlers.Responses.{Response}
use goldfish.Handlers.Session.{send_csrf_token}
use goldfish.Handlers.Requests.Tokens.{store_tokens, timed_out, unwrap_all}
use goldfish.Handlers.Requests.Root.{
  root_auth, cancel_generation, next_status, feed, feed_if_needed, generate_root,
}
use goldfish.Handlers.Requests.Add.{posted, notify, submit}
use goldfish.Handlers.Requests.Update.{discard_request, discard_tokens}
use goldfish.Handlers.Requests.Commit.{
  tokens_in, put_all, apply_changes, attempt_changes, keep_tokens, with_commit_tokens,
}
use mathlib.Core.Path.{subst}
use goldfish.Trust.Root.{IsRootToken, Ensures-generate_root}
use goldfish.Trust.Calls.{
  IsTrusted, puts, revokes, posts, Keeps-Allowed, Keeps-as_root, Keeps-bind_root,
}
use goldfish.Trust.Server.{
  Keeps-generate_root_status, Keeps-generate_root_init, Keeps-generate_root_update,
  Keeps-generate_root_cancel, Keeps-read_from_cubbyhole, Keeps-write_to_cubbyhole,
  Keeps-delete_from_cubbyhole, Keeps-wrap_data, Keeps-unwrap_data,
}

pub ruleset server_rules = (
  keeps_rules, Keeps-generate_root_status, Keeps-generate_root_init, Keeps-generate_root_cancel,
  Keeps-read_from_cubbyhole, Keeps-write_to_cubbyhole, Keeps-delete_from_cubbyhole, Keeps-wrap_data,
)

module _ ⦃w : World⦄ {start : State} {user : String} where
  -- a response's header is no effect
  pub Keeps-send_csrf_token : (r : Request) → Keeps (IsTrusted start user) (send_csrf_token r)
  unfolding send_csrf_token
  Keeps-send_csrf_token r =
      Keeps-modify _ λ s h. record { same_server = h.same_server; allowed = h.allowed }

  pub Keeps-unwrap_all : (tokens : List String) → Keeps (IsTrusted start user) (unwrap_all tokens)
  unfolding unwrap_all
  Keeps-unwrap_all [] = Keeps-pure _
  Keeps-unwrap_all (token ∷ tokens) =
      Keeps-bind _ _ (Keeps-on_error _ _ (Keeps-unwrap_data token)) λ body.
        Keeps-bind _ _ (Keeps-expect (get body "unseal_token") timed_out) λ unseal.
          Keeps-bind _ _ (Keeps-deref (as_string (some unseal)))
            λ _. Keeps-bind _ _ (Keeps-unwrap_all tokens) (λ _. Keeps-pure _)

  Keeps-cancel_generation : {A : Type 0} → Keeps (IsTrusted start user) (cancel_generation {A = A})
  unfolding cancel_generation
  Keeps-cancel_generation =
      Keeps-bind _ _ (Keeps-on_error _ _ Keeps-generate_root_cancel) (λ _. Keeps-leave _)

  Keeps-next_status : (o : Option RootStatus) → Keeps (IsTrusted start user) (next_status o)
  Keeps-next_status none = Keeps-cancel_generation
  Keeps-next_status (some status) = Keeps-pure _

  Keeps-feed :
      (unseals : List String) (status : RootStatus)
      → Keeps (IsTrusted start user) (feed unseals status)
  unfolding feed
  Keeps-feed [] status = Keeps-pure _
  Keeps-feed (s ∷ unseals) status =
      Keeps-bind _ _ (Keeps-try _ (Keeps-generate_root_update s status.nonce))
        λ answer. Keeps-bind _ _ (Keeps-next_status answer) (λ next. Keeps-feed unseals next)

  Keeps-generate_root :
      (undecodable : Response) (unseals : List String)
      → Keeps (IsTrusted start user) (generate_root undecodable unseals)
  unfolding generate_root feed_if_needed
  Keeps-generate_root undecodable unseals = search (server_rules, Keeps-feed) depth 14

  -- with a root token
  pub Keeps-revoke_self :
      (root : AuthInfo) → IsRootToken root.id → Keeps (IsTrusted start user) (revoke_self root)
  unfolding revoke_self
  Keeps-revoke_self root t =
      Keeps-bind_root root _ t
        λ c h. Keeps-as_root c Call.revoke_self (subst IsRootToken (sym h) t) revokes

  pub Keeps-put_policy :
      (root : AuthInfo) (name rules : String)
      → IsRootToken root.id
      → Keeps (IsTrusted start user) (put_policy root name rules)
  unfolding put_policy
  Keeps-put_policy root name rules t = Keeps-bind_root root _ t λ c h.
      Keeps-bind _ _ (Keeps-require _ _) λ _.
        Keeps-as_root c (Call.put_policy name rules) (subst IsRootToken (sym h) t) (puts name rules)

  Keeps-put_all :
      (root : AuthInfo) (diffs : List PolicyDiff)
      → IsRootToken root.id
      → Keeps (IsTrusted start user) (put_all root diffs)
  unfolding put_all
  Keeps-put_all root [] t = Keeps-pure _
  Keeps-put_all root (diff ∷ diffs) t =
      Keeps-bind _ _ (Keeps-put_policy root diff.policy diff.new t)
        (λ _. Keeps-put_all root diffs t)

  -- what the two updates share
  pub Keeps-discard_tokens : (hash : String) → Keeps (IsTrusted start user) (discard_tokens hash)
  unfolding discard_tokens
  Keeps-discard_tokens hash = search server_rules

  pub Keeps-discard_request : (hash : String) → Keeps (IsTrusted start user) (discard_request hash)
  unfolding discard_request
  Keeps-discard_request hash = search server_rules

  pub Keeps-tokens_in : (v : Option Value) → Keeps (IsTrusted start user) (tokens_in v)
  unfolding tokens_in
  Keeps-tokens_in none = Keeps-pure _
  Keeps-tokens_in (some v) = search keeps_rules

  Keeps-apply_changes :
      (r : Request) (changes : List PolicyDiff) (token : String)
      → IsRootToken token
      → Keeps (IsTrusted start user) (apply_changes r changes token)
  unfolding apply_changes
  Keeps-apply_changes r changes token t = Keeps-defer _ _ (Keeps-revoke_self (root_auth token) t) (
      Keeps-bind _ _ (Keeps-on_error _ _ (Keeps-put_all (root_auth token) changes t))
        λ _. search (keeps_rules, Keeps-send_csrf_token) depth 6)

  -- What follows the generation of a root token has a root token.
  pub Keeps-bind_generated :
      {A : Type 0} (undecodable : Response) (unseals : List String) (f : String → Exec Response A)
      → ((token : String) → IsRootToken token → Keeps (IsTrusted start user) (f token))
      → Keeps (IsTrusted start user) (generate_root undecodable unseals >>= f)
  Keeps-bind_generated undecodable unseals f k =
      Keeps-bind_Ensures IsRootToken _ f (Keeps-generate_root undecodable unseals)
        (Ensures-generate_root undecodable unseals) k

  pub Keeps-attempt_changes :
      (r : Request) (hash : String) (changes : List PolicyDiff) (tokens : List String)
      → Keeps (IsTrusted start user) (attempt_changes r hash changes tokens)
  unfolding attempt_changes
  Keeps-attempt_changes r hash changes tokens = Keeps-defer _ _ (Keeps-discard_tokens hash) (
      Keeps-bind _ _ (Keeps-unwrap_all tokens)
        λ unseals. Keeps-bind_generated _ unseals _ (Keeps-apply_changes r changes))

  pub Keeps-with_commit_tokens :
      (r : Request) (hash : String) (changes : List PolicyDiff) (status : RootStatus)
      (tokens : List String)
      → Keeps (IsTrusted start user) (with_commit_tokens r hash changes status tokens)
  unfolding with_commit_tokens keep_tokens store_tokens
  Keeps-with_commit_tokens r hash changes status tokens =
      search (server_rules, Keeps-attempt_changes) depth 10

  -- Slack and GitHub
  Keeps-post :
      (url type body : String) → Keeps (IsTrusted start user) (perform (http_post url type body))
  Keeps-post url type body = Keeps-Allowed (http_post url type body) (posts url type body)

  Keeps-post_message_webhook :
      (channel main attachment webhook : String)
      → Keeps (IsTrusted start user) (post_message_webhook channel main attachment webhook)
  unfolding post_message_webhook
  Keeps-post_message_webhook channel main attachment webhook =
      search (keeps_rules, Keeps-post) depth 10

  Keeps-notify : (conf : Config) (hash : String) → Keeps (IsTrusted start user) (notify conf hash)
  unfolding notify
  Keeps-notify conf hash = search (keeps_rules, Keeps-posted, Keeps-post_message_webhook) depth 10
    where
      Keeps-posted : (o : Option (Unit {0})) → Keeps (IsTrusted start user) (posted hash o)
      Keeps-posted none = Keeps-pure _
      Keeps-posted (some _) = Keeps-pure _

  pub Keeps-submit : (request : PolicyRequest) → Keeps (IsTrusted start user) (submit request)
  unfolding submit get_config
  Keeps-submit request = search (server_rules, Keeps-notify) depth 10
