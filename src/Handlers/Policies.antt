-- ===== src/Handlers/Policies.antt =====
-- handlers/policy.go, `GetPolicy` and `DeletePolicy`.
use goldfish.Prelude.{String, ◌==◌, map, if◌then◌else◌}
use goldfish.Json.{Value, str, arr, values}
use goldfish.Types.{AuthInfo}
use goldfish.World.{World, Request}
use goldfish.Exec.{Exec, pure, gets, ◌>>=◌, ◌>>◌}
use goldfish.Vault.Policies
use goldfish.Handlers.Responses.{Response, result_response}
use goldfish.Handlers.Session.{enter, with_credentials, checked, send_csrf_token}

module _ ⦃w : World⦄ where
  -- all names for the empty name, and the rules of one policy otherwise
  unfoldable pub fetch_policy : AuthInfo → String → Exec String Value
  fetch_policy auth policy =
      if policy == ""
      then (do names ← Policies.list_policies auth; pure (arr (values (map str names))))
      else (do rules ← Policies.get_policy auth policy; pure (str rules))

  -- `GetPolicy`
  unfoldable pub get_policy : Request → Exec Response Response
  get_policy r = with_credentials (do
    enter r
    auth ← gets (λ s. s.auth)
    result ← checked (fetch_policy auth (r.query "policy"))
    send_csrf_token r
    pure (result_response result))

  -- `DeletePolicy`
  unfoldable pub delete_policy : Request → Exec Response Response
  delete_policy r = with_credentials (do
    enter r
    auth ← gets (λ s. s.auth)
    checked (Policies.delete_policy auth (r.query "policy"))
    pure (result_response (str "Policy deleted")))
