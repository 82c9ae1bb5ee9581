-- ===== src/Handlers/Requests/Remove.antt =====
-- handlers/policy.go, `DeletePolicyRequest`.
use goldfish.Prelude.{String, ◌<>◌, some}
use goldfish.Json.{str, get, as_string}
use goldfish.Types.{AuthInfo}
use goldfish.World.{World, Request}
use goldfish.Exec.{Exec, pure, gets, deref, expect, ◌>>=◌, ◌>>◌}
use goldfish.Vault.Policies.{get_policy}
use goldfish.Vault.Helper.{read_from_cubbyhole, delete_from_cubbyhole}
use goldfish.Handlers.Responses.{Response, error_response, result_response, bad_request}
use goldfish.Handlers.Session.{enter, with_credentials, checked}
use goldfish.Handlers.Requests.Tokens.{requests_path}

module _ ⦃w : World⦄ where
  -- behind the session: the policy's name is read without a decoding of the request
  unfoldable pub remove_request : AuthInfo → String → Exec Response Response
  remove_request auth hash = do
    resp ← checked (read_from_cubbyhole (requests_path hash))
    secret ← expect resp (error_response bad_request "Change ID not found")
    entry ←
        expect (get secret.data_map "Policy")
          (error_response bad_request "Change appears to be malformed")
    policy ← deref (as_string (some entry))
    checked (get_policy auth policy)
    checked (delete_from_cubbyhole ("unseals/" <> hash))
    checked (delete_from_cubbyhole (requests_path hash))
    pure (result_response (str "Request deleted"))

  -- `DeletePolicyRequest`
  unfoldable pub delete_policy_request : Request → Exec Response Response
  delete_policy_request r =
      with_credentials (do enter r; auth ← gets (λ s. s.auth); remove_request auth (r.param "id"))
