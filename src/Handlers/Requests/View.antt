-- ===== src/Handlers/Requests/View.antt =====
-- handlers/policy.go, `getPolicyRequestByChangeID` and `getPolicyRequestByCommitHash`.
use goldfish.Prelude.{ℕ, String, [], ◌∷◌, map, length, pos}
use goldfish.Json.{Value, str, num, arr, values, object}
use goldfish.Types.{AuthInfo, PolicyRequest, PolicyDiff}
use goldfish.World.{World, Request}
use goldfish.Exec.{Exec, pure, on_error, ◌>>=◌, ◌>>◌}
use goldfish.Vault.Helper.{read_from_cubbyhole, generate_root_status}
use goldfish.Handlers.Responses.{Response}
use goldfish.Handlers.Session.{checked, send_csrf_token}
use goldfish.Handlers.Requests.Tokens.{tokens_path}
use goldfish.Handlers.Requests.Verify.{load_request}
use goldfish.Handlers.Requests.Diffs.{compare_github_vault}
use goldfish.Handlers.Requests.Commit.{bad_comparison, stored_tokens, tokens_in}

-- how encoding/json shows the two structs
abbrev pub request_value : PolicyRequest → Value
request_value q = object (
    ("Policy", str q.policy)
    ∷ ("Current", str q.current)
    ∷ ("New", str q.new)
    ∷ ("Requester", str q.requester)
    ∷ ("RequesterHash", str q.requester_hash)
    ∷ ("Required", num (pos q.required))
    ∷ ("Progress", num (pos q.progress))
    ∷ [])

abbrev pub diff_value : PolicyDiff → Value
diff_value d =
    object (("Policy", str d.policy) ∷ ("Current", str d.current) ∷ ("New", str d.new) ∷ [])

abbrev pub request_response : Value → ℕ → ℕ → Response
request_response result progress required = record {
  status = pos 200;
  body =
      ("result", result) ∷ ("progress", num (pos progress)) ∷ ("required", num (pos required)) ∷ [];
}

module _ ⦃w : World⦄ where
  -- `getPolicyRequestByChangeID`
  unfoldable pub view_by_change_id : Request → AuthInfo → String → Exec Response Response
  view_by_change_id r auth hash = do
    (request, status) ←
        load_request auth hash "Request appears to be malformed"
          "Request outdated due to vault rekey"
    send_csrf_token r
    pure (request_response (request_value request) request.progress request.required)

  -- `getPolicyRequestByCommitHash`
  unfoldable pub view_by_commit_hash : Request → AuthInfo → String → Exec Response Response
  view_by_commit_hash r auth hash = do
    changes ← on_error bad_comparison (compare_github_vault auth hash)
    status ← checked generate_root_status
    cubbyhole ← checked (read_from_cubbyhole (tokens_path hash))
    tokens ← tokens_in (stored_tokens cubbyhole)
    send_csrf_token r
    pure (request_response (arr (values (map diff_value changes))) (length tokens) status.required)
