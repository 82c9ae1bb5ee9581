-- ===== src/Handlers/Requests/Commit.antt =====
-- handlers/policy.go, `updatePolicyRequestByCommitHash`.
use goldfish.Prelude.{String, Option, none, some, List, [], ◌∷◌, ◌++◌, ltb, length, if◌then◌else◌}
use goldfish.Json.{Value, str, get, as_string}
use goldfish.Types.{AuthInfo, PolicyDiff}
use goldfish.World.{World, Request, Secret, RootStatus}
use goldfish.Exec.{Exec, pure, deref, on_error, defer, ◌>>=◌, ◌>>◌}
use goldfish.Vault.Auth.{revoke_self}
use goldfish.Vault.Policies.{put_policy}
use goldfish.Vault.Helper.{read_from_cubbyhole, wrap_data, generate_root_status}
use goldfish.Handlers.Responses.{
  Response, error_response, result_response, bad_request, internal_error,
}
use goldfish.Handlers.Session.{checked, send_csrf_token}
use goldfish.Handlers.Requests.Tokens.{decode_tokens, tokens_path, store_tokens, unwrap_all}
use goldfish.Handlers.Requests.Root.{root_auth, generate_root}
use goldfish.Handlers.Requests.Update.{progress_response, discard_tokens}
use goldfish.Handlers.Requests.Diffs.{compare_github_vault}

abbrev pub bad_comparison : String → Response
bad_comparison text = error_response bad_request text

abbrev pub undecodable : Response
undecodable =
    error_response internal_error "Could not decode root token. Please search and revoke manually"

-- `cubbyhole != nil && cubbyhole.Data != nil`, and the entry under the key
abbrev pub stored_tokens : Option Secret → Option Value
stored_tokens none = none
stored_tokens (some secret) = get secret.data_map "wrapping_tokens"

module _ ⦃w : World⦄ where
  unfoldable pub tokens_in : Option Value → Exec Response (List String)
  tokens_in none = pure []
  tokens_in (some v) = do text ← deref (as_string (some v)); pure (decode_tokens text)

  unfoldable pub put_all : AuthInfo → List PolicyDiff → Exec String Unit
  put_all root [] = pure tt
  put_all root (diff ∷ diffs) = do put_policy root diff.policy diff.new; put_all root diffs

  -- with the root token, which is revoked whatever happens
  unfoldable pub apply_changes : Request → List PolicyDiff → String → Exec Response Response
  apply_changes r changes token = defer (revoke_self (root_auth token)) (do
    checked (put_all (root_auth token) changes)
    send_csrf_token r
    pure (result_response (str "Complete")))

  unfoldable pub attempt_changes :
      Request → String → List PolicyDiff → List String → Exec Response Response
  attempt_changes r hash changes tokens = defer (discard_tokens hash) (do
    unseals ← unwrap_all tokens
    token ← generate_root undecodable unseals
    apply_changes r changes token)

  unfoldable pub keep_tokens : String → RootStatus → List String → Exec Response Response
  keep_tokens hash status tokens = do
    checked (store_tokens hash tokens)
    pure (progress_response (length tokens) status.required)

  unfoldable pub with_commit_tokens :
      Request → String → List PolicyDiff → RootStatus → List String → Exec Response Response
  with_commit_tokens r hash changes status tokens =
      if ltb (length tokens) status.required
      then keep_tokens hash status tokens
      else attempt_changes r hash changes tokens

  -- `updatePolicyRequestByCommitHash`
  unfoldable pub update_by_commit_hash :
      Request → AuthInfo → String → String → Exec Response Response
  update_by_commit_hash r auth hash unseal_key = do
    changes ← on_error bad_comparison (compare_github_vault auth hash)
    cubbyhole ← checked (read_from_cubbyhole (tokens_path hash))
    token ← checked (wrap_data "60m" (("unseal_token", str unseal_key) ∷ []))
    earlier ← tokens_in (stored_tokens cubbyhole)
    status ← checked generate_root_status
    with_commit_tokens r hash changes status (earlier ++ token ∷ [])
