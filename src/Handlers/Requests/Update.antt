-- ===== src/Handlers/Requests/Update.antt =====
-- handlers/policy.go, `UpdatePolicyRequest` and `updatePolicyRequestByChangeID`.
use goldfish.Prelude.{ℕ, zero, suc, String, List, [], ◌∷◌, ◌++◌, ltb, length, pos, if◌then◌else◌}
use goldfish.Json.{str, num, get, as_string}
use goldfish.Types.{AuthInfo, PolicyRequest}
use goldfish.World.{World, Request, RootStatus}
use goldfish.Exec.{Exec, pure, deref, defer, ◌>>=◌, ◌>>◌}
use goldfish.Vault.Auth.{revoke_self}
use goldfish.Vault.Policies.{get_policy, put_policy}
use goldfish.Vault.Helper.{
  read_from_cubbyhole, write_to_cubbyhole, delete_from_cubbyhole, wrap_data,
}
use goldfish.Handlers.Responses.{Response, error_response, result_response, bad_request}
use goldfish.Handlers.Session.{checked, send_csrf_token}
use goldfish.Handlers.Requests.Tokens.{
  decode_tokens, requests_path, tokens_path, store_tokens, unwrap_all,
}
use goldfish.Handlers.Requests.Verify.{load_request}
use goldfish.Handlers.Requests.Root.{root_auth, generate_root}

abbrev pub progress_response : ℕ → ℕ → Response
progress_response progress required = record {
  status = pos 200;
  body = ("progress", num (pos progress)) ∷ ("required", num (pos required)) ∷ [];
}

abbrev pub undecodable : Response
undecodable =
    error_response bad_request "Could not decode root token. Please search and revoke it manually"

module _ ⦃w : World⦄ where
  -- The tokens that were entered before, of which there are some if progress was made. Neither a
  -- secret that is missing nor a value that is no text is tested for.
  unfoldable pub earlier_tokens : String → ℕ → Exec Response (List String)
  earlier_tokens hash zero = pure []
  earlier_tokens hash (suc _) = do
    resp ← checked (read_from_cubbyhole (tokens_path hash))
    secret ← deref resp
    text ← deref (as_string (get secret.data_map "wrapping_tokens"))
    pure (decode_tokens text)

  -- not enough keys yet: store the tokens and the progress
  unfoldable pub store_progress :
      String → PolicyRequest → RootStatus → List String → Exec Response Response
  store_progress hash request status tokens = do
    checked (store_tokens hash tokens)
    checked (
        write_to_cubbyhole (requests_path hash)
          (w.map_request (record request { progress = length tokens })))
    pure (progress_response (length tokens) status.required)

  unfoldable pub discard_request : String → Exec String Unit
  discard_request hash = do delete_from_cubbyhole (requests_path hash); pure tt

  unfoldable pub discard_tokens : String → Exec String Unit
  discard_tokens hash = do delete_from_cubbyhole (tokens_path hash); pure tt

  -- With the root token: both deferred calls run whatever happens to the change.
  unfoldable pub apply_change :
      Request → AuthInfo → String → PolicyRequest → String → Exec Response Response
  apply_change r auth hash request token = defer (discard_request hash) (
      defer (revoke_self (root_auth token)) (do
        checked (put_policy (root_auth token) request.policy request.new)
        policy_now ← checked (get_policy auth request.policy)
        send_csrf_token r
        pure (result_response (str policy_now))))

  -- enough keys: generate a root token and use it. The tokens go whatever happens.
  unfoldable pub attempt_change :
      Request → AuthInfo → String → PolicyRequest → List String → Exec Response Response
  attempt_change r auth hash request tokens = defer (discard_tokens hash) (do
    unseals ← unwrap_all tokens
    token ← generate_root undecodable unseals
    apply_change r auth hash request token)

  unfoldable pub with_tokens :
      Request
      → AuthInfo
      → String
      → PolicyRequest
      → RootStatus
      → List String
      → Exec Response Response
  with_tokens r auth hash request status tokens =
      if ltb (length tokens) request.required
      then store_progress hash request status tokens
      else attempt_change r auth hash request tokens

  -- `updatePolicyRequestByChangeID`
  unfoldable pub update_by_change_id : Request → AuthInfo → String → String → Exec Response Response
  update_by_change_id r auth hash unseal_key = do
    (request, status) ←
        load_request auth hash "Change appears to be malformed" "Request outdated by vault rekey"
    earlier ← earlier_tokens hash request.progress
    token ← checked (wrap_data "60m" (("unseal_token", str unseal_key) ∷ []))
    with_tokens r auth hash request status (earlier ++ token ∷ [])
