-- ===== src/Handlers/Requests/Verify.antt =====
-- handlers/policy.go, `verifyRequest`, and the tests that come before a request is shown or
-- updated.
pub mod Laws
pub mod Ids
use goldfish.Prelude.{
  ℕ, String, Bool, true, false, not, Option, none, some, ◌==◌, nat_eq, if◌then◌else◌,
}
use goldfish.Prelude.Text.{format_hex}
use goldfish.Types.{AuthInfo, PolicyRequest}
use goldfish.World.{World, Result, ok, err, RootStatus}
use goldfish.Exec.{Exec, pure, leave, expect, require, lift, on_error, ◌>>=◌, ◌>>◌}
use goldfish.Vault.Policies.{get_policy}
use goldfish.Vault.Helper.{read_from_cubbyhole, generate_root_status}
use goldfish.Handlers.Responses.{Response, error_response, bad_request, internal_error}
use goldfish.Handlers.Session.{checked}
use goldfish.Handlers.Requests.Tokens.{requests_path}

abbrev pub is_ok : {A : Type 0} → Result A → Bool
is_ok (ok _) = true
is_ok (err _) = false

module _ ⦃w : World⦄ where
  abbrev pub hash_matches : Result ℕ → String → Bool
  hash_matches (ok h) hash = format_hex h == hash
  hash_matches (err _) hash = false

  -- `verifyRequest`: its error, if there is one; the status beside an error is always 400
  unfoldable pub verify_request : PolicyRequest → String → String → Option String
  verify_request request hash policy_current =
      if not (hash_matches (w.hash_request request) hash)
      then some "Hashes do not match"
      else if not (policy_current == request.current)
      then some "Policy has been changed since request was made"
      else if not (is_ok (w.parse_hcl request.new))
      then some "Policy details cannot be parsed as HCL"
      else if policy_current == request.new
      then some "Policy details already match proposed change"
      else none

  abbrev pub answer_verdict : Option String → Exec Response Unit
  answer_verdict none = pure tt
  answer_verdict (some text) = leave (error_response bad_request text)

  -- The request with this hash, if it may be shown to the user and is still valid. The texts are
  -- those for a malformed and for an outdated request, which differ between the two callers.
  unfoldable pub load_request :
      AuthInfo → String → String → String → Exec Response (PolicyRequest × RootStatus)
  unfolding pure leave
  load_request auth hash malformed outdated = do
    resp ← checked (read_from_cubbyhole (requests_path hash))
    secret ← expect resp (error_response bad_request "Change ID not found")
    request ←
        on_error (λ _. error_response internal_error malformed)
          (lift (w.decode_request secret.data_map))
    policy_current ← checked (get_policy auth request.policy)
    answer_verdict (verify_request request hash policy_current)
    status ← checked generate_root_status
    require (nat_eq request.required status.required) (error_response bad_request outdated)
    pure (request, status)
