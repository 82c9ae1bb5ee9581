-- ===== src/Handlers/Requests/Add.antt =====
-- handlers/policy.go, `AddPolicyRequest`.
pub mod Laws
use goldfish.Prelude.{String, ◌<>◌, Option, none, some, [], ◌∷◌, not, ◌==◌, pos, if◌then◌else◌}
use goldfish.Prelude.Text.{format_hex}
use goldfish.Json.{str, get, as_string}
use goldfish.Types.{AuthInfo, Config, PolicyRequest}
use goldfish.World.{World, Request}
use goldfish.Exec.{Exec, pure, gets, expect, require, lift, on_error, try, ◌>>=◌, ◌>>◌}
use goldfish.Slack.{post_message_webhook}
use goldfish.Vault.Auth.{get_config}
use goldfish.Vault.Login.{lookup_self}
use goldfish.Vault.Policies.{get_policy}
use goldfish.Vault.Helper.{generate_root_status, write_to_cubbyhole}
use goldfish.Handlers.Responses.{Response, error_response, bad_request, internal_error}
use goldfish.Handlers.Session.{enter, with_credentials, checked}
use goldfish.Handlers.Requests.Tokens.{requests_path}

-- the answer with the hash, and a text about Slack
abbrev pub submitted : String → String → Response
submitted hash error = record {
  status = pos 200;
  body = ("result", str hash) ∷ ("error", str error) ∷ [];
}

abbrev pub slack_failed : String
slack_failed = "Could not send to slack webhook"

module _ ⦃w : World⦄ where
  abbrev pub posted : String → Option (Unit {0}) → Exec Response Response
  posted hash none = pure (submitted hash slack_failed)
  posted hash (some _) = pure (submitted hash "")

  -- The message to Slack, if a webhook is configured. A failure changes only the answer.
  unfoldable pub notify : Config → String → Exec Response Response
  unfolding pure
  notify conf hash = if conf.slack_webhook == "" then pure (submitted hash "") else (do
    sent ← try (
        post_message_webhook conf.slack_channel "A new policy change request has been submitted"
          ("Change ID: \n*" <> hash <> "*") conf.slack_webhook)
    posted hash sent)

  -- The request that the user asks for, if the user may read the policy and it would change.
  unfoldable pub new_request : AuthInfo → String → String → Exec Response PolicyRequest
  new_request auth policy rules = do
    current ← checked (get_policy auth policy)
    on_error (λ _. error_response bad_request "Policy must be HCL formatted")
        (lift (w.parse_hcl rules))
    require (not (current == rules))
        (error_response bad_request "Policy request is identical to current")
    self ← checked (lookup_self auth)
    status ← checked generate_root_status
    requester ←
        expect (as_string (get self.data_map "display_name"))
          (error_response internal_error "Could not parse requester display name")
    accessor ←
        expect (as_string (get self.data_map "accessor"))
          (error_response internal_error "Could not hash requester token accessor")
    pure (record {
      policy = policy;
      current = current;
      new = rules;
      requester = requester;
      requester_hash = w.sha256_hex accessor;
      required = status.required;
      progress = 0;
    })

  -- store the request under its hash
  unfoldable pub submit : PolicyRequest → Exec Response Response
  submit request = do
    h ←
        on_error (λ _. error_response internal_error "Could not hash request")
          (lift (w.hash_request request))
    checked (write_to_cubbyhole (requests_path (format_hex h)) (w.map_request request))
    conf ← get_config
    notify conf (format_hex h)

  -- `AddPolicyRequest`
  unfoldable pub add_policy_request : Request → Exec Response Response
  add_policy_request r = with_credentials (do
    enter r
    auth ← gets (λ s. s.auth)
    request ← new_request auth (r.query "policy") (r.form "rules")
    submit request)
