-- ===== src/Handlers/Requests/Dispatch.antt =====
-- handlers/policy.go, `GetPolicyRequest` and `UpdatePolicyRequest`: the kinds of request.
use goldfish.Prelude.{String, not, ◌==◌, if◌then◌else◌}
use goldfish.Types.{AuthInfo}
use goldfish.World.{World, Request}
use goldfish.Exec.{Exec, leave, gets, require, ◌>>=◌, ◌>>◌}
use goldfish.Handlers.Responses.{Response, error_response, bad_request}
use goldfish.Handlers.Session.{enter, with_credentials}
use goldfish.Handlers.Requests.View.{view_by_change_id, view_by_commit_hash}
use goldfish.Handlers.Requests.Update.{update_by_change_id}
use goldfish.Handlers.Requests.Commit.{update_by_commit_hash}

-- a parameter that may not be empty
abbrev pub required_param : {A : Type 0} → String → Response → Exec Response A → Exec Response A
required_param value missing m = if value == "" then leave missing else m

module _ ⦃w : World⦄ where
  unfoldable pub view_request : Request → AuthInfo → Exec Response Response
  view_request r auth =
      if r.query "type" == "changeid"
      then required_param (r.query "id") (error_response bad_request "id param is required")
          (view_by_change_id r auth (r.query "id"))
      else if r.query "type" == "commit"
      then required_param (r.query "sha") (error_response bad_request "sha param is required")
          (view_by_commit_hash r auth (r.query "sha"))
      else leave (error_response bad_request "Type must be either changeid or commit")

  -- `GetPolicyRequest`
  unfoldable pub get_policy_request : Request → Exec Response Response
  get_policy_request r =
      with_credentials (do enter r; auth ← gets (λ s. s.auth); view_request r auth)

  unfoldable pub update_request : Request → AuthInfo → Exec Response Response
  update_request r auth =
      if r.query "type" == "changeid"
      then required_param (r.query "id") (error_response bad_request "id param required")
          (update_by_change_id r auth (r.query "id") (r.form "unseal"))
      else if r.query "type" == "commit"
      then required_param (r.query "sha") (error_response bad_request "sha param required")
          (update_by_commit_hash r auth (r.query "sha") (r.form "unseal"))
      else leave (error_response bad_request "type must be either changeid or commit")

  -- `UpdatePolicyRequest`
  unfoldable pub update_policy_request : Request → Exec Response Response
  update_policy_request r = with_credentials (do
    enter r
    auth ← gets (λ s. s.auth)
    require (not (r.form "unseal" == "")) (error_response bad_request "Unseal param required")
    update_request r auth)
