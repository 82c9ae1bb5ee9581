-- ===== src/Handlers/Wrapping.antt =====
-- handlers/wrap.go
use goldfish.Prelude.{not, ◌==◌}
use goldfish.Json.{str}
use goldfish.World.{World, Request}
use goldfish.Exec.{Exec, pure, gets, require, ◌>>=◌, ◌>>◌}
use goldfish.Vault.Users.{from_map}
use goldfish.Vault.Wrap.{wrap_user_data, unwrap_user_data}
use goldfish.Handlers.Responses.{Response, error_response, result_response, bad_request}
use goldfish.Handlers.Session.{enter, with_credentials, checked}

module _ ⦃w : World⦄ where
  -- `WrapHandler`
  unfoldable pub wrap_handler : Request → Exec Response Response
  wrap_handler r = with_credentials (do
    enter r
    auth ← gets (λ s. s.auth)
    require (not (r.form "wrapttl" == "")) (error_response bad_request "wrapttl cannot be 0")
    token ← checked (wrap_user_data auth (r.form "wrapttl") (r.form "data"))
    pure (result_response (str token)))

  -- `UnwrapHandler`
  unfoldable pub unwrap_handler : Request → Exec Response Response
  unwrap_handler r = with_credentials (do
    enter r
    auth ← gets (λ s. s.auth)
    require (not (r.form "wrappingToken" == ""))
        (error_response bad_request "Wrapping token cannot be empty")
    found ← checked (unwrap_user_data auth (r.form "wrappingToken"))
    pure (result_response (from_map found)))
