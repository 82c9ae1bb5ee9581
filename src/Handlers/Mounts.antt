-- ===== src/Handlers/Mounts.antt =====
-- handlers/mount.go
use goldfish.Json.{str}
use goldfish.World.{World, Request}
use goldfish.Exec.{Exec, pure, gets, deref, lift, on_error, ◌>>=◌, ◌>>◌}
use goldfish.Vault.Mounts
use goldfish.Handlers.Responses.{Response, error_response, result_response, bad_request}
use goldfish.Handlers.Session.{enter, with_credentials, checked, send_csrf_token}

module _ ⦃w : World⦄ where
  -- `GetMounts`
  unfoldable pub get_mounts : Request → Exec Response Response
  get_mounts r = with_credentials (do
    enter r
    auth ← gets (λ s. s.auth)
    found ← checked (Mounts.list_mounts auth)
    send_csrf_token r
    pure (result_response found))

  -- `GetMount`
  unfoldable pub get_mount : Request → Exec Response Response
  get_mount r = with_credentials (do
    enter r
    auth ← gets (λ s. s.auth)
    result ← checked (Mounts.get_mount auth (r.param "mountname"))
    pure (result_response result))

  -- `ConfigMount`. A body that decodes to the nil pointer is not tested for.
  unfoldable pub config_mount : Request → Exec Response Response
  config_mount r = with_credentials (do
    enter r
    auth ← gets (λ s. s.auth)
    bound ← on_error (λ _. error_response bad_request "Invalid config format") (lift r.bind_mount)
    config ← deref bound
    checked (Mounts.tune_mount auth (r.param "mountname") config)
    pure (result_response (str "ok")))
