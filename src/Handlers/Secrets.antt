-- ===== src/Handlers/Secrets.antt =====
-- handlers/secret.go
use goldfish.Prelude.{String, Bool, [], ◌∷◌, not, ◌||◌, ◌==◌, pos, if◌then◌else◌}
use goldfish.Prelude.Text.{ends_in}
use goldfish.Json.{Value, str, arr, values}
use goldfish.Types.{AuthInfo, Config}
use goldfish.World.{World, Request}
use goldfish.Exec.{Exec, pure, gets, require, ◌>>=◌, ◌>>◌}
use goldfish.Vault.Auth.{get_config}
use goldfish.Vault.Secrets.{list_secret, read_secret, write_secret, delete_secret}
use goldfish.Vault.Users.{from_map}
use goldfish.Handlers.Responses.{Response, error_response, result_response, bad_request}
use goldfish.Handlers.Session.{enter, with_credentials, checked, send_csrf_token}

abbrev pub path_response : Value → String → Response
path_response result path = record {
  status = pos 200;
  body = ("result", result) ∷ ("path", str path) ∷ [];
}

-- `path == "" || path[len(path)-1:] == "/"`
abbrev pub is_directory : String → Bool
is_directory path = path == "" || ends_in b'/' path

-- the path that is asked for, or the one of the run-time settings
abbrev pub path_or_default : Config → String → String
path_or_default conf path = if path == "" then conf.default_secret_path else path

module _ ⦃w : World⦄ where
  -- a directory is listed, and all else is read
  unfoldable pub fetch : AuthInfo → String → Exec String Value
  fetch auth path =
      if is_directory path
      then (do result ← list_secret auth path; pure (arr (values result)))
      else (do result ← read_secret auth path; pure (from_map result))

  -- `GetSecrets`
  unfoldable pub get_secrets : Request → Exec Response Response
  get_secrets r = with_credentials (do
    enter r
    auth ← gets (λ s. s.auth)
    conf ← get_config
    let path = path_or_default conf (r.query "path")
    send_csrf_token r
    result ← checked (fetch auth path)
    pure (path_response result path))

  -- `PostSecrets`
  unfoldable pub post_secrets : Request → Exec Response Response
  post_secrets r = with_credentials (do
    enter r
    auth ← gets (λ s. s.auth)
    require (not (r.query "path" == "" || r.form "body" == ""))
        (error_response bad_request "Path and body must not be empty")
    require (not (ends_in b'/' (r.query "path")))
        (error_response bad_request "Path must not end in '/'")
    resp ← checked (write_secret auth (r.query "path") (r.form "body"))
    pure (result_response (w.secret_value resp)))

  -- `DeleteSecrets`
  unfoldable pub delete_secrets : Request → Exec Response Response
  delete_secrets r = with_credentials (do
    enter r
    auth ← gets (λ s. s.auth)
    checked (delete_secret auth (r.query "path"))
    pure (result_response (str "success")))
