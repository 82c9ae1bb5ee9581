-- ===== src/Server/Cleared.antt =====
-- What is left of the credentials when a route of server.go has answered.
use goldfish.Prelude.{◌≡◌, Bool, true, false, []}
use goldfish.World.{World, Request}
use goldfish.Exec.{State}
use goldfish.Vault.Auth.{no_credentials}
use goldfish.Handlers.Session.Laws.{with_credentials-clears}
use goldfish.Handlers.Accounts
use goldfish.Handlers.Users
use goldfish.Handlers.Secrets
use goldfish.Handlers.Mounts
use goldfish.Handlers.Transit
use goldfish.Handlers.Wrapping
use goldfish.Handlers.Policies
use goldfish.Handlers.Requests.Add
use goldfish.Handlers.Requests.Remove
use goldfish.Handlers.Requests.Dispatch
use goldfish.Server.{Route, handle, serve}

-- The handlers that have a variable for credentials.
abbrev pub has_credentials : Route → Bool
has_credentials Route.vault_health = false
has_credentials Route.fetch_csrf = false
has_credentials _ = true

module _ ⦃w : World⦄ where
  -- For every route but those for the health of Vault and for a CSRF token, every request and every
  -- behaviour of the outside: when the handler is over, with an answer, an error or a panic, its
  -- variable for credentials holds the empty kind, the empty token and the empty password.
  pub serve-clears :
      (route : Route) (r : Request) (s : State)
      → has_credentials route ≡ true
      → (serve route r s).1.auth ≡ no_credentials
  unfolding serve handle Accounts.log_in Accounts.renew Accounts.bulletins Users.get_users
      Users.get_token_count Users.get_role Users.list_roles Users.create_user Users.delete_user
      Policies.get_policy Policies.delete_policy Dispatch.get_policy_request
      Dispatch.update_policy_request Add.add_policy_request Remove.delete_policy_request
      Transit.transit_info Transit.encrypt_string Transit.decrypt_string Mounts.get_mounts
      Mounts.get_mount Mounts.config_mount Secrets.get_secrets Secrets.post_secrets
      Secrets.delete_secrets Wrapping.wrap_handler Wrapping.unwrap_handler
  serve-clears Route.vault_health r s h = cc
  serve-clears Route.fetch_csrf r s h = cc
  serve-clears _ r s h = with_credentials-clears _ (record s { headers = [] })
