-- ===== src/Server/Access.antt =====
-- server.go: requests without a session.
use goldfish.Prelude.{◌≡◌, Bool, true, false, ◌||◌, ◌==◌, none, some, [], arith, if◌then◌else◌}
use goldfish.Types.{AuthInfo}
use goldfish.World.{World, Request, Result, ok, err}
use goldfish.Exec.{State, exit, lift, on_error, require, modify, defer, ◌>>=◌}
use goldfish.Vault.Auth.{no_credentials, clear}
use goldfish.Handlers.Responses.{Response, error_response, bad_request}
use goldfish.Handlers.Session.{login_first, with_credentials}
use goldfish.Handlers.Session.Laws.{session, guarded_rejected, enter_rejected}
use goldfish.Handlers.Accounts
use goldfish.Handlers.Users
use goldfish.Handlers.Secrets
use goldfish.Handlers.Mounts
use goldfish.Handlers.Transit
use goldfish.Handlers.Wrapping
use goldfish.Handlers.Policies
use goldfish.Handlers.Requests.Add
use goldfish.Handlers.Requests.Remove
use goldfish.Handlers.Requests.Dispatch
use goldfish.Server.{Route, handle, serve}

-- The routes that work without a session.
abbrev pub is_public : Route → Bool
is_public Route.vault_health = true
is_public Route.fetch_csrf = true
is_public Route.login = true
is_public _ = false

-- a deletion is answered by what is wrong with its target, before its session is looked at
abbrev pub deletion_denied : Result AuthInfo → Response
deletion_denied (err _) = error_response bad_request "Invalid format for deletion target"
deletion_denied (ok target) =
    if target.type == "" || target.id == ""
    then error_response bad_request "Deletion target cannot be empty"
    else login_first

-- The answer to a request without a session.
abbrev pub denial : Route → Request → Response
denial Route.delete_user r = deletion_denied r.bind_auth
denial _ r = login_first

abbrev pub left : State → State
left s = record s { headers = []; auth = no_credentials }

module _ ⦃w : World⦄ where
  deletion_rejected :
      (r : Request) (s : State)
      → session r s.trace ≡ none
      → Users.delete_user r s
        ≡ (exit (deletion_denied r.bind_auth), record s { auth = no_credentials })
  unfolding Users.delete_user with_credentials defer modify ◌>>=◌ clear on_error lift require
  deletion_rejected r s h = ground (arith, enter_rejected r (record s { auth = no_credentials }) h)

  handle_rejected :
      (route : Route) (r : Request) (s : State)
      → is_public route ≡ false
      → session r s.trace ≡ none
      → handle route r s ≡ (exit (denial route r), record s { auth = no_credentials })
  unfolding handle Accounts.renew Accounts.bulletins Users.get_users Users.get_token_count
      Users.get_role Users.list_roles Users.create_user Policies.get_policy Policies.delete_policy
      Dispatch.get_policy_request Dispatch.update_policy_request Add.add_policy_request
      Remove.delete_policy_request Transit.transit_info Transit.encrypt_string
      Transit.decrypt_string Mounts.get_mounts Mounts.get_mount Mounts.config_mount
      Secrets.get_secrets Secrets.post_secrets Secrets.delete_secrets Wrapping.wrap_handler
      Wrapping.unwrap_handler
  handle_rejected Route.vault_health r s p h = cc
  handle_rejected Route.fetch_csrf r s p h = cc
  handle_rejected Route.login r s p h = cc
  handle_rejected Route.delete_user r s p h = deletion_rejected r s h
  handle_rejected _ r s p h = guarded_rejected r _ s h

  -- A request without a cookie that this server decodes at that time, to any route but those for the health of
  -- Vault, for a CSRF token and for logging in, is answered by 403 (a deletion of a user by 400 if
  -- its target is malformed or empty), and the handler does nothing: it makes no call to Vault,
  -- GitHub or Slack, sets no header, and leaves the variables of the server as they are.
  pub serve_rejected :
      (route : Route) (r : Request) (s : State)
      → is_public route ≡ false
      → session r s.trace ≡ none
      → serve route r s ≡ (some (denial route r), left s)
  unfolding serve
  serve_rejected route r s p h = rw (handle_rejected route r (record s { headers = [] }) p h)
