-- ===== src/Server.antt =====
-- server.go: the table of routes, and the handling of one request.
pub mod Access
pub mod Cleared
pub mod Launch
pub mod Run
use goldfish.Prelude.{String, Option, none, some, List, [], ◌∷◌}
use goldfish.World.{World, Request}
use goldfish.Exec.{State, Flow, done, exit, panic, Exec}
use goldfish.Handlers.Responses.{Response}
use goldfish.Handlers.Accounts
use goldfish.Handlers.Users
use goldfish.Handlers.Secrets
use goldfish.Handlers.Mounts
use goldfish.Handlers.Transit
use goldfish.Handlers.Wrapping
use goldfish.Handlers.Policies
use goldfish.Handlers.Requests.Add
use goldfish.Handlers.Requests.Remove
use goldfish.Handlers.Requests.Dispatch

-- The routes, by their handlers.
pub data Route : Type 0 where
  vault_health fetch_csrf login renew_self : Route
  get_users get_token_count get_role list_roles delete_user create_user : Route
  get_policy delete_policy : Route
  get_policy_request add_policy_request update_policy_request delete_policy_request : Route
  transit_info encrypt_string decrypt_string : Route
  get_mounts get_mount config_mount : Route
  get_secrets post_secrets delete_secrets : Route
  get_bulletins wrap_handler unwrap_handler : Route

pub data Method : Type 0 where
  get post delete : Method

-- The API routing of `main`.
abbrev pub routes : List (Method × String × Route)
routes =
    (get, "/api/health", vault_health)
    ∷ (get, "/api/login/csrf", fetch_csrf)
    ∷ (post, "/api/login", login)
    ∷ (post, "/api/login/renew-self", renew_self)
    ∷ (get, "/api/users", get_users)
    ∷ (get, "/api/users/csrf", fetch_csrf)
    ∷ (get, "/api/tokencount", get_token_count)
    ∷ (get, "/api/users/role", get_role)
    ∷ (get, "/api/users/listroles", list_roles)
    ∷ (post, "/api/users/revoke", delete_user)
    ∷ (post, "/api/users/create", create_user)
    ∷ (get, "/api/policy", get_policy)
    ∷ (delete, "/api/policy", delete_policy)
    ∷ (get, "/api/policy/request", get_policy_request)
    ∷ (post, "/api/policy/request", add_policy_request)
    ∷ (post, "/api/policy/request/update", update_policy_request)
    ∷ (delete, "/api/policy/request/:id", delete_policy_request)
    ∷ (get, "/api/transit", transit_info)
    ∷ (post, "/api/transit/encrypt", encrypt_string)
    ∷ (post, "/api/transit/decrypt", decrypt_string)
    ∷ (get, "/api/mounts", get_mounts)
    ∷ (get, "/api/mounts/:mountname", get_mount)
    ∷ (post, "/api/mounts/:mountname", config_mount)
    ∷ (get, "/api/secrets", get_secrets)
    ∷ (post, "/api/secrets", post_secrets)
    ∷ (delete, "/api/secrets", delete_secrets)
    ∷ (get, "/api/bulletins", get_bulletins)
    ∷ (get, "/api/wrapping", fetch_csrf)
    ∷ (post, "/api/wrapping/wrap", wrap_handler)
    ∷ (post, "/api/wrapping/unwrap", unwrap_handler)
    ∷ []

module _ ⦃w : World⦄ where
  unfoldable pub handle : Route → Request → Exec Response Response
  handle vault_health r = Accounts.health r
  handle fetch_csrf r = Accounts.fetch_csrf r
  handle login r = Accounts.log_in r
  handle renew_self r = Accounts.renew r
  handle get_users r = Users.get_users r
  handle get_token_count r = Users.get_token_count r
  handle get_role r = Users.get_role r
  handle list_roles r = Users.list_roles r
  handle delete_user r = Users.delete_user r
  handle create_user r = Users.create_user r
  handle get_policy r = Policies.get_policy r
  handle delete_policy r = Policies.delete_policy r
  handle get_policy_request r = Dispatch.get_policy_request r
  handle add_policy_request r = Add.add_policy_request r
  handle update_policy_request r = Dispatch.update_policy_request r
  handle delete_policy_request r = Remove.delete_policy_request r
  handle transit_info r = Transit.transit_info r
  handle encrypt_string r = Transit.encrypt_string r
  handle decrypt_string r = Transit.decrypt_string r
  handle get_mounts r = Mounts.get_mounts r
  handle get_mount r = Mounts.get_mount r
  handle config_mount r = Mounts.config_mount r
  handle get_secrets r = Secrets.get_secrets r
  handle post_secrets r = Secrets.post_secrets r
  handle delete_secrets r = Secrets.delete_secrets r
  handle get_bulletins r = Accounts.bulletins r
  handle wrap_handler r = Wrapping.wrap_handler r
  handle unwrap_handler r = Wrapping.unwrap_handler r

  -- The response of a handler; `none` is a panic, which the middleware answers.
  abbrev pub response : Flow Response Response → Option Response
  response (done a) = some a
  response (exit a) = some a
  response panic = none

  -- One request: the headers of its response are its own.
  unfoldable pub serve : Route → Request → State → Option Response × State
  serve route r s = let (f, s') = handle route r (record s { headers = [] }) in (response f, s')
