-- ===== src/Handlers/Users.antt =====
-- handlers/user.go
use goldfish.Prelude.{
  String, Bool, false, Option, some, List, [], ◌∷◌, ◌++◌, not, ◌||◌, ◌==◌, map, ℤ, pos,
  if◌then◌else◌,
}
use goldfish.Prelude.Text.{atoi}
use goldfish.Json.{Value, str, num, flag, arr, values, object}
use goldfish.Types.{AuthInfo, User, Role}
use goldfish.World.{World, Request, Secret}
use goldfish.Exec.{Exec, pure, leave, gets, expect, require, lift, on_error, ◌>>=◌, ◌>>◌}
use goldfish.Vault.Auth.{capabilities_self}
use goldfish.Vault.Users
use goldfish.Vault.Users.{Listing, tokens, users, roles, from_map, list_users, create_token}
use goldfish.Handlers.Responses.{Response, error_response, result_response, bad_request, forbidden}
use goldfish.Handlers.Session.{enter, with_credentials, checked, send_csrf_token}

-- how encoding/json shows a listing
abbrev pub user_value : User → Value
user_value u = object (
    ("Name", str u.name)
    ∷ ("TTL", num u.ttl)
    ∷ ("Max_TTL", num u.max_ttl)
    ∷ ("Policies", str u.policies)
    ∷ [])

abbrev pub role_value : Role → Value
role_value q = object (
    ("Roleid", str q.roleid)
    ∷ ("Token_TTL", num q.token_ttl)
    ∷ ("Token_max_TTL", num q.token_max_ttl)
    ∷ ("Secret_id_TTL", num q.secret_id_ttl)
    ∷ ("Secret_id_num_uses", num q.secret_id_num_uses)
    ∷ ("Policies", arr (values (map str q.policies)))
    ∷ ("Period", num q.period)
    ∷ ("Bind_secret_id", flag q.bind_secret_id)
    ∷ ("Bound_cidr_list", str q.bound_cidr_list)
    ∷ [])

abbrev pub listing_value : Listing → Value
listing_value (tokens vs) = arr (values vs)
listing_value (users us) = arr (values (map user_value us))
listing_value (roles qs) = arr (values (map role_value qs))

-- the offset that is asked for: 0 if none is, `none` if it is no integer
abbrev pub offset_of : String → Option ℤ
offset_of text = if text == "" then some (pos 0) else atoi text

-- whether the loop over the capabilities comes to the listing
unfoldable pub may_list : List String → Bool
may_list [] = false
may_list (capability ∷ rest) = capability == "list" || capability == "root" || may_list rest

module _ ⦃w : World⦄ where
  -- `GetUsers`
  unfoldable pub get_users : Request → Exec Response Response
  get_users r = with_credentials (do
    enter r
    auth ← gets (λ s. s.auth)
    offset ←
        expect (offset_of (r.query "offset"))
          (error_response bad_request "Offset is not an integer")
    result ← checked (list_users auth (r.query "type") offset)
    send_csrf_token r
    pure (result_response (listing_value result)))

  -- `GetTokenCount`
  unfoldable pub get_token_count : Request → Exec Response Response
  get_token_count r = with_credentials (do
    enter r
    auth ← gets (λ s. s.auth)
    count ← checked (Users.get_token_count auth)
    send_csrf_token r
    pure (result_response (num (pos count))))

  -- `DeleteUser`: the target is tested before the session
  unfoldable pub delete_user : Request → Exec Response Response
  delete_user r = with_credentials (do
    target ←
        on_error (λ _. error_response bad_request "Invalid format for deletion target")
          (lift r.bind_auth)
    require (not (target.type == "" || target.id == ""))
        (error_response bad_request "Deletion target cannot be empty")
    enter r
    auth ← gets (λ s. s.auth)
    checked (Users.delete_user auth target.type target.id)
    pure (result_response (str "User deleted successfully")))

  -- the switch of `CreateUser`
  unfoldable pub create_by_type : Request → AuthInfo → Exec Response Secret
  create_by_type r auth =
      if r.query "type" == ""
      then leave (error_response bad_request "User creation type cannot be empty")
      else if r.query "type" == "token"
      then (do
        request ←
            on_error (λ _. error_response bad_request "Invalid token creation format")
              (lift r.bind_token)
        checked (create_token auth request (r.query "wrap-ttl")))
      else leave (error_response bad_request "User creation type not supported")

  -- `CreateUser`
  unfoldable pub create_user : Request → Exec Response Response
  create_user r = with_credentials (do
    enter r
    auth ← gets (λ s. s.auth)
    resp ← create_by_type r auth
    pure (result_response (w.secret_value (some resp))))

  unfoldable pub list_if_allowed : AuthInfo → List String → Exec Response Response
  list_if_allowed auth capabilities =
      if may_list capabilities
      then (do result ← checked (Users.list_roles auth); pure (result_response result))
      else leave (error_response forbidden "User lacks capability to list roles")

  -- `ListRoles`
  unfoldable pub list_roles : Request → Exec Response Response
  list_roles r = with_credentials (do
    enter r
    auth ← gets (λ s. s.auth)
    capabilities ← checked (capabilities_self auth "auth/token/roles")
    capabilities2 ← checked (capabilities_self auth "auth/token/roles/")
    list_if_allowed auth (capabilities ++ capabilities2))

  -- `GetRole`
  unfoldable pub get_role : Request → Exec Response Response
  get_role r = with_credentials (do
    enter r
    auth ← gets (λ s. s.auth)
    result ← checked (Users.get_role auth (r.query "rolename"))
    pure (result_response (from_map result)))
