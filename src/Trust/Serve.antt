-- ===== src/Trust/Serve.antt =====
-- The theorem about all routes of server.go that serve a user.
use goldfish.Prelude.{◌≡◌, refl, String, Bool, true, false, [], ◌∷◌}
use goldfish.Types.{AuthInfo}
use goldfish.World.{World, Request, Result, ok, err}
use goldfish.Exec.{State, Exec, gets, modify, defer, lift, require, on_error, ◌>>=◌, ◌>>◌}
use goldfish.Exec.Keeps.{Keeps, Keeps-modify, keeps_rules}
use goldfish.Vault.Auth.{get_config, clear}
use goldfish.Handlers.Responses.{Response}
use goldfish.Handlers.Session.{enter, with_credentials}
use goldfish.Handlers.Accounts
use goldfish.Handlers.Users
use goldfish.Handlers.Secrets
use goldfish.Handlers.Mounts
use goldfish.Handlers.Transit
use goldfish.Handlers.Wrapping
use goldfish.Handlers.Policies
use goldfish.Handlers.Requests.Add
use goldfish.Handlers.Requests.Remove
use goldfish.Handlers.Requests.Dispatch
use goldfish.Server.{Route, handle, serve}
use goldfish.Server.Access.{is_public}
use goldfish.Trust.Calls.{IsTrusted}
use goldfish.Exec.Trace.{none_yet}
use goldfish.Trust.Methods.{
  Keeps-capabilities_self, Keeps-renew_self, Keeps-write_secret, Keeps-delete_secret,
  Keeps-list_mounts, Keeps-get_mount, Keeps-tune_mount, Keeps-delete_policy, Keeps-encrypt_transit,
  Keeps-decrypt_transit, Keeps-get_bulletins,
}
use goldfish.Trust.Users.{
  Keeps-list_users, Keeps-delete_user, Keeps-get_token_count, Keeps-get_role,
}
use goldfish.Trust.Server.{Keeps-wrap_user_data, Keeps-unwrap_user_data}
use goldfish.Trust.Requests.{Keeps-send_csrf_token, Keeps-submit}
use goldfish.Trust.Changes.{Keeps-new_request, Keeps-remove_request}
use goldfish.Trust.Routes.{
  Keeps-fetch, Keeps-fetch_policy, Keeps-create_by_type, Keeps-list_if_allowed, Keeps-view_request,
  Keeps-update_request, user_token, serves_anyone, serves_user,
}

module _ ⦃w : World⦄ where
  keep_header :
      (s : State) (user name value : String)
      → Keeps {E = Response}
          (IsTrusted s user)
          (modify (λ t. record t { headers = (name, value) ∷ t.headers }))
  keep_header s user name value =
      Keeps-modify _ λ t h. record { same_server = h.same_server; allowed = h.allowed }

  -- the target of a deletion is tested before the session is entered
  tested-IsTrusted :
      (r : Request) (s : State) (valid : Bool) (e : Response)
      (body : AuthInfo → Exec Response Response)
      → ((auth : AuthInfo) → Keeps (IsTrusted s auth.id) (body auth))
      → IsTrusted s
          (user_token r s)
          (with_credentials
            (require valid e >> (enter r >> (gets (λ t. t.auth) >>= body)))
            (record s { headers = [] })).1
  unfolding with_credentials defer modify ◌>>=◌ clear require
  tested-IsTrusted r s true e body k =
      let h = serves_user r body s k in record { same_server = h.same_server; allowed = h.allowed }
  tested-IsTrusted r s false e body k = record { same_server = refl; allowed = none_yet }

  bound-IsTrusted :
      (r : Request) (s : State) (target : Result AuthInfo) (valid : AuthInfo → Bool) (e : Response)
      (f : String → Response) (body : AuthInfo → AuthInfo → Exec Response Response)
      → ((t auth : AuthInfo) → Keeps (IsTrusted s auth.id) (body t auth))
      → IsTrusted s
          (user_token r s)
          (with_credentials
            (on_error f (lift target) >>= λ t.
              require (valid t) e >> (enter r >> (gets (λ t. t.auth) >>= body t)))
            (record s { headers = [] })).1
  unfolding with_credentials defer modify ◌>>=◌ clear on_error lift
  bound-IsTrusted r s (ok t) valid e f body k =
      let h = tested-IsTrusted r s (valid t) e (body t) (k t) in
      record { same_server = h.same_server; allowed = h.allowed }
  bound-IsTrusted r s (err _) valid e f body k = record { same_server = refl; allowed = none_yet }

  deletion-IsTrusted :
      (r : Request) (s : State)
      → IsTrusted s (user_token r s) (Users.delete_user r (record s { headers = [] })).1
  unfolding Users.delete_user
  deletion-IsTrusted r s =
      bound-IsTrusted r s r.bind_auth _ _ _ _
        λ t auth. search (keeps_rules, Keeps-delete_user auth) depth 9

  handle-IsTrusted :
      (route : Route) (r : Request) (s : State)
      → is_public route ≡ false
      → IsTrusted s (user_token r s) (handle route r (record s { headers = [] })).1
  unfolding handle Accounts.renew Users.get_users Users.get_token_count Users.get_role
      Users.list_roles Users.create_user Policies.get_policy Policies.delete_policy
      Dispatch.get_policy_request Add.add_policy_request Dispatch.update_policy_request
      Remove.delete_policy_request Transit.encrypt_string Transit.decrypt_string Mounts.get_mounts
      Mounts.get_mount Mounts.config_mount Secrets.get_secrets Secrets.post_secrets
      Secrets.delete_secrets Accounts.bulletins Wrapping.wrap_handler Wrapping.unwrap_handler
      Users.delete_user Transit.transit_info get_config
  handle-IsTrusted Route.vault_health r s p = cc
  handle-IsTrusted Route.fetch_csrf r s p = cc
  handle-IsTrusted Route.login r s p = cc
  handle-IsTrusted Route.delete_user r s p = deletion-IsTrusted r s
  handle-IsTrusted Route.transit_info r s p =
      serves_anyone r _ s
        λ user. search (keeps_rules, Keeps-send_csrf_token, keep_header s user) depth 9
  handle-IsTrusted Route.renew_self r s p =
      serves_user r _ s λ auth. search (keeps_rules, Keeps-renew_self auth) depth 9
  handle-IsTrusted Route.get_users r s p =
      serves_user r _ s
        λ auth. search (keeps_rules, Keeps-list_users auth, Keeps-send_csrf_token) depth 9
  handle-IsTrusted Route.get_token_count r s p =
      serves_user r _ s
        λ auth. search (keeps_rules, Keeps-get_token_count auth, Keeps-send_csrf_token) depth 9
  handle-IsTrusted Route.get_role r s p =
      serves_user r _ s λ auth. search (keeps_rules, Keeps-get_role auth) depth 9
  handle-IsTrusted Route.list_roles r s p =
      serves_user r _ s λ auth.
        search (keeps_rules, Keeps-capabilities_self auth, Keeps-list_if_allowed auth) depth 9
  handle-IsTrusted Route.create_user r s p =
      serves_user r _ s λ auth. search (keeps_rules, Keeps-create_by_type auth r) depth 9
  handle-IsTrusted Route.get_policy r s p =
      serves_user r _ s
        λ auth. search (keeps_rules, Keeps-fetch_policy auth, Keeps-send_csrf_token) depth 9
  handle-IsTrusted Route.delete_policy r s p =
      serves_user r _ s λ auth. search (keeps_rules, Keeps-delete_policy auth) depth 9
  handle-IsTrusted Route.get_policy_request r s p =
      serves_user r _ s λ auth. search (keeps_rules, Keeps-view_request auth r) depth 9
  handle-IsTrusted Route.add_policy_request r s p =
      serves_user r _ s λ auth. search (keeps_rules, Keeps-new_request auth, Keeps-submit) depth 9
  handle-IsTrusted Route.update_policy_request r s p =
      serves_user r _ s λ auth. search (keeps_rules, Keeps-update_request auth r) depth 9
  handle-IsTrusted Route.delete_policy_request r s p =
      serves_user r _ s λ auth. search (keeps_rules, Keeps-remove_request auth) depth 9
  handle-IsTrusted Route.encrypt_string r s p =
      serves_user r _ s λ auth. search (keeps_rules, Keeps-encrypt_transit auth) depth 9
  handle-IsTrusted Route.decrypt_string r s p =
      serves_user r _ s λ auth. search (keeps_rules, Keeps-decrypt_transit auth) depth 9
  handle-IsTrusted Route.get_mounts r s p =
      serves_user r _ s
        λ auth. search (keeps_rules, Keeps-list_mounts auth, Keeps-send_csrf_token) depth 9
  handle-IsTrusted Route.get_mount r s p =
      serves_user r _ s λ auth. search (keeps_rules, Keeps-get_mount auth) depth 9
  handle-IsTrusted Route.config_mount r s p =
      serves_user r _ s λ auth. search (keeps_rules, Keeps-tune_mount auth) depth 9
  handle-IsTrusted Route.get_secrets r s p =
      serves_user r _ s
        λ auth. search (keeps_rules, Keeps-fetch auth, Keeps-send_csrf_token) depth 9
  handle-IsTrusted Route.post_secrets r s p =
      serves_user r _ s λ auth. search (keeps_rules, Keeps-write_secret auth) depth 9
  handle-IsTrusted Route.delete_secrets r s p =
      serves_user r _ s λ auth. search (keeps_rules, Keeps-delete_secret auth) depth 9
  handle-IsTrusted Route.get_bulletins r s p =
      serves_user r _ s λ auth. search (keeps_rules, Keeps-get_bulletins auth) depth 9
  handle-IsTrusted Route.wrap_handler r s p =
      serves_user r _ s λ auth. search (keeps_rules, Keeps-wrap_user_data auth) depth 9
  handle-IsTrusted Route.unwrap_handler r s p =
      serves_user r _ s λ auth. search (keeps_rules, Keeps-unwrap_user_data auth) depth 9

  -- For every route that serves a user, every request and every behaviour of the outside: the
  -- handler leaves the server's variables as they were, and each of its effects is a connection, a
  -- call to GitHub or Slack, or a call to Vault of one of these kinds. The token of the user's
  -- session calls any method but PutPolicy, those of root generation, RevokeSelf, Unwrap, Mount and
  -- EnableAuthWithOptions. The server's own client decrypts the session by the transit backend, or
  -- reads, writes or deletes at a path that begins with the text `cubbyhole/`; what follows may be
  -- of the user's choice, and a client of Vault that resolves `..` in it leaves the cubbyhole. The
  -- server's token wraps or unwraps. Without a token there is root generation. And a root token, which
  -- is one that Vault encoded in its answer to the start of a root generation or to an unseal key,
  -- decoded by a pad of 16 random bytes, looks itself up, calls PutPolicy or revokes itself.
  pub serve-IsTrusted :
      (route : Route) (r : Request) (s : State)
      → is_public route ≡ false
      → IsTrusted s (user_token r s) (serve route r s).1
  unfolding serve
  serve-IsTrusted route r s p =
      let h = handle-IsTrusted route r s p in
      record { same_server = h.same_server; allowed = h.allowed }
