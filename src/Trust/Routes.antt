-- ===== src/Trust/Routes.antt =====
-- The routes of server.go that serve a user: the tokens of the calls behind the session.
use goldfish.Prelude.{◌≡◌, refl, ap, String, ◌<>◌, Option, none, some, List, []}
use goldfish.Json.{Dict}
use goldfish.Types.{AuthInfo, Config}
use goldfish.World.{World, Request, Client, Call}
use goldfish.Exec.{
  Server, State, Flow, continue, done, exit, panic, Exec, gets, modify, defer, ◌>>=◌, ◌>>◌,
}
use goldfish.Exec.Keeps.{
  Keeps, Keeps-leave, Keeps-gets, Keeps-bind, Keeps-bind_gets, Keeps-modify, keeps_rules,
}
use goldfish.Vault.Auth.{no_credentials, set_id, get_config, clear, decrypt_auth}
use goldfish.Vault.Clients.{call}
use goldfish.Handlers.Responses.{Response}
use goldfish.Handlers.Session.{decode_session, get_session, enter, with_credentials}
use goldfish.Handlers.Secrets.{fetch}
use goldfish.Handlers.Policies.{fetch_policy}
use goldfish.Handlers.Users.{create_by_type, list_if_allowed}
use goldfish.Handlers.Requests.Dispatch.{view_request, update_request}
use goldfish.Trust.Calls.{IsTrusted, decrypts, Keeps-as_server}
use goldfish.Exec.Trace.{none_yet}
use goldfish.Trust.Methods.{
  Keeps-list_secret, Keeps-read_secret, Keeps-get_policy, Keeps-list_policies,
}
use goldfish.Trust.Users.{Keeps-create_token, Keeps-list_roles}
use goldfish.Trust.Changes.{
  Keeps-view_by_change_id, Keeps-view_by_commit_hash, Keeps-update_by_change_id,
  Keeps-update_by_commit_hash,
}

module _ ⦃w : World⦄ {start : State} (auth : AuthInfo) where
  pub Keeps-fetch : (path : String) → Keeps (IsTrusted start auth.id) (fetch auth path)
  unfolding fetch
  Keeps-fetch path = search (keeps_rules, Keeps-list_secret, Keeps-read_secret) depth 9

  pub Keeps-fetch_policy :
      (name : String) → Keeps (IsTrusted start auth.id) (fetch_policy auth name)
  unfolding fetch_policy
  Keeps-fetch_policy name = search (keeps_rules, Keeps-get_policy, Keeps-list_policies) depth 9

  pub Keeps-create_by_type : (r : Request) → Keeps (IsTrusted start auth.id) (create_by_type r auth)
  unfolding create_by_type
  Keeps-create_by_type r = search (keeps_rules, Keeps-create_token) depth 9

  pub Keeps-list_if_allowed :
      (cs : List String) → Keeps (IsTrusted start auth.id) (list_if_allowed auth cs)
  unfolding list_if_allowed
  Keeps-list_if_allowed cs = search (keeps_rules, Keeps-list_roles) depth 9

  pub Keeps-view_request : (r : Request) → Keeps (IsTrusted start auth.id) (view_request r auth)
  unfolding view_request
  Keeps-view_request r =
      search (keeps_rules, Keeps-view_by_change_id, Keeps-view_by_commit_hash) depth 9

  pub Keeps-update_request : (r : Request) → Keeps (IsTrusted start auth.id) (update_request r auth)
  unfolding update_request
  Keeps-update_request r =
      search (keeps_rules, Keeps-update_by_change_id, Keeps-update_by_commit_hash) depth 9

-- The state in which a handler starts, and its state when the session is entered.
abbrev pub fresh : State → State
fresh s = record s { headers = []; auth = no_credentials }

module _ ⦃w : World⦄ where
  -- the token of the session of a request
  unfoldable pub user_token : Request → State → String
  user_token r s = (enter r (fresh s)).1.auth.id

  decrypt_call :
      (start : State) (user : String) (m : Option Dict) (c : Config) (api : Client)
      → c ≡ start.server.config
      → api ≡ start.server.vault_client
      → Keeps
          (IsTrusted start user)
          (call api (Call.write (c.transit_backend <> "/decrypt/" <> c.server_transit_key) m))
  decrypt_call start user m c api p q =
      rw p (Keeps-as_server api _ (decrypts start.server.config.server_transit_key m q))

  Keeps-decrypt_auth : (start : State) (user : String) → Keeps (IsTrusted start user) decrypt_auth
  unfolding decrypt_auth get_config
  Keeps-decrypt_auth start user = Keeps-bind_gets _ _ λ s h. Keeps-bind_gets _ _ λ t k.
      Keeps-bind _ _ (Keeps-gets _) λ auth.
        Keeps-bind _ _
          (decrypt_call start user _ _ _ (ap (λ (v : Server). v.config) h.same_server)
            (ap (λ (v : Server). v.vault_client) k.same_server))
          (λ _. search (keeps_rules, keep_auth) depth 8)
    where
      keep_auth : (id : String) → Keeps {E = String} (IsTrusted start user) (modify (set_id id))
      keep_auth id =
          Keeps-modify _ (λ s h. record { same_server = h.same_server; allowed = h.allowed })

  Keeps-get_session :
      (start : State) (user : String) (r : Request) → Keeps (IsTrusted start user) (get_session r)
  unfolding get_session
  Keeps-get_session start user r =
      Keeps-bind _ _ (decoding r.cookie)
        (λ _. Keeps-modify _ (λ s h. record { same_server = h.same_server; allowed = h.allowed }))
    where
      decoding : (o : Option String) → Keeps (IsTrusted start user) (decode_session o)
      decoding none = Keeps-leave _
      decoding (some value) = search keeps_rules depth 6

  Keeps-enter :
      (start : State) (user : String) (r : Request) → Keeps (IsTrusted start user) (enter r)
  unfolding enter
  Keeps-enter start user r = search (keeps_rules, Keeps-get_session, Keeps-decrypt_auth)

  after_enter :
      (s : State) (user : String) (f : Flow Response Unit) (t : State) (m : Exec Response Response)
      → Keeps (IsTrusted s user) m
      → IsTrusted s user t
      → IsTrusted s user (continue f (λ _. m) t).1
  after_enter s user (done _) t m k h = k.at t h
  after_enter s user (exit _) t m k h = h
  after_enter s user panic t m k h = h

  entered : (r : Request) (s : State) → IsTrusted s (user_token r s) (enter r (fresh s)).1
  entered r s =
      (Keeps-enter s (user_token r s) r).at (fresh s)
        (record { same_server = refl; allowed = none_yet })

  -- A handler whose body keeps to the rules whoever the user is.
  pub serves_anyone :
      (r : Request) (body : Exec Response Response) (s : State)
      → ((user : String) → Keeps (IsTrusted s user) body)
      → IsTrusted s
          (user_token r s)
          (with_credentials (enter r >> body) (record s { headers = [] })).1
  unfolding with_credentials defer modify ◌>>=◌ clear user_token
  serves_anyone r body s k =
      let h =
        after_enter s (user_token r s) (enter r (fresh s)).0 (enter r (fresh s)).1 body (k _)
          (entered r s) in
      record { same_server = h.same_server; allowed = h.allowed }

  -- A handler of the usual shape, whose body acts for the user that the session names.
  pub serves_user :
      (r : Request) (body : AuthInfo → Exec Response Response) (s : State)
      → ((auth : AuthInfo) → Keeps (IsTrusted s auth.id) (body auth))
      → IsTrusted s
          (user_token r s)
          (with_credentials
            (enter r >> (gets (λ t. t.auth) >>= body))
            (record s { headers = [] })).1
  unfolding with_credentials defer modify ◌>>=◌ clear gets user_token
  serves_user r body s k =
      let t = (enter r (fresh s)).1 in
      let h = served (enter r (fresh s)).0 t k (entered r s) in
      record { same_server = h.same_server; allowed = h.allowed }
    where
      served :
          (f : Flow Response Unit) (t : State)
          → ((auth : AuthInfo) → Keeps (IsTrusted s auth.id) (body auth))
          → IsTrusted s t.auth.id t
          → IsTrusted s t.auth.id (continue f (λ _. gets (λ t. t.auth) >>= body) t).1
      served (done _) t k h = (k t.auth).at t h
      served (exit _) t k h = h
      served panic t k h = h
