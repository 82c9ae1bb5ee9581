-- ===== src/Trust/Server.antt =====
-- vault/helper.go and vault/wrap.go: the tokens of their calls.
use goldfish.Prelude.{arith, ◌≡◌, ap, String, ◌<>◌, Option, some}
use goldfish.Json.{Dict}
use goldfish.Types.{AuthInfo}
use goldfish.World.{World, Client, Call}
use goldfish.Exec.{State, Server, Exec, gets, perform, pure, ◌>>=◌}
use goldfish.Exec.Keeps.{
  Keeps, Ensures, Keeps-bind, Keeps-bind_gets, Keeps-bind_Ensures, Keeps-on_error, Keeps-lift,
  keeps_rules,
}
use goldfish.Vault.Clients.{set_token, set_wrapping, new_vault_client, call}
use goldfish.Vault.Helper.{
  generate_root_status, generate_root_init, generate_root_update, generate_root_cancel,
  write_to_cubbyhole, read_from_cubbyhole, delete_from_cubbyhole, server_client, wrap_data,
  unwrap_data,
}
use goldfish.Vault.Wrap.{wrap_user_data, unwrap_user_data}
use goldfish.Trust.Calls.{
  IsTrusted, IsServerUse, reads_cubbyhole, writes_cubbyhole, deletes_cubbyhole, wraps, unwraps,
  IsRootGeneration, Keeps-as_server, Keeps-as_nobody, Keeps-bind_new_vault_client,
  Keeps-bind_client,
}

module _ ⦃w : World⦄ {start : State} {user : String} where
  nobody_call :
      (q : Call)
      → IsRootGeneration q
      → Keeps (IsTrusted start user) (new_vault_client >>= λ c. call c q)
  nobody_call q g = Keeps-bind_new_vault_client _ (λ c h. Keeps-as_nobody c q h g)

  pub Keeps-generate_root_status : Keeps (IsTrusted start user) generate_root_status
  unfolding generate_root_status
  Keeps-generate_root_status = nobody_call Call.root_status IsRootGeneration.status

  pub Keeps-generate_root_init :
      (otp : String) → Keeps (IsTrusted start user) (generate_root_init otp)
  unfolding generate_root_init
  Keeps-generate_root_init otp = nobody_call (Call.root_init otp) (IsRootGeneration.init otp)

  pub Keeps-generate_root_update :
      (shard nonce : String) → Keeps (IsTrusted start user) (generate_root_update shard nonce)
  unfolding generate_root_update
  Keeps-generate_root_update shard nonce =
      nobody_call (Call.root_update shard nonce) (IsRootGeneration.update shard nonce)

  pub Keeps-generate_root_cancel : Keeps (IsTrusted start user) generate_root_cancel
  unfolding generate_root_cancel
  Keeps-generate_root_cancel = nobody_call Call.root_cancel IsRootGeneration.cancel

  -- a call through the client that the server holds
  server_call :
      (q : Call)
      → ((c : Client) → c ≡ start.server.vault_client → IsServerUse start.server c q)
      → Keeps
          (IsTrusted start user)
          (new_vault_client >>= λ _. gets (λ s. s.server.vault_client) >>= λ api. call api q)
  server_call q use_of = Keeps-bind_new_vault_client _ λ _ _. Keeps-bind_gets _ _ λ s h.
      Keeps-as_server s.server.vault_client q
        (use_of s.server.vault_client (ap (λ (v : Server). v.vault_client) h.same_server))

  pub Keeps-read_from_cubbyhole :
      (name : String) → Keeps (IsTrusted start user) (read_from_cubbyhole name)
  unfolding read_from_cubbyhole
  Keeps-read_from_cubbyhole name =
      server_call (Call.read ("cubbyhole/" <> name)) (λ c. reads_cubbyhole name)

  pub Keeps-write_to_cubbyhole :
      (name : String) (m : Dict) → Keeps (IsTrusted start user) (write_to_cubbyhole name m)
  unfolding write_to_cubbyhole
  Keeps-write_to_cubbyhole name m =
      server_call (Call.write ("cubbyhole/" <> name) (some m)) (λ c. writes_cubbyhole name (some m))

  pub Keeps-delete_from_cubbyhole :
      (name : String) → Keeps (IsTrusted start user) (delete_from_cubbyhole name)
  unfolding delete_from_cubbyhole
  Keeps-delete_from_cubbyhole name =
      server_call (Call.delete ("cubbyhole/" <> name)) (λ c. deletes_cubbyhole name)

  Keeps-server_client : Keeps (IsTrusted start user) server_client
  unfolding server_client
  Keeps-server_client = Keeps-bind_new_vault_client _ (λ _ _. search keeps_rules)

  Ensures-server_client :
      Ensures (IsTrusted start user) (λ c. c.token ≡ start.server.vault_token) server_client
  unfolding server_client new_vault_client ◌>>=◌ gets perform pure
  Ensures-server_client = record {
    at = λ s c h. ground (arith, ap (λ (v : Server). v.vault_token) h.same_server);
  }

  -- a call by a client with the server's token
  Keeps-bind_server_client :
      {A : Type 0} (f : Client → Exec String A)
      → ((c : Client) → c.token ≡ start.server.vault_token → Keeps (IsTrusted start user) (f c))
      → Keeps (IsTrusted start user) (server_client >>= f)
  Keeps-bind_server_client f k =
      Keeps-bind_Ensures (λ c. c.token ≡ start.server.vault_token) _ f Keeps-server_client
        Ensures-server_client k

  wrap_call :
      (c : Client) (m : Option Dict)
      → c.token ≡ start.server.vault_token
      → Keeps (IsTrusted start user) (call c (Call.write "/sys/wrapping/wrap" m))
  wrap_call c m h = Keeps-as_server c (Call.write "/sys/wrapping/wrap" m) (wraps m h)

  unwrap_call :
      (c : Client) (token : String)
      → c.token ≡ start.server.vault_token
      → Keeps (IsTrusted start user) (call c (Call.unwrap token))
  unwrap_call c token h = Keeps-as_server c (Call.unwrap token) (unwraps token h)

  pub Keeps-wrap_data : (ttl : String) (m : Dict) → Keeps (IsTrusted start user) (wrap_data ttl m)
  unfolding wrap_data
  Keeps-wrap_data ttl m =
      Keeps-bind_server_client _
        λ c h. Keeps-bind _ _ (wrap_call (set_wrapping c ttl) (some m) h) (λ _. search keeps_rules)

  pub Keeps-unwrap_data : (token : String) → Keeps (IsTrusted start user) (unwrap_data token)
  unfolding unwrap_data
  Keeps-unwrap_data token =
      Keeps-bind_server_client _
        λ c h. Keeps-bind _ _ (Keeps-on_error _ _ (unwrap_call c token h)) (λ _. search keeps_rules)

  -- what a `gets` of the server's token returns
  Keeps-bind_token :
      {A : Type 0} (f : String → Exec String A)
      → ((t : String) → t ≡ start.server.vault_token → Keeps (IsTrusted start user) (f t))
      → Keeps (IsTrusted start user) (gets (λ s. s.server.vault_token) >>= f)
  Keeps-bind_token f k =
      Keeps-bind_gets _ f
        λ s h. k s.server.vault_token (ap (λ (v : Server). v.vault_token) h.same_server)

module _ ⦃w : World⦄ {start : State} where
  pub Keeps-wrap_user_data :
      (auth : AuthInfo) (ttl raw : String)
      → Keeps (IsTrusted start auth.id) (wrap_user_data auth ttl raw)
  unfolding wrap_user_data
  Keeps-wrap_user_data auth ttl raw = Keeps-bind_client auth _ λ c _. Keeps-bind_token _ λ t h.
      Keeps-bind _ _ (Keeps-lift (w.unmarshal raw)) λ m.
        Keeps-bind _ _ (wrap_call (set_wrapping (set_token c t) ttl) m h) (λ _. search keeps_rules)

  pub Keeps-unwrap_user_data :
      (auth : AuthInfo) (token : String)
      → Keeps (IsTrusted start auth.id) (unwrap_user_data auth token)
  unfolding unwrap_user_data
  Keeps-unwrap_user_data auth token = Keeps-bind_client auth _ λ c _. Keeps-bind_token _ λ t h.
      Keeps-bind _ _ (Keeps-on_error _ _ (unwrap_call (set_token c t) token h))
        (λ _. search keeps_rules)
