-- ===== src/Vault/Helper.antt =====
-- vault/helper.go: what the server does with its own token, or with none.
use goldfish.Prelude.{String, ◌<>◌, Option, some}
use goldfish.Json.{Dict}
use goldfish.World.{World, Client, Secret, RootStatus, http_get, read, write, delete, unwrap}
use goldfish.World.{Call}
use goldfish.Exec.{Exec, pure, gets, deref, on_error, perform, ◌>>=◌, ◌>>◌}
use goldfish.Vault.Clients.{set_token, set_wrapping, new_vault_client, call}

module _ ⦃w : World⦄ where
  -- `VaultHealth`
  unfoldable pub vault_health : Exec String String
  vault_health = do
    address ← gets (λ s. s.server.vault_address)
    perform (http_get (address <> "/v1/sys/health"))

  -- `GenerateRootStatus`, `GenerateRootInit`, `GenerateRootUpdate`, `GenerateRootCancel`
  unfoldable pub generate_root_status : Exec String RootStatus
  generate_root_status = do c ← new_vault_client; call c Call.root_status

  unfoldable pub generate_root_init : String → Exec String RootStatus
  generate_root_init otp = do c ← new_vault_client; call c (Call.root_init otp)

  unfoldable pub generate_root_update : String → String → Exec String RootStatus
  generate_root_update shard nonce = do c ← new_vault_client; call c (Call.root_update shard nonce)

  unfoldable pub generate_root_cancel : Exec String Unit
  generate_root_cancel = do c ← new_vault_client; call c Call.root_cancel

  -- `WriteToCubbyhole`, `ReadFromCubbyhole`, `DeleteFromCubbyhole`. The new client is made and not
  -- used: the calls go through the one that the server holds.
  unfoldable pub write_to_cubbyhole : String → Dict → Exec String (Option Secret)
  write_to_cubbyhole name data_map = do
    new_vault_client
    api ← gets (λ s. s.server.vault_client)
    call api (write ("cubbyhole/" <> name) (some data_map))

  unfoldable pub read_from_cubbyhole : String → Exec String (Option Secret)
  read_from_cubbyhole name = do
    new_vault_client
    api ← gets (λ s. s.server.vault_client)
    call api (read ("cubbyhole/" <> name))

  unfoldable pub delete_from_cubbyhole : String → Exec String (Option Secret)
  delete_from_cubbyhole name = do
    new_vault_client
    api ← gets (λ s. s.server.vault_client)
    call api (delete ("cubbyhole/" <> name))

  -- `new_vault_client` with the server's token
  unfoldable pub server_client : Exec String Client
  server_client = do
    c ← new_vault_client
    token ← gets (λ s. s.server.vault_token)
    pure (set_token c token)

  -- `renewServerToken`
  unfoldable pub renew_server_token : Exec String Unit
  renew_server_token = do c ← server_client; call c Call.renew_self; pure tt

  -- `WrapData`
  unfoldable pub wrap_data : String → Dict → Exec String String
  wrap_data wrapttl data_map = do
    c ← server_client
    resp ← call (set_wrapping c wrapttl) (write "/sys/wrapping/wrap" (some data_map))
    secret ← deref resp
    deref secret.wrap_token

  -- `UnwrapData`
  unfoldable pub unwrap_data : String → Exec String (Option Dict)
  unwrap_data wrapping_token = do
    c ← server_client
    resp ←
        on_error (λ e. "Failed to unwrap provided token, revoke it if possible\nReason:" <> e)
          (call c (unwrap wrapping_token))
    secret ← deref resp
    pure secret.data_map
