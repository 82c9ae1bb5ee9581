-- ===== src/Vault/Clients.antt =====
-- vault/vault.go, `NewVaultClient`, and vault/login.go, `Client`.
pub mod Runs
use goldfish.Prelude.{String, none, some}
use goldfish.Types.{AuthInfo}
use goldfish.World.{World, Client, Call, Reply, lookup_self, connect, vault}
use goldfish.Exec.{Exec, pure, gets, perform, ◌>>=◌, ◌>>◌}

-- `client.SetToken`
abbrev pub set_token : Client → String → Client
set_token c t = record c { token = t }

-- `client.SetWrappingLookupFunc` with a function that always returns `ttl`
abbrev pub set_wrapping : Client → String → Client
set_wrapping c ttl = record c { wrap_ttl = some ttl }

module _ ⦃w : World⦄ where
  unfoldable pub new_vault_client : Exec String Client
  new_vault_client = do
    server ← gets (λ s. s.server)
    perform (connect server.vault_skip_tls)
    pure (record {
      address = server.vault_address;
      skip_tls = server.vault_skip_tls;
      token = "";
      wrap_ttl = none;
    })

  -- A method of the API client.
  unfoldable pub call : Client → (q : Call) → Exec String (Reply q)
  call c q = perform (vault c q)

  -- `auth.Client()`: a client with the token of `auth`, which Vault has looked up.
  unfoldable pub client : AuthInfo → Exec String Client
  client auth = do
    c ← new_vault_client
    call (set_token c auth.id) lookup_self
    pure (set_token c auth.id)
