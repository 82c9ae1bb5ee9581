-- ===== src/Vault/Wrap.antt =====
-- vault/wrap.go: wrapping on behalf of a user, with the server's token.
use goldfish.Prelude.{String, ◌<>◌, Option}
use goldfish.Json.{Dict}
use goldfish.Types.{AuthInfo}
use goldfish.World.{World, write, unwrap}
use goldfish.Exec.{Exec, pure, gets, deref, lift, on_error, ◌>>=◌}
use goldfish.Vault.Clients.{set_token, set_wrapping, client, call}

module _ ⦃w : World⦄ where
  -- `auth.WrapData`
  unfoldable pub wrap_user_data : AuthInfo → String → String → Exec String String
  wrap_user_data auth wrapttl raw = do
    c ← client auth
    server_token ← gets (λ s. s.server.vault_token)
    body ← lift (w.unmarshal raw)
    resp ← call (set_wrapping (set_token c server_token) wrapttl) (write "/sys/wrapping/wrap" body)
    secret ← deref resp
    deref secret.wrap_token

  -- `auth.UnwrapData`
  unfoldable pub unwrap_user_data : AuthInfo → String → Exec String (Option Dict)
  unwrap_user_data auth wrapping_token = do
    c ← client auth
    server_token ← gets (λ s. s.server.vault_token)
    resp ←
        on_error (λ e. "Failed to unwrap provided token " <> e)
          (call (set_token c server_token) (unwrap wrapping_token))
    secret ← deref resp
    pure secret.data_map
