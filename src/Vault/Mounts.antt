-- ===== src/Vault/Mounts.antt =====
-- vault/mount.go
use goldfish.Prelude.{String, ◌<>◌}
use goldfish.Json.{Value}
use goldfish.Types.{AuthInfo}
use goldfish.World.{World}
use goldfish.World.{Call}
use goldfish.Exec.{Exec, ◌>>=◌}
use goldfish.Vault.Clients.{client, call}

module _ ⦃w : World⦄ where
  unfoldable pub list_mounts : AuthInfo → Exec String Value
  list_mounts auth = do c ← client auth; call c Call.list_mounts

  unfoldable pub get_mount : AuthInfo → String → Exec String Value
  get_mount auth path = do c ← client auth; call c (Call.mount_config (path <> "/"))

  unfoldable pub tune_mount : AuthInfo → String → Value → Exec String Unit
  tune_mount auth path config = do c ← client auth; call c (Call.tune_mount (path <> "/") config)
