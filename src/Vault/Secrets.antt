-- ===== src/Vault/Secrets.antt =====
-- vault/secret.go
use goldfish.Prelude.{String, Option, none, some, List}
use goldfish.Json.{Value, Dict, get, as_slice}
use goldfish.Types.{AuthInfo}
use goldfish.World.{World, Secret, read, list, write, delete}
use goldfish.Exec.{Exec, pure, deref, expect, lift, ◌>>=◌}
use goldfish.Vault.Clients.{client, call}

-- `resp == nil || resp.Data == nil`, and the map if not
abbrev pub listed : Option Secret → Option Dict
listed none = none
listed (some secret) = secret.data_map

module _ ⦃w : World⦄ where
  -- `ListSecret`. The assertion on the keys is not tested.
  unfoldable pub list_secret : AuthInfo → String → Exec String (List Value)
  list_secret auth path = do
    c ← client auth
    resp ← call c (list path)
    data_map ← expect (listed resp) "Invalid path"
    deref (as_slice (get (some data_map) "keys"))

  -- `ReadSecret`
  unfoldable pub read_secret : AuthInfo → String → Exec String (Option Dict)
  read_secret auth path = do
    c ← client auth
    resp ← call c (read path)
    secret ← expect resp "Invalid path"
    pure secret.data_map

  -- `WriteSecret`
  unfoldable pub write_secret : AuthInfo → String → String → Exec String (Option Secret)
  write_secret auth path raw = do
    c ← client auth
    body ← lift (w.unmarshal raw)
    call c (write path body)

  -- `DeleteSecret`
  unfoldable pub delete_secret : AuthInfo → String → Exec String (Option Secret)
  delete_secret auth path = do c ← client auth; call c (delete path)
