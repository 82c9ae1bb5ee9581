-- ===== src/Vault/Auth.antt =====
-- vault/auth.go. A method with a pointer receiver acts on the variable `auth` of the handler.
use goldfish.Prelude.{String, ◌<>◌, some, List, [], ◌∷◌}
use goldfish.Json.{str, get, as_string}
use goldfish.Types.{AuthInfo, Config}
use goldfish.World.{World, write}
use goldfish.World.{Call}
use goldfish.Exec.{State, Exec, gets, modify, deref, expect, lift, ◌>>=◌}
use goldfish.Vault.Clients.{client, call}

-- vault/config.go, `GetConfig`
unfoldable pub get_config : {E : Type 0} → Exec E Config
get_config = gets (λ s. s.server.config)

abbrev pub no_credentials : AuthInfo
no_credentials = record { type = ""; id = ""; pass = "" }

-- `Clear`
unfoldable pub clear : Exec String Unit
clear = modify (λ s. record s { auth = no_credentials })

abbrev pub set_id : String → State → State
set_id id s = record s { auth = record s.auth { id = id } }

abbrev pub not_a_string : String
not_a_string = "Failed type assertion of response to string"

module _ ⦃w : World⦄ where
  -- `RevokeSelf`
  unfoldable pub revoke_self : AuthInfo → Exec String Unit
  revoke_self auth = do c ← client auth; call c Call.revoke_self

  -- `EncryptAuth`
  unfoldable pub encrypt_auth : Exec String Unit
  encrypt_auth = do
    c ← get_config
    api ← gets (λ s. s.server.vault_client)
    auth ← gets (λ s. s.auth)
    resp ← call api (
        write (c.transit_backend <> "/encrypt/" <> c.server_transit_key)
          (some (("plaintext", str (w.encode_base64 auth.id)) ∷ [])))
    secret ← deref resp
    cipher ← expect (as_string (get secret.data_map "ciphertext")) not_a_string
    modify (set_id cipher)

  -- `DecryptAuth`
  unfoldable pub decrypt_auth : Exec String Unit
  decrypt_auth = do
    c ← get_config
    api ← gets (λ s. s.server.vault_client)
    auth ← gets (λ s. s.auth)
    resp ← call api (
        write (c.transit_backend <> "/decrypt/" <> c.server_transit_key)
          (some (("ciphertext", str auth.id) ∷ [])))
    secret ← deref resp
    b64 ← expect (as_string (get secret.data_map "plaintext")) not_a_string
    rawbytes ← lift (w.decode_base64 b64)
    modify (set_id rawbytes)

  -- `CapabilitiesSelf`
  unfoldable pub capabilities_self : AuthInfo → String → Exec String (List String)
  capabilities_self auth path = do c ← client auth; call c (Call.capabilities_self path)
