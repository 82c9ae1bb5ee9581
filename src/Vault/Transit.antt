-- ===== src/Vault/Transit.antt =====
-- vault/transit.go
pub mod Laws
use goldfish.Prelude.{String, ◌<>◌, some, [], ◌∷◌, ◌==◌, not, if◌then◌else◌}
use goldfish.Json.{str, get, as_string}
use goldfish.Types.{AuthInfo, Config}
use goldfish.World.{World, write}
use goldfish.Exec.{Exec, deref, expect, require, lift, ◌>>=◌, ◌>>◌}
use goldfish.Vault.Clients.{client, call}
use goldfish.Vault.Auth.{get_config, not_a_string}

-- the key that is asked for, or the one of the run-time settings
abbrev pub key_or_default : Config → String → String
key_or_default c key = if key == "" then c.user_transit_key else key

module _ ⦃w : World⦄ where
  -- `EncryptTransit`
  unfoldable pub encrypt_transit : AuthInfo → String → String → Exec String String
  encrypt_transit auth key plaintext = do
    c ← get_config
    let k = key_or_default c key
    require (not (k == "")) "No transit key specified"
    api ← client auth
    resp ← call api (
        write (c.transit_backend <> "/encrypt/" <> k)
          (some (("plaintext", str (w.encode_base64 plaintext)) ∷ [])))
    secret ← deref resp
    expect (as_string (get secret.data_map "ciphertext")) not_a_string

  -- `DecryptTransit`
  unfoldable pub decrypt_transit : AuthInfo → String → String → Exec String String
  decrypt_transit auth key cipher = do
    c ← get_config
    let k = key_or_default c key
    require (not (k == "")) "No transit key specified"
    api ← client auth
    resp ←
        call api
          (write (c.transit_backend <> "/decrypt/" <> k) (some (("ciphertext", str cipher) ∷ [])))
    secret ← deref resp
    b64 ← expect (as_string (get secret.data_map "plaintext")) not_a_string
    lift (w.decode_base64 b64)
