-- ===== src/Vault/Settings.antt =====
-- vault/config.go: the run-time settings, which the server reads from Vault once a minute.
pub mod Failure
pub mod Laws
use goldfish.Prelude.{ℕ, String, some, starts_with, nat_eq, if◌then◌else◌}
use goldfish.Types.{Config}
use goldfish.World.{World, Call}
use goldfish.Exec.{State, Exec, pure, gets, modify, expect, lift, on_error, ◌>>=◌, ◌>>◌}
use goldfish.Vault.Users.{from_map}
use goldfish.Vault.Clients.{call}

abbrev pub slack_prefix : String
slack_prefix = "https://hooks.slack.com/services"

-- An improperly formed webhook is dropped, and the channel with it.
unfoldable pub check_webhook : Config → Config
check_webhook c =
    if starts_with c.slack_webhook slack_prefix
    then c
    else record c { slack_webhook = ""; slack_channel = "" }

-- The settings that were decoded, with the commit that this process knows.
abbrev pub with_commit : Config → String → Config
with_commit c commit = record c { github_current_commit = commit }

abbrev pub no_write : String
no_write = "As of v0.2.3, goldfish needs write permissions to the config_path vault endpoint."

abbrev pub install : Config → ℕ → State → State
install c hash s = record s { server = record s.server { config = c; config_hash = hash } }

module _ ⦃w : World⦄ where
  -- behind the hash test: write the time back to Vault, then take the settings over
  unfoldable pub update_config : String → Config → ℕ → Exec String Unit
  update_config path temp new_hash = do
    time ← gets (λ s. w.date s.trace)
    api ← gets (λ s. s.server.vault_client)
    let stamped : Config = record temp { last_updated = time }
    on_error (λ _. no_write) (call api (Call.write path (some (w.map_config stamped))))
    modify (install stamped new_hash)

  unfoldable pub update_if_new : String → Config → ℕ → ℕ → Exec String Unit
  unfolding pure
  update_if_new path temp new_hash old_hash =
      if nat_eq new_hash old_hash then pure tt else update_config path temp new_hash

  -- `loadConfigFromVault`
  unfoldable pub load_config_from_vault : String → Exec String Unit
  load_config_from_vault path = do
    api ← gets (λ s. s.server.vault_client)
    resp ← call api (Call.read path)
    secret ← expect resp "Failed to read config secret from vault"
    text ← lift (w.marshal (some (from_map secret.data_map)))
    decoded ← lift (w.unmarshal_config text)
    server ← gets (λ s. s.server)
    let temp = check_webhook (with_commit decoded server.github_current_commit)
    new_hash ← lift (w.hash_config temp)
    update_if_new path temp new_hash server.config_hash
