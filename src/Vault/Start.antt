-- ===== src/Vault/Start.antt =====
-- vault/vault.go: how the server gets its token, and what it does in the background.
pub mod Ready
pub mod Granted
pub mod Laws
use goldfish.Prelude.{Bool, true, if◌then◌else◌, String, not, some, List, [], ◌∷◌, ◌==◌, ◌<>◌}
use goldfish.Json.{str, get, as_string}
use goldfish.World.{World, Client, Call}
use goldfish.Exec.{State, Exec, pure, modify, deref, expect, require, on_error, ◌>>=◌, ◌>>◌}
use goldfish.Vault.Clients.{set_token, new_vault_client, call}
use goldfish.Vault.Helper.{renew_server_token}
use goldfish.Vault.Settings.{load_config_from_vault}

abbrev pub set_client : Client → State → State
set_client c s = record s { server = record s.server { vault_client = c } }

abbrev pub set_server_token : String → Client → State → State
set_server_token t c s = record s {
  server = record s.server { vault_token = t; vault_client = set_token c t };
}

abbrev pub no_secret_id : String
no_secret_id = "Could not find secret_id in wrapped token. Was it wrapped properly?"

-- What the two goroutines of `LoadRuntimeConfig` do when they wake up.
pub data Tick : Type 0 where
  reload renew : Tick

-- The package variable `errorChannel` has no initial value, and nothing assigns one.
abbrev pub error_channel_is_nil : Bool
error_channel_is_nil = true

-- The state that the two goroutines share with the handlers, and whether each of them is blocked.
pub record Workers : Type 0 where
  pub state : State
  pub reload_blocks : Bool
  pub renew_blocks : Bool

module _ ⦃w : World⦄ where
  -- `StartGoldfishWrapper`, without the goroutine that logs errors
  unfoldable pub start_goldfish_wrapper : String → String → String → Exec String Unit
  start_goldfish_wrapper wrapping_token login id = do
    require (not (wrapping_token == "")) "Token must be provided in non-dev mode"
    c ← new_vault_client
    modify (set_client (set_token c wrapping_token))
    unwrapped ←
        on_error (λ e. "Failed to unwrap provided token, revoke it if possible\nReason:" <> e)
          (call (set_token c wrapping_token) (Call.unwrap ""))
    secret ← expect unwrapped "Unwrap response from vault was nil. Please revoke token"
    secret_id ← expect (as_string (get secret.data_map "secret_id")) no_secret_id
    resp ←
        call (set_token c wrapping_token)
          (Call.write login (some (("role_id", str id) ∷ ("secret_id", str secret_id) ∷ [])))
    granted ← deref resp
    auth ← deref granted.auth
    modify (set_server_token auth.client_token c)
    call (set_token c auth.client_token) Call.lookup_self
    pure tt

  -- `LoadRuntimeConfig`, up to the start of the goroutines
  unfoldable pub load_runtime_config : String → Exec String Unit
  load_runtime_config path = load_config_from_vault path

  -- what a goroutine does when it wakes up, before it sends the error
  unfoldable pub round : String → Tick → Exec String Unit
  round path reload = load_config_from_vault path
  round path renew = renew_server_token

  -- `loadConfigEvery` and `renewServerTokenEvery`: a round, and then a send on `errorChannel`. The
  -- channel is declared and never made, and a send on a nil channel blocks for ever.
  unfoldable pub wake : String → Tick → Workers → Workers
  wake path reload ws = if ws.reload_blocks then ws else record ws {
    state = (round path reload ws.state).1;
    reload_blocks = error_channel_is_nil;
  }
  wake path renew ws =
      if ws.renew_blocks
      then ws
      else record ws { state = (round path renew ws.state).1; renew_blocks = error_channel_is_nil }

  -- The server after any sequence of times at which a goroutine could wake up.
  unfoldable pub run_background : String → List Tick → Workers → Workers
  run_background path [] ws = ws
  run_background path (t ∷ ts) ws = run_background path ts (wake path t ws)
