-- ===== src/Server/Run/Idle.antt =====
-- The public routes and the two goroutines, for properties of the state that any effect but a call of
-- PutPolicy keeps.
use goldfish.Prelude.{◌≡◌, refl, ℕ, Bool, true, false, String, Option, none, some}
use goldfish.Types.{Config as Settings}
use goldfish.Json.{Dict}
use goldfish.World.{World, Request, Client, Call, Effect, connect, vault, http_get}
use goldfish.Exec.{State, modify, perform}
use goldfish.Exec.Keeps.{Keeps, Keeps-modify, Keeps-pure, Keeps-leave, keeps_rules}
use goldfish.Vault.Auth.{get_config, clear, encrypt_auth}
use goldfish.Vault.Clients.{new_vault_client, call}
use goldfish.Vault.Helper.{vault_health, server_client, renew_server_token}
use goldfish.Vault.Login.{
  token_or_error, exchange, login_token, login_password, login_github, login_by, login,
}
use goldfish.Vault.Settings.{install, update_config, update_if_new, load_config_from_vault}
use goldfish.Handlers.Session.{with_credentials, send_csrf_token}
use goldfish.Handlers.Accounts

abbrev pub writes_policy : Effect → Bool
writes_policy (vault _ (Call.put_policy _ _)) = true
writes_policy _ = false

-- What does not change the package variables, and does not call PutPolicy, keeps `P`.
pub record IsIdle ⦃w : World⦄ (P : State → Type 0) : Type 0 where
  pub acts : (e : Effect) → writes_policy e ≡ false → Keeps P (perform e)
  pub moves : (s t : State) → t.server ≡ s.server → t.trace ≡ s.trace → P s → P t

module _ ⦃w : World⦄ {P : State → Type 0} (idle : IsIdle P) where
  assigned :
      {E : Type 0} (f : State → State)
      → ((s : State) → (f s).server ≡ s.server)
      → ((s : State) → (f s).trace ≡ s.trace)
      → Keeps {E = E} P (modify f)
  assigned f same_server same_trace =
      Keeps-modify f λ s h. idle.moves s (f s) (same_server s) (same_trace s) h

  Keeps-call : (c : Client) (q : Call) → writes_policy (vault c q) ≡ false → Keeps P (call c q)
  unfolding call
  Keeps-call c q e = idle.acts (vault c q) e

  Keeps-get : (url : String) → Keeps P (perform (http_get url))
  Keeps-get url = idle.acts (http_get url) refl

  Keeps-connect : (b : Bool) → Keeps P (perform (connect b))
  Keeps-connect b = idle.acts (connect b) refl

  Keeps-client : Keeps P new_vault_client
  unfolding new_vault_client
  Keeps-client = search (keeps_rules, Keeps-connect) depth 10

  -- `renewServerToken`
  pub Keeps-renew : Keeps P renew_server_token
  unfolding renew_server_token server_client
  Keeps-renew = search (keeps_rules, Keeps-client, Keeps-call) depth 12

  -- `loadConfigFromVault`, where the new settings may be installed
  pub Keeps-reload :
      (path : String)
      → ((c : Settings) (hash : ℕ) → Keeps {E = String} P (modify (install c hash)))
      → Keeps P (load_config_from_vault path)
  unfolding load_config_from_vault update_if_new update_config
  Keeps-reload path installs = search (keeps_rules, Keeps-call, installs) depth 24

  pub Keeps-send_csrf_token : (r : Request) → Keeps P (send_csrf_token r)
  unfolding send_csrf_token
  Keeps-send_csrf_token r = assigned _ (λ s. refl) (λ s. refl)

  pub Keeps-health : (r : Request) → Keeps P (Accounts.health r)
  unfolding Accounts.health vault_health
  Keeps-health r = search (keeps_rules, Keeps-get) depth 12

  pub Keeps-fetch_csrf : (r : Request) → Keeps P (Accounts.fetch_csrf r)
  unfolding Accounts.fetch_csrf
  Keeps-fetch_csrf r = search (keeps_rules, Keeps-send_csrf_token) depth 6

  Keeps-exchange : (c : Client) (path : String) (body : Dict) → Keeps P (exchange c path body)
  unfolding exchange
  Keeps-exchange c path body = search (keeps_rules, Keeps-call, Keeps-token) depth 12
    where
      Keeps-token : (o : Option String) → Keeps P (token_or_error o)
      Keeps-token none = Keeps-leave _
      Keeps-token (some t) = Keeps-pure t

  Keeps-login : Keeps P login
  unfolding login login_by login_token login_password login_github
  Keeps-login =
      search (keeps_rules, Keeps-leave, Keeps-call, Keeps-client, Keeps-exchange, assigned) depth 16

  Keeps-encrypt_auth : Keeps P encrypt_auth
  unfolding encrypt_auth get_config
  Keeps-encrypt_auth = search (keeps_rules, Keeps-call, assigned) depth 16

  Keeps-store_session : Keeps P Accounts.store_session
  unfolding Accounts.store_session
  Keeps-store_session = search (keeps_rules, Keeps-encrypt_auth, assigned) depth 12

  pub Keeps-log_in : (r : Request) → Keeps P (Accounts.log_in r)
  unfolding Accounts.log_in with_credentials Accounts.bind_auth clear
  Keeps-log_in r = search (keeps_rules, Keeps-login, Keeps-store_session, assigned) depth 16
