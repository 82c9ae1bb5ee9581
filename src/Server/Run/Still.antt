-- ===== src/Server/Run/Still.antt =====
-- What a request and a wake-up leave of the package variables of vault/.
use goldfish.Prelude.{
  arith, ap, [], inl, inr, ◌≡◌, ◌∙◌, refl, ℕ, Bool, true, false, String, if◌then◌else◌, Bool-cases,
}
use goldfish.Types.{Config as Settings}
use goldfish.World.{World, Request}
use goldfish.Exec.{State, Server, modify}
use goldfish.Exec.Keeps.{Keeps, Keeps-modify, Keeps-perform}
use goldfish.Vault.Settings.{install}
use goldfish.Vault.Start.{Tick, reload, renew, Workers, round, wake}
use goldfish.Vault.Start.Laws.{wake-keeps}
use goldfish.Server.{Route, handle, serve}
use goldfish.Server.Access.{is_public}
use goldfish.Server.Run.Idle
use goldfish.Server.Run.Idle.{IsIdle}
use goldfish.Trust.Serve.{serve-IsTrusted}

-- The package variables are these.
pub record HasServer (srv : Server) (s : State) : Type 0 where
  pub same : s.server ≡ srv

-- The server still has the Vault, the token and the client that it has here.
pub record HasVault (srv : Server) (s : State) : Type 0 where
  pub same_address : s.server.vault_address ≡ srv.vault_address
  pub same_skip : s.server.vault_skip_tls ≡ srv.vault_skip_tls
  pub same_token : s.server.vault_token ≡ srv.vault_token
  pub same_client : s.server.vault_client ≡ srv.vault_client

module _ ⦃w : World⦄ {srv : Server} where
  HasServer-IsIdle : IsIdle (HasServer srv)
  HasServer-IsIdle = record {
    acts = λ e h. Keeps-perform e λ s k. record { same = k.same };
    moves = λ s t e f k. record { same = e ∙ k.same };
  }

  HasVault-IsIdle : IsIdle (HasVault srv)
  HasVault-IsIdle = record {
    acts = λ e h. Keeps-perform e λ s k. record {
      same_address = k.same_address;
      same_skip = k.same_skip;
      same_token = k.same_token;
      same_client = k.same_client;
    };
    moves = λ s t e f k. record {
      same_address = ap (λ (v : Server). v.vault_address) e ∙ k.same_address;
      same_skip = ap (λ (v : Server). v.vault_skip_tls) e ∙ k.same_skip;
      same_token = ap (λ (v : Server). v.vault_token) e ∙ k.same_token;
      same_client = ap (λ (v : Server). v.vault_client) e ∙ k.same_client;
    };
  }

  installs : (c : Settings) (hash : ℕ) → Keeps {E = String} (HasVault srv) (modify (install c hash))
  installs c hash = Keeps-modify _ λ s h. record {
    same_address = h.same_address;
    same_skip = h.same_skip;
    same_token = h.same_token;
    same_client = h.same_client;
  }

if_true : (b : Bool) (ws next : Workers) → b ≡ true → (if b then ws else next) ≡ ws
if_true true ws next h = refl
if_true false ws next h = cc

module _ ⦃w : World⦄ where
  pub public-idle :
      {P : State → Type 0} (idle : IsIdle P) (route : Route) (r : Request) (s : State)
      → is_public route ≡ true
      → P (record s { headers = [] })
      → P (handle route r (record s { headers = [] })).1
  unfolding handle
  public-idle idle Route.vault_health r s p h = (Idle.Keeps-health idle r).at _ h
  public-idle idle Route.fetch_csrf r s p h = (Idle.Keeps-fetch_csrf idle r).at _ h
  public-idle idle Route.login r s p h = (Idle.Keeps-log_in idle r).at _ h
  public-idle idle _ r s p h = cc

  -- A request changes no package variable.
  pub serve-still :
      (route : Route) (r : Request) (s : State) → (serve route r s).1.server ≡ s.server
  unfolding serve
  serve-still route r s = elim (Bool-cases (is_public route)) [
    | inl p ↦
        let h : HasServer s.server (handle route r (record s { headers = [] })).1 =
          public-idle HasServer-IsIdle route r s p (record { same = refl }) in
        h.same
    | inr p ↦ (serve-IsTrusted route r s p).same_server
  ]

  renew-still : (path : String) (ws : Workers) → (wake path renew ws).state.server ≡ ws.state.server
  unfolding round
  renew-still path ws =
      let kept : HasServer ws.state.server (wake path renew ws).state =
        wake-keeps {P = HasServer ws.state.server} path renew ws (Idle.Keeps-renew HasServer-IsIdle)
          (record { same = refl }) in
      kept.same

  pub Keeps-round :
      {P : State → Type 0}
      → IsIdle P
      → ((c : Settings) (hash : ℕ) → Keeps {E = String} P (modify (install c hash)))
      → (path : String) (t : Tick) → Keeps P (round path t)
  unfolding round
  Keeps-round idle f path reload = Idle.Keeps-reload idle path f
  Keeps-round idle f path renew = Idle.Keeps-renew idle

  -- A wake-up leaves the Vault, the token and the client of the server as they are.
  pub wake-HasVault :
      (srv : Server) (path : String) (t : Tick) (ws : Workers)
      → HasVault srv ws.state
      → HasVault srv (wake path t ws).state
  wake-HasVault srv path t ws h =
      wake-keeps {P = HasVault srv} path t ws (Keeps-round HasVault-IsIdle installs path t) h

  -- So does a request.
  pub serve-HasVault :
      (srv : Server) (route : Route) (r : Request) (s : State)
      → HasVault srv s
      → HasVault srv (serve route r s).1
  serve-HasVault srv route r s h =
      let e = serve-still route r s in
      record {
        same_address = ap (λ (v : Server). v.vault_address) e ∙ h.same_address;
        same_skip = ap (λ (v : Server). v.vault_skip_tls) e ∙ h.same_skip;
        same_token = ap (λ (v : Server). v.vault_token) e ∙ h.same_token;
        same_client = ap (λ (v : Server). v.vault_client) e ∙ h.same_client;
      }

  -- A wake-up of a blocked goroutine, and one that renews the token, change no package variable.
  pub wake-still :
      (path : String) (t : Tick) (ws : Workers)
      → ws.reload_blocks ≡ true
      → ((wake path t ws).state.server ≡ ws.state.server) × ((wake path t ws).reload_blocks ≡ true)
  unfolding wake
  wake-still path reload ws b =
      let e = if_true ws.reload_blocks ws _ b in
      (ap (λ (x : Workers). x.state.server) e, ap (λ (x : Workers). x.reload_blocks) e ∙ b)
  wake-still path renew ws b = (renew-still path ws, ground (arith, b))
