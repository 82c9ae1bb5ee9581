-- ===== src/Server/Run/Laws.antt =====
-- What holds at any time of a server that `main` has started.
use mathlib.Core.Path.{subst}
use goldfish.Prelude.{arith, ◌≡◌, ◌∙◌, refl, sym, ap, String, true}
use goldfish.World.{World}
use goldfish.Exec.{State, Server}
use goldfish.Vault.Settings.Laws.{IsSafe, HasSafeConfig}
use goldfish.Vault.Start.{reload, Workers, wake}
use goldfish.Vault.Start.Laws.{wake-HasSafeConfig}
use goldfish.Config.{Library}
use goldfish.Server.Launch.{Flags, Web, serving, main}
use goldfish.Server.Launch.Tied.{IsTied}
use goldfish.Server.Launch.Laws.{IsLaunched, main-IsLaunched}
use goldfish.Server.Run.{workers, Step, serves, wakes, Reaches, here, onward}
use goldfish.Exec.Trace.{none_yet}
use goldfish.Server.Run.Still.{serve-still, HasVault, serve-HasVault, wake-HasVault, wake-still}
use goldfish.Server.Run.Writes.{HasOnlyRoot, serve-HasOnlyRoot, wake-HasOnlyRoot}

module _ ⦃w : World⦄ (path : String) (start : Workers) where
  -- The Vault, the token and the client are those of the start, the settings are safe, and only root
  -- tokens have called PutPolicy since.
  record IsRunning (ws : Workers) : Type 0 where
    pub vault : HasVault start.state.server ws.state
    pub safe : HasSafeConfig "" ws.state
    pub written : HasOnlyRoot start.state.trace ws.state

  still-HasSafeConfig :
      (s t : State) → t.server ≡ s.server → HasSafeConfig "" s → HasSafeConfig "" t
  still-HasSafeConfig s t e h = record {
    safe = subst IsSafe (sym (ap (λ (v : Server). v.config) e)) h.safe;
    same_commit = ap (λ (v : Server). v.github_current_commit) e ∙ h.same_commit;
  }

  Step-IsRunning : {ws next : Workers} → IsRunning ws → Step path ws next → IsRunning next
  Step-IsRunning h (serves {ws} route r) = record {
    vault = serve-HasVault start.state.server route r ws.state h.vault;
    safe = still-HasSafeConfig ws.state _ (serve-still route r ws.state) h.safe;
    written = serve-HasOnlyRoot route r ws.state h.written;
  }
  Step-IsRunning h (wakes {ws} t) = record {
    vault = wake-HasVault start.state.server path t ws h.vault;
    safe = wake-HasSafeConfig "" path t ws h.safe;
    written = wake-HasOnlyRoot path t ws h.written;
  }

  Reaches-IsRunning : {ws : Workers} → IsRunning start → Reaches path start ws → IsRunning ws
  Reaches-IsRunning h here = h
  Reaches-IsRunning h (onward run next) = Step-IsRunning (Reaches-IsRunning h run) next

module _ ⦃w : World⦄ (path : String) where
  blocked-still :
      {start ws : Workers}
      → start.reload_blocks ≡ true
      → Reaches path start ws
      → (ws.state.server ≡ start.state.server) × (ws.reload_blocks ≡ true)
  blocked-still b here = (refl, b)
  blocked-still b (onward run (serves {ws} route r)) =
      let (e, k) = blocked-still b run in (serve-still route r ws.state ∙ e, k)
  blocked-still b (onward run (wakes {ws} t)) =
      let (e, k) = blocked-still b run in let (f, l) = wake-still path t ws k in (f ∙ e, l)

  reload-blocks : (ws : Workers) → (wake path reload ws).reload_blocks ≡ true
  unfolding wake
  reload-blocks ws = ground arith

  -- The settings are reloaded at most once. In any state, when the goroutine that reloads them has had
  -- its turn: no later request, in any number and order, and no later wake-up changes a package
  -- variable of vault/. The run-time settings are then fixed for good.
  pub Reaches-still :
      (before ws : Workers)
      → Reaches path (wake path reload before) ws
      → ws.state.server ≡ (wake path reload before).state.server
  Reaches-still before ws run = (blocked-still (reload-blocks before) run).0

module _ ⦃w : World⦄ ⦃lib : Library⦄ where
  -- The server that `main` has started, after any requests and wake-ups of the goroutines in any order,
  -- whatever Vault and the libraries answer: it was launched as `IsLaunched` says; the package
  -- variables still name the Vault of the same configuration, and its client still has the server's
  -- token, the one that it had at the start; the settings have a webhook of Slack or neither webhook
  -- nor channel; and every call of the method PutPolicy since the start was made with a root token,
  -- which is one that Vault encoded in its answer to the start of a root generation or to an unseal
  -- key, decoded by a pad of 16 random bytes. (Of requests that write to a path of the user's choice,
  -- as those for secrets do with the user's token, this says nothing.)
  pub main-IsTied :
      (flags : Flags) (web : Web) (s : State) (path : String) (ws : Workers)
      → main flags ≡ serving web s
      → Reaches path (workers s) ws
      → (launched : IsLaunched flags web s) × IsTied launched.cfg ws.state
        × HasSafeConfig "" ws.state
        × (ws.state.server.vault_client ≡ s.server.vault_client)
        × HasOnlyRoot s.trace ws.state
  main-IsTied flags web s path ws h run =
      let launched = main-IsLaunched flags web s h in
      let tied = launched.tied in
      let begun : IsRunning path (workers s) (workers s) = record {
        vault = record {
          same_address = refl;
          same_skip = refl;
          same_token = refl;
          same_client = refl;
        };
        safe = launched.safe;
        written = record { writes = none_yet };
      } in
      let now = Reaches-IsRunning path (workers s) begun run in
      (
        launched,
        record {
          address = now.vault.same_address ∙ tied.address;
          skip = now.vault.same_skip ∙ tied.skip;
          same_token =
              ap (λ c. c.token) now.vault.same_client ∙ tied.same_token ∙ sym now.vault.same_token;
        },
        now.safe,
        now.vault.same_client,
        now.written,
      )
