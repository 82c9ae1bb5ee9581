-- ===== src/Server/Run.antt =====
-- server.go and vault/vault.go: the server behind `main`. Requests are served one at a time, and
-- between them the goroutines of `LoadRuntimeConfig` wake up, in any order.
pub mod Idle
pub mod Still
pub mod Writes
pub mod Laws
use goldfish.Prelude.{String, false}
use goldfish.World.{World, Request}
use goldfish.Exec.{State}
use goldfish.Vault.Start.{Tick, Workers, wake}
use goldfish.Server.{Route, serve}

-- The goroutines when they are started; neither of them is blocked.
abbrev pub workers : State → Workers
workers s = record { state = s; reload_blocks = false; renew_blocks = false }

module _ ⦃w : World⦄ where
  abbrev pub answered : Route → Request → Workers → Workers
  answered route r ws = record ws { state = (serve route r ws.state).1 }

  -- What can happen next to a server whose settings are read from this path.
  pub data Step (path : String) : Workers → Workers → Type 0 where
    serves : {ws : Workers} (route : Route) (r : Request) → Step path ws (answered route r ws)
    wakes : {ws : Workers} (t : Tick) → Step path ws (wake path t ws)

  -- What the server comes to in any number of steps.
  pub data Reaches (path : String) (start : Workers) : Workers → Type 0 where
    here : Reaches path start start
    onward :
        {ws next : Workers} → Reaches path start ws → Step path ws next → Reaches path start next
