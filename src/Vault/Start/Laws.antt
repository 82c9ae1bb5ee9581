-- ===== src/Vault/Start/Laws.antt =====
-- vault/vault.go: what becomes of the two goroutines.
use goldfish.Prelude.{if◌then◌else◌, ◌≡◌, refl, arith, Bool, true, false, String, List, [], ◌∷◌}
use goldfish.World.{World, connect}
use goldfish.Exec.{State, perform}
use goldfish.Exec.Keeps.{Keeps, Keeps-perform, keeps_rules}
use goldfish.Vault.Clients.{new_vault_client}
use goldfish.Vault.Helper.{server_client, renew_server_token}
use goldfish.Vault.Settings.Laws.{HasSafeConfig, Keeps-load_config_from_vault, Keeps-call}
use goldfish.Vault.Start.{Tick, reload, renew, Workers, round, wake, run_background}

module _ ⦃w : World⦄ where
  blocked :
      (path : String) (t : Tick) (ws : Workers)
      → ws.reload_blocks ≡ true
      → ws.renew_blocks ≡ true
      → wake path t ws ≡ ws
  unfolding wake
  blocked path reload ws a b = simp (a) refl
  blocked path renew ws a b = simp (b) refl

  stuck :
      (path : String) (ts : List Tick) (ws : Workers)
      → ws.reload_blocks ≡ true
      → ws.renew_blocks ≡ true
      → run_background path ts ws ≡ ws
  unfolding run_background
  stuck path [] ws a b = refl
  stuck path (t ∷ ts) ws a b = rw (blocked path t ws a b) (stuck path ts ws a b)

  block :
      (path : String) (ws : Workers)
      → ((run_background path (reload ∷ renew ∷ []) ws).reload_blocks ≡ true)
        × ((run_background path (reload ∷ renew ∷ []) ws).renew_blocks ≡ true)
  unfolding run_background wake
  block path ws = ground arith

  -- Each goroutine does its work at most once, since the channel on which it then sends is nil: after
  -- a reload of the settings and a renewal of the token, in any state, no later time at which one
  -- of them could wake up changes anything.
  pub run_background-stops :
      (path : String) (ts : List Tick) (ws : Workers)
      → run_background path ts (run_background path (reload ∷ renew ∷ []) ws)
        ≡ run_background path (reload ∷ renew ∷ []) ws
  run_background-stops path ts ws = let (a, b) = block path ws in stuck path ts _ a b

if-keeps :
    (P : State → Type 0) (b : Bool) (ws next : Workers)
    → P ws.state
    → P next.state
    → P (if b then ws else next).state
if-keeps P true ws next h k = h
if-keeps P false ws next h k = k

module _ ⦃w : World⦄ {P : State → Type 0} where
  -- A wake-up keeps what the round of the goroutine keeps.
  pub wake-keeps :
      (path : String) (t : Tick) (ws : Workers)
      → Keeps P (round path t)
      → P ws.state
      → P (wake path t ws).state
  unfolding wake
  wake-keeps path reload ws k h = if-keeps P ws.reload_blocks ws _ h (k.at ws.state h)
  wake-keeps path renew ws k h = if-keeps P ws.renew_blocks ws _ h (k.at ws.state h)

module _ ⦃w : World⦄ (commit : String) where
  Keeps-round : (path : String) (t : Tick) → Keeps (HasSafeConfig commit) (round path t)
  unfolding round renew_server_token server_client new_vault_client
  Keeps-round path reload = Keeps-load_config_from_vault path
  Keeps-round path renew = search (keeps_rules, Keeps-call, connecting) depth 12
    where
      connecting : (b : Bool) → Keeps (HasSafeConfig commit) (perform (connect b))
      connecting b =
          Keeps-perform {P = HasSafeConfig commit} (connect b)
            λ s h. record { safe = h.safe; same_commit = h.same_commit }

  pub wake-HasSafeConfig :
      (path : String) (t : Tick) (ws : Workers)
      → HasSafeConfig commit ws.state
      → HasSafeConfig commit (wake path t ws).state
  wake-HasSafeConfig path t ws h = wake-keeps path t ws (Keeps-round path t) h

  -- Whatever Vault answers and whenever the goroutines wake up: if the settings have a webhook of Slack
  -- or neither webhook nor channel, they still do after any number of reloads and renewals, and the
  -- current commit of GitHub is never changed.
  pub run_background-HasSafeConfig :
      (path : String) (ts : List Tick) (ws : Workers)
      → HasSafeConfig commit ws.state
      → HasSafeConfig commit (run_background path ts ws).state
  unfolding run_background
  run_background-HasSafeConfig path [] ws h = h
  run_background-HasSafeConfig path (t ∷ ts) ws h =
      run_background-HasSafeConfig path ts (wake path t ws) (wake-HasSafeConfig path t ws h)
