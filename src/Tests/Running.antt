-- ===== src/Tests/Running.antt =====
-- Runs of the started server.
use goldfish.Prelude.{◌≡◌, none}
use goldfish.Vault.Settings.Laws.{HasSafeConfig}
use goldfish.Vault.Start.{Workers, reload, renew, wake}
use goldfish.Server.{Route}
use goldfish.Server.Launch.Tied.{IsTied}
use goldfish.Server.Launch.Laws.{IsLaunched}
use goldfish.Server.Run.{workers, answered, Reaches, here, onward, serves, wakes}
use goldfish.Server.Run.Writes.{HasOnlyRoot}
use goldfish.Server.Run.Laws.{main-IsTied, Reaches-still}
use goldfish.Tests.Sample.{sample, visit}
use goldfish.Tests.Deployment.{library, flags, web, served, serving_now}

-- the settings are reloaded, and a user who is not logged in asks for mounts
abbrev later : Workers
later =
    answered ⦃w = sample 0⦄ Route.get_mounts (visit none)
      (wake ⦃w = sample 0⦄ "config" reload (workers served))

run : Reaches ⦃w = sample 0⦄ "config" (workers served) later
run = onward (onward here (wakes reload)) (serves Route.get_mounts (visit none))

main-IsTied_example :
    (launched : IsLaunched ⦃w = sample 0⦄ ⦃lib = library⦄ flags web served) × IsTied launched.cfg
      later.state
    × HasSafeConfig "" later.state
    × (later.state.server.vault_client ≡ served.server.vault_client)
    × HasOnlyRoot ⦃w = sample 0⦄ served.trace later.state
main-IsTied_example =
    main-IsTied ⦃w = sample 0⦄ ⦃lib = library⦄ flags web served "config" later serving_now run

-- a request and two wake-ups behind the reload
abbrev reloaded : Workers
reloaded = wake ⦃w = sample 0⦄ "config" reload (workers served)

abbrev much_later : Workers
much_later = wake ⦃w = sample 0⦄ "config" reload (
    wake ⦃w = sample 0⦄ "config" renew
      (answered ⦃w = sample 0⦄ Route.get_mounts (visit none) reloaded))

much_later_run : Reaches ⦃w = sample 0⦄ "config" reloaded much_later
much_later_run =
    onward (onward (onward here (serves Route.get_mounts (visit none))) (wakes renew))
      (wakes reload)

Reaches-still_example : much_later.state.server ≡ reloaded.state.server
Reaches-still_example =
    Reaches-still ⦃w = sample 0⦄ "config" (workers served) much_later much_later_run
