-- ===== src/Vault/Bulletins.antt =====
-- vault/bulletins.go
use goldfish.Prelude.{String, ◌<>◌, Option, none, some, List, [], ◌∷◌}
use goldfish.Json.{Value, Dict, as_string}
use goldfish.Types.{AuthInfo}
use goldfish.World.{World}
use goldfish.Exec.{Exec, pure, ◌>>=◌}
use goldfish.Vault.Auth.{get_config}
use goldfish.Vault.Secrets.{list_secret, read_secret}

module _ ⦃w : World⦄ where
  -- one round of the loop: an entry that is no text leaves its place empty
  unfoldable pub get_bulletin : AuthInfo → String → Option String → Exec String (Option Dict)
  get_bulletin auth path none = pure none
  get_bulletin auth path (some b) = read_secret auth (path <> b)

  unfoldable pub get_each : AuthInfo → String → List Value → Exec String (List (Option Dict))
  get_each auth path [] = pure []
  get_each auth path (bulletin ∷ bulletins) = do
    found ← get_bulletin auth path (as_string (some bulletin))
    rest ← get_each auth path bulletins
    pure (found ∷ rest)

  -- `GetBulletins`
  unfoldable pub get_bulletins : AuthInfo → Exec String (List (Option Dict))
  get_bulletins auth = do
    c ← get_config
    bulletins ← list_secret auth c.bulletin_path
    get_each auth c.bulletin_path bulletins
