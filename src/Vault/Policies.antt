-- ===== src/Vault/Policies.antt =====
-- vault/policy.go
use goldfish.Prelude.{String, List, not, ◌==◌}
use goldfish.Types.{AuthInfo}
use goldfish.World.{World}
use goldfish.World.{Call}
use goldfish.Exec.{Exec, require, ◌>>=◌, ◌>>◌}
use goldfish.Vault.Clients.{client, call}

abbrev pub empty_policy_name : String
empty_policy_name = "Empty policy name"

module _ ⦃w : World⦄ where
  unfoldable pub list_policies : AuthInfo → Exec String (List String)
  list_policies auth = do c ← client auth; call c Call.list_policies

  unfoldable pub get_policy : AuthInfo → String → Exec String String
  get_policy auth name = do
    c ← client auth
    require (not (name == "")) empty_policy_name
    call c (Call.get_policy name)

  unfoldable pub delete_policy : AuthInfo → String → Exec String Unit
  delete_policy auth name = do
    c ← client auth
    require (not (name == "")) empty_policy_name
    call c (Call.delete_policy name)

  unfoldable pub put_policy : AuthInfo → String → String → Exec String Unit
  put_policy auth name rules = do
    c ← client auth
    require (not (name == "")) empty_policy_name
    call c (Call.put_policy name rules)
