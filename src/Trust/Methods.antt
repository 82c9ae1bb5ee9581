-- ===== src/Trust/Methods.antt =====
-- The functions of the package `vault` that take credentials, one by one: the tokens of their calls.
use goldfish.Prelude.{true, refl, ◌≡◌, String, ◌<>◌, Option, none, some, List, [], ◌∷◌}
use goldfish.Json.{Value, Dict, as_string}
use goldfish.Types.{AuthInfo}
use goldfish.World.{World, Client, Call}
use goldfish.Exec.{State, ◌>>=◌}
use goldfish.Exec.Keeps.{Keeps, Keeps-bind, Keeps-pure, keeps_rules}
use goldfish.Vault.Clients.{client, call}
use goldfish.Vault.Secrets.{list_secret, read_secret, write_secret, delete_secret}
use goldfish.Vault.Auth.{capabilities_self, get_config}
use goldfish.Vault.Login.{lookup_self, renew_self}
use goldfish.Vault.Mounts
use goldfish.Vault.Policies
use goldfish.Vault.Transit.{encrypt_transit, decrypt_transit}
use goldfish.Vault.Bulletins.{get_bulletin, get_each, get_bulletins}
use goldfish.Trust.Calls.{IsTrusted, is_user_call, Keeps-as_user, Keeps-bind_client}

ruleset user_rules = (keeps_rules, Keeps-as_user, Keeps-bind_client)

module _ ⦃w : World⦄ {start : State} (auth : AuthInfo) where
  by_user :
      (c : Client) (q : Call)
      → c.token ≡ auth.id
      → is_user_call q ≡ true
      → Keeps (IsTrusted start auth.id) (call c q)
  by_user = Keeps-as_user

  -- a method that makes one call
  as_user_client :
      (q : Call)
      → is_user_call q ≡ true
      → Keeps (IsTrusted start auth.id) (client auth >>= λ c. call c q)
  as_user_client q u = Keeps-bind_client auth _ (λ c h. Keeps-as_user c q h u)

  pub Keeps-capabilities_self :
      (path : String) → Keeps (IsTrusted start auth.id) (capabilities_self auth path)
  unfolding capabilities_self
  Keeps-capabilities_self path = as_user_client (Call.capabilities_self path) refl

  pub Keeps-lookup_self : Keeps (IsTrusted start auth.id) (lookup_self auth)
  unfolding lookup_self
  Keeps-lookup_self = as_user_client Call.lookup_self refl

  pub Keeps-renew_self : Keeps (IsTrusted start auth.id) (renew_self auth)
  unfolding renew_self
  Keeps-renew_self = as_user_client Call.renew_self refl

  pub Keeps-list_secret : (path : String) → Keeps (IsTrusted start auth.id) (list_secret auth path)
  unfolding list_secret
  Keeps-list_secret path = search user_rules depth 9

  pub Keeps-read_secret : (path : String) → Keeps (IsTrusted start auth.id) (read_secret auth path)
  unfolding read_secret
  Keeps-read_secret path = search user_rules depth 9

  pub Keeps-write_secret :
      (path raw : String) → Keeps (IsTrusted start auth.id) (write_secret auth path raw)
  unfolding write_secret
  Keeps-write_secret path raw =
      search (user_rules, λ (c : Client) (m : Option Dict). by_user c (Call.write path m)) depth 9

  pub Keeps-delete_secret :
      (path : String) → Keeps (IsTrusted start auth.id) (delete_secret auth path)
  unfolding delete_secret
  Keeps-delete_secret path = as_user_client (Call.delete path) refl

  pub Keeps-list_mounts : Keeps (IsTrusted start auth.id) (Mounts.list_mounts auth)
  unfolding Mounts.list_mounts
  Keeps-list_mounts = as_user_client Call.list_mounts refl

  pub Keeps-get_mount :
      (path : String) → Keeps (IsTrusted start auth.id) (Mounts.get_mount auth path)
  unfolding Mounts.get_mount
  Keeps-get_mount path = as_user_client (Call.mount_config (path <> "/")) refl

  pub Keeps-tune_mount :
      (path : String) (config : Value)
      → Keeps (IsTrusted start auth.id) (Mounts.tune_mount auth path config)
  unfolding Mounts.tune_mount
  Keeps-tune_mount path config = as_user_client (Call.tune_mount (path <> "/") config) refl

  pub Keeps-list_policies : Keeps (IsTrusted start auth.id) (Policies.list_policies auth)
  unfolding Policies.list_policies
  Keeps-list_policies = as_user_client Call.list_policies refl

  pub Keeps-get_policy :
      (name : String) → Keeps (IsTrusted start auth.id) (Policies.get_policy auth name)
  unfolding Policies.get_policy
  Keeps-get_policy name =
      search (user_rules, λ (c : Client). by_user c (Call.get_policy name)) depth 9

  pub Keeps-delete_policy :
      (name : String) → Keeps (IsTrusted start auth.id) (Policies.delete_policy auth name)
  unfolding Policies.delete_policy
  Keeps-delete_policy name =
      search (user_rules, λ (c : Client). by_user c (Call.delete_policy name)) depth 9

  pub Keeps-encrypt_transit :
      (key plaintext : String)
      → Keeps (IsTrusted start auth.id) (encrypt_transit auth key plaintext)
  unfolding encrypt_transit get_config
  Keeps-encrypt_transit key plaintext = search user_rules depth 12

  pub Keeps-decrypt_transit :
      (key cipher : String) → Keeps (IsTrusted start auth.id) (decrypt_transit auth key cipher)
  unfolding decrypt_transit get_config
  Keeps-decrypt_transit key cipher = search user_rules depth 12

  Keeps-get_bulletin :
      (path : String) (b : Option String)
      → Keeps (IsTrusted start auth.id) (get_bulletin auth path b)
  unfolding get_bulletin
  Keeps-get_bulletin path none = search keeps_rules
  Keeps-get_bulletin path (some b) = Keeps-read_secret (path <> b)

  Keeps-get_each :
      (path : String) (bs : List Value) → Keeps (IsTrusted start auth.id) (get_each auth path bs)
  unfolding get_each
  Keeps-get_each path [] = search keeps_rules
  Keeps-get_each path (b ∷ bs) =
      Keeps-bind _ _ (Keeps-get_bulletin path (as_string (some b)))
        λ _. Keeps-bind _ _ (Keeps-get_each path bs) (λ _. Keeps-pure _)

  pub Keeps-get_bulletins : Keeps (IsTrusted start auth.id) (get_bulletins auth)
  unfolding get_bulletins get_config
  Keeps-get_bulletins = search (keeps_rules, Keeps-list_secret, Keeps-get_each) depth 9
