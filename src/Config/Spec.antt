-- ===== src/Config/Spec.antt =====
-- config/config.go: which configuration a text describes, without the order in which it is read.
use goldfish.Prelude.{
  ◌≡◌, ◌≢◌, ◌⊎◌, String, Bool, true, false, Option, none, some, List, [], ◌∷◌, All,
}
use goldfish.Json.{lookup}
use goldfish.World.{ok}
use goldfish.Config.{
  ListenerConfig, VaultConfig, Config, Node, object_list, Items, Item, items, Url, Library,
}
use goldfish.Config.Parse.{setting, root_keys, listener_keys, vault_keys, to_lower}
use goldfish.Config.Outcomes.{HasKey, HasKeys, IsSectionKey, IsFlag}

-- The scheme of an address that Vault can be called at.
abbrev pub IsWeb : String → Type 0
IsWeb scheme = (scheme ≡ "http") ⊎ (scheme ≡ "https")

-- `tls_autoredirect` is off, or it is on and TLS is.
abbrev pub IsRedirect : Bool → Option String → Bool → Type 0
IsRedirect disabled v b =
    ((v ≡ none) × (b ≡ false))
    ⊎ ((v ≡ some "0") × (b ≡ false))
    ⊎ ((v ≡ some "1") × (disabled ≡ false) × (b ≡ true))

module _ ⦃lib : Library⦄ where
  -- The fields of the object that a section has.
  pub record HasFields (node : Node) (valid : List String) (m : List (String × String))
      : Type 0 where
    pub keys : HasKeys node valid
    pub decoded : lib.decode_map node ≡ ok m

  -- What the fields of a section say of the listener, and of Vault.
  pub record SetsListener (key : String) (m : List (String × String)) (l : ListenerConfig)
      : Type 0 where
    pub type : to_lower lib.lower key ≡ l.type
    pub address : lookup "address" m ≡ some l.address
    pub has_address : l.address ≢ ""
    pub disable : IsFlag (lookup "tls_disable" m) l.tls_disable
    pub cert_file : setting (lookup "tls_cert_file" m) "" ≡ l.tls_cert_file
    pub key_file : setting (lookup "tls_key_file" m) "" ≡ l.tls_key_file
    pub redirect : IsRedirect l.tls_disable (lookup "tls_autoredirect" m) l.tls_autoredirect

  -- The address reads as one of the web, and is kept as it is written back.
  pub record IsAddress (given address : String) : Type 0 where
    pub url : Url
    pub is_url : lib.parse_url given ≡ ok url
    pub is_web : IsWeb url.scheme
    pub same_text : url.text ≡ address

  pub record SetsVault (key : String) (m : List (String × String)) (v : VaultConfig) : Type 0 where
    pub type : to_lower lib.lower key ≡ v.type
    pub given : String
    pub address : lookup "address" m ≡ some given
    pub has_address : given ≢ ""
    pub is_address : IsAddress given v.address
    pub skip : IsFlag (lookup "tls_skip_verify" m) v.tls_skip_verify
    pub runtime : setting (lookup "runtime_config" m) "secret/goldfish" ≡ v.runtime_config
    pub login : setting (lookup "approle_login" m) "auth/approle/login" ≡ v.approle_login
    pub id : setting (lookup "approle_id" m) "goldfish" ≡ v.approle_id

  pub record IsListener (item : Item) (l : ListenerConfig) : Type 0 where
    pub key : String
    pub m : List (String × String)
    pub has_key : IsSectionKey "listener" item.keys key
    pub has_fields : HasFields item.val listener_keys m
    pub sets : SetsListener key m l

  pub record IsVault (item : Item) (v : VaultConfig) : Type 0 where
    pub key : String
    pub m : List (String × String)
    pub has_key : IsSectionKey "vault" item.keys key
    pub has_fields : HasFields item.val vault_keys m
    pub sets : SetsVault key m v

  -- The text is an object whose items have the keys of a configuration, one of them for the
  -- listener and one for Vault.
  pub record IsConfig (d : String) (c : Config) : Type 0 where
    pub list : Items
    pub is_parsed : lib.parse d ≡ ok (object_list list)
    pub is_decoded : lib.decode_config (object_list list) ≡ ok tt
    pub root : All (HasKey root_keys) (items list)
    pub listener : Item
    pub one_listener : lib.filter "listener" (items list) ≡ listener ∷ []
    pub is_listener : IsListener listener c.listener
    pub vault : Item
    pub one_vault : lib.filter "vault" (items list) ≡ vault ∷ []
    pub is_vault : IsVault vault c.vault
